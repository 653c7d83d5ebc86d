-- ===== src/Connection/Loops.antt =====
-- The loops of `on_read_websocket` on a stream that splits into frames.
use a_nother_ws.Prelude.{
  ℕ, zero, suc, ◌+◌, ◌-◌, ◌^◌, ◌≤◌, ◌<◌, ◌≡◌, refl, ◌∙◌, ap, ap₂, sym, subst, List, [], ◌∷◌, ◌++◌,
  some, arith, length, take, drop, length-append, length-drop, length-take, drop-all, ◌>>=◌,
}
use a_nother_ws.Frame.{WebsocketHandle, ParseState}
use a_nother_ws.Frame.Decode.{need_more, bare, framed, decode}
use a_nother_ws.Frame.Decode.Within.{Within, decode-Within}
use a_nother_ws.Frame.Parser.{try_parse_protocol}
use a_nother_ws.Frame.Parser.Stages.{Ended, Describes, Agrees, Reaches}
use a_nother_ws.Frame.Parser.Refine.{held, kept, IsReady-Reaches, try_parse_protocol-Yields}
use a_nother_ws.Connection.{
  Connection, kind_of, on_kind, while_unread, server_parsed, server_loop, client_parsed,
  client_loop,
}
use a_nother_ws.Connection.Stream.{
  Message, message_of, Splits, IsServing, frame_served, HasServedAll, Again, unread_all, loosen,
  incomplete_kept, behind,
}

module _ (loop : ℕ → Again) (parsed : ParseState → Again → Again)
    (loop_step : (fuel : ℕ) (c : Connection) (input : List ℕ)
      → loop (suc fuel) c input ≡ (
          try_parse_protocol c.handle input >>= λ p.
          parsed p.0.parse_state
            (loop fuel)
            (record c { handle = p.0 })
            (drop p.0.read_count input)))
    (on_complete : (again : Again) (c : Connection) (rest : List ℕ)
      → parsed ParseState.complete again c rest
        ≡ (on_kind (kind_of c.handle.type) c >>= λ served. while_unread again served rest))
    (on_incomplete : (again : Again) (c : Connection)
      → parsed ParseState.incomplete again c [] ≡ some c) where
  after_parse :
      (fuel : ℕ) (c : Connection) (input rest : List ℕ) (state : ParseState)
      (out : WebsocketHandle × ℕ)
      → try_parse_protocol c.handle input ≡ some out
      → out.0.parse_state ≡ state
      → drop out.0.read_count input ≡ rest
      → loop (suc fuel) c input ≡ parsed state (loop fuel) (record c { handle = out.0 }) rest
  after_parse fuel c input rest state out r e e' =
      loop_step fuel c input
      ∙ ap
          (λ o. o >>= λ p.
            parsed p.0.parse_state (loop fuel) (record c { handle = p.0 })
              (drop p.0.read_count input))
          r
      ∙ ap₂ (λ st rs. parsed st (loop fuel) (record c { handle = out.0 }) rs) e e'

  complete_round :
      (fuel : ℕ) (c : Connection) (input rest left payload : List ℕ) (ms : List Message)
      (b0 b1 limit count n : ℕ) (out : WebsocketHandle × ℕ)
      → try_parse_protocol c.handle input ≡ some out
      → Ended (kept c.handle) 1 ParseState.complete payload count out
      → Describes b0 b1 out.0
      → drop count input ≡ rest
      → IsServing c limit
      → limit + length payload + length rest ≤ n
      → n ≤ 2 ^ 31
      → Splits rest ms left
      → ((served : Connection) (x : ℕ) (input' : List ℕ)
          → rest ≡ x ∷ input'
          → held served.handle ≡ []
          → IsServing served (limit + length payload)
          → (all : Connection) × (loop fuel served (x ∷ input') ≡ some all)
            × HasServedAll served ms left n all)
      → (all : Connection) × (loop (suc fuel) c input ≡ some all)
        × HasServedAll c (message_of b0 payload ∷ ms) left n all
  complete_round fuel c input rest left payload ms b0 b1 limit count n out r a d e serving small
        large sp next =
      let (served, r', h) =
        frame_served c b0 b1 limit payload count out serving (omega arith) a d in
      let limit' = limit + length payload in
      let (all, r'', done) =
        unread_all (loop fuel) c served (message_of b0 payload) ms rest left limit' n h sp small
          (loosen served limit' n (omega arith) h.serving)
          (λ x input' q. next served x input' q h.none_held h.serving) in
      (
        all,
        after_parse fuel c input rest ParseState.complete out r a.parse_state
              (ap (λ k. drop k input) a.counted ∙ e)
            ∙ on_complete (loop fuel) (record c { handle = out.0 }) rest
            ∙ ap (λ o. o >>= λ s. while_unread (loop fuel) s rest) r'
            ∙ r'',
        done,
      )

  -- A round whose frame has the first `m` bytes of the stream.
  round_of :
      (fuel : ℕ) (c : Connection) (input payload : List ℕ) {s left : List ℕ} {ms : List Message}
      (b0 b1 limit n m : ℕ) (out : WebsocketHandle × ℕ)
      → held c.handle ++ input ≡ s
      → try_parse_protocol c.handle input ≡ some out
      → Ended (kept c.handle) 1 ParseState.complete payload (m - length (held c.handle)) out
      → Describes b0 b1 out.0
      → length (held c.handle) ≤ m
      → m ≤ length s
      → length payload ≤ m
      → IsServing c limit
      → limit + length s ≤ n
      → n ≤ 2 ^ 31
      → Splits (drop m s) ms left
      → ((served : Connection) (x : ℕ) (input' : List ℕ)
          → drop m s ≡ x ∷ input'
          → held served.handle ≡ []
          → IsServing served (limit + length payload)
          → (all : Connection) × (loop fuel served (x ∷ input') ≡ some all)
            × HasServedAll served ms left n all)
      → (all : Connection) × (loop (suc fuel) c input ≡ some all)
        × HasServedAll c (message_of b0 payload ∷ ms) left n all
  round_of fuel c input payload {s} {left} {ms} b0 b1 limit n m out e r a d far inside fits serving
        small large sp next =
      complete_round fuel c input (drop m s) left payload ms b0 b1 limit
        (m - length (held c.handle)) n out r a d
        (sym (behind (held c.handle) input m (m - length (held c.handle)) far refl) ∙ ap (drop m) e)
        serving (omega (arith, length-drop m s)) large sp next

  -- The loop serves a stream that begins with what is held.
  pub loop_all :
      (fuel : ℕ) {s left : List ℕ} {ms : List Message}
      → Splits s ms left
      → (c : Connection) (x : ℕ) (input : List ℕ) (limit n : ℕ) → held c.handle ++ (x ∷ input) ≡ s
      → IsServing c limit
      → limit + length s ≤ n
      → n ≤ 2 ^ 31
      → length ms < fuel
      → (out : Connection) × (loop fuel c (x ∷ input) ≡ some out) × HasServedAll c ms left n out
  loop_all zero sp c x input limit n e serving small large enough = absurd (omega arith)
  loop_all (suc fuel) {s} {left} (Splits.stop more) c x input limit n e serving small large enough =
      let (out, r, a') =
        try_parse_protocol-Yields c.handle x input serving.ready
          (omega (arith, ap length e, length-append (held c.handle) (x ∷ input))) in
      let more' : decode (held c.handle ++ (x ∷ input)) ≡ need_more = ap decode e ∙ more in
      let a = subst (λ o. Agrees (kept c.handle) (held c.handle) (x ∷ input) o out) more' a' in
      let all_read : drop out.0.read_count (x ∷ input) ≡ [] =
        drop-all out.0.read_count (x ∷ input) (omega (arith, a.counted)) in
      (
        record c { handle = out.0 },
        after_parse fuel c (x ∷ input) [] ParseState.incomplete out r a.parse_state all_read
            ∙ on_incomplete (loop fuel) (record c { handle = out.0 }),
        subst (λ l. HasServedAll c [] l n (record c { handle = out.0 })) e
            (incomplete_kept c (x ∷ input) limit n out serving (omega arith) more' a),
      )
  loop_all (suc fuel) {s} {left} (Splits.whole {ms = ms} b0 b1 len payload found sp) c x input limit
        n e serving small large enough =
      let reach =
        subst (λ l. Reaches (length (held c.handle)) (decode l)) e
          (IsReady-Reaches c.handle (x ∷ input) serving.ready) in
      let (out, r, a') =
        try_parse_protocol-Yields c.handle x input serving.ready
          (omega (arith, ap length e, length-append (held c.handle) (x ∷ input))) in
      let found' : decode (held c.handle ++ (x ∷ input)) ≡ framed b0 b1 len payload =
        ap decode e ∙ found in
      let (a, d) =
        subst (λ o. Agrees (kept c.handle) (held c.handle) (x ∷ input) o out) found' a' in
      let (inside, two) = subst (Within (length s)) found (decode-Within s) in
      let far : length (held c.handle) ≤ len + length payload =
        subst (Reaches (length (held c.handle))) found reach in
      round_of fuel c (x ∷ input) payload b0 b1 limit n (len + length payload) out e r a d far
        inside (omega arith) serving small large sp
        (λ served y input' q none_held serving'.
          loop_all fuel sp served y input' (limit + length payload) n
            (ap (λ l. l ++ (y ∷ input')) none_held ∙ sym q) serving'
            (omega (arith, length-drop (len + length payload) s)) large (omega arith))
  loop_all (suc fuel) {s} {left} (Splits.empty {ms = ms} b0 b1 found sp) c x input limit n e serving
        small large enough =
      let reach =
        subst (λ l. Reaches (length (held c.handle)) (decode l)) e
          (IsReady-Reaches c.handle (x ∷ input) serving.ready) in
      let (out, r, a') =
        try_parse_protocol-Yields c.handle x input serving.ready
          (omega (arith, ap length e, length-append (held c.handle) (x ∷ input))) in
      let found' : decode (held c.handle ++ (x ∷ input)) ≡ bare b0 b1 = ap decode e ∙ found in
      let (a'', d) =
        subst (λ o. Agrees (kept c.handle) (held c.handle) (x ∷ input) o out) found' a' in
      let a =
        subst
          (λ l.
            Ended (kept c.handle) 1 ParseState.complete (take 2 l) (2 - length (held c.handle)) out)
          e a'' in
      let inside : 2 ≤ length s = subst (Within (length s)) found (decode-Within s) in
      let far : length (held c.handle) ≤ 2 = subst (Reaches (length (held c.handle))) found reach in
      let size : length (take 2 s) ≡ 2 = omega (arith, length-take 2 s) in
      round_of fuel c (x ∷ input) (take 2 s) b0 b1 limit n 2 out e r a d far inside
        (omega (arith, size)) serving small large sp
        (λ served y input' q none_held serving'.
          loop_all fuel sp served y input' (limit + length (take 2 s)) n
            (ap (λ l. l ++ (y ∷ input')) none_held ∙ sym q) serving'
            (omega (arith, length-drop 2 s, size)) large (omega arith))

-- The server's loop serves a stream frame by frame, however it was cut into reads. The stream is
-- what is held from the reads before, followed by the new data. When it splits into whole frames
-- and the head of one more, the loop ends; the flags, the message that is being put together and
-- the events are those of delivering the frames in order; the head of the last frame is held for
-- the next read, and the connection is fit for it. The connection is between two reads, its loop
-- has its data, the message put together and the stream are at most 2 ^ 31, and the loop has more
-- rounds than there are frames.
pub server_loop_delivers :
    (fuel : ℕ) (c : Connection) (x : ℕ) (input left : List ℕ) (ms : List Message) (limit : ℕ)
    → Splits (held c.handle ++ (x ∷ input)) ms left
    → IsServing c limit
    → limit + length (held c.handle ++ (x ∷ input)) ≤ 2 ^ 31
    → length ms < fuel
    → (out : Connection) × (server_loop fuel c (x ∷ input) ≡ some out)
      × HasServedAll c ms left (limit + length (held c.handle ++ (x ∷ input))) out
unfolding server_loop server_parsed
server_loop_delivers fuel c x input left ms limit sp serving small enough =
    loop_all server_loop server_parsed (λ fuel c input. refl) (λ again c rest. refl)
      (λ again c. refl) fuel sp c x input limit (limit + length (held c.handle ++ (x ∷ input))) refl
      serving (omega arith) small enough

-- The client's loop does with such a stream what the server's does: it ends, the flags, the message
-- that is being put together and the events are those of delivering the frames in order, and the
-- head of the last frame is held. The connection is between two reads, its loop has its data, the
-- message put together and the stream are at most 2 ^ 31, and the loop has more rounds than there
-- are frames.
pub client_loop_delivers :
    (fuel : ℕ) (c : Connection) (x : ℕ) (input left : List ℕ) (ms : List Message) (limit : ℕ)
    → Splits (held c.handle ++ (x ∷ input)) ms left
    → IsServing c limit
    → limit + length (held c.handle ++ (x ∷ input)) ≤ 2 ^ 31
    → length ms < fuel
    → (out : Connection) × (client_loop fuel c (x ∷ input) ≡ some out)
      × HasServedAll c ms left (limit + length (held c.handle ++ (x ∷ input))) out
unfolding client_loop client_parsed while_unread
client_loop_delivers fuel c x input left ms limit sp serving small enough =
    loop_all client_loop client_parsed (λ fuel c input. refl) (λ again c rest. refl)
      (λ again c. refl) fuel sp c x input limit (limit + length (held c.handle ++ (x ∷ input))) refl
      serving (omega arith) small enough
