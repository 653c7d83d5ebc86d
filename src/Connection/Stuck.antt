-- ===== src/Connection/Stuck.antt =====
-- The loops of `on_read_websocket` at a length above 32 bits.
use a_nother_ws.Prelude.{
  ℕ, zero, suc, ◌+◌, ◌^◌, ◌≤◌, ◌<◌, ◌≡◌, refl, ◌∙◌, ap, ap₂, sym, subst, List, [], ◌∷◌, ◌++◌, none,
  arith, length, take, drop, length-append, length-take, length-drop, ◌>>=◌,
}
use a_nother_ws.Frame.{WebsocketHandle, ParseState}
use a_nother_ws.Frame.Decode.{too_long, decode}
use a_nother_ws.Frame.Decode.TooLong.{
  LongField-append, LongField-take_six, decode-LongField, too_long_LongField,
}
use a_nother_ws.Frame.Parser.{try_parse_protocol}
use a_nother_ws.Frame.Parser.Stages.{Agrees}
use a_nother_ws.Frame.Parser.Refine.{held, kept, IsReady, try_parse_protocol-Yields}
use a_nother_ws.Frame.Parser.Pieces.{Agrees-IsReady, held_failed}
use a_nother_ws.Connection.{
  Connection, tw_close_client, while_unread, server_parsed, server_loop, client_parsed, client_loop,
}
use a_nother_ws.Connection.Stream.{Again}

handle-tw_close_client : (c : Connection) → (tw_close_client c).handle ≡ c.handle
unfolding tw_close_client
handle-tw_close_client c = ground arith

-- The next round starts from the same six bytes.
record IsStuck (h : WebsocketHandle) (rest : List ℕ) : Type 0 where
  ready : IsReady h
  few : length (held h) ≡ 6
  bad : decode (held h ++ rest) ≡ too_long

still-IsStuck :
    (h : WebsocketHandle) (input : List ℕ) (out : WebsocketHandle × ℕ)
    → 6 ≤ length (held h ++ input)
    → decode (held h ++ input) ≡ too_long
    → Agrees (kept h) (held h) input too_long out
    → (rest : List ℕ) → IsStuck out.0 rest
still-IsStuck h input out six e a rest =
    let left : held out.0 ≡ take 6 (held h ++ input) = held_failed out.0 a.parse_state ∙ a.holds in
    let field = LongField-take_six (held h ++ input) (too_long_LongField (held h ++ input) e) in
    record {
      ready = Agrees-IsReady (kept h) (held h) input too_long out e a;
      few = omega (arith, ap length left, length-take 6 (held h ++ input));
      bad =
          ap (λ l. decode (l ++ rest)) left
          ∙ decode-LongField (take 6 (held h ++ input) ++ rest)
              (LongField-append (take 6 (held h ++ input)) rest field);
    }

nonempty_list : (l : List ℕ) → 0 < length l → (x : ℕ) × (s : List ℕ) × (l ≡ x ∷ s)
nonempty_list [] h = absurd (omega arith)
nonempty_list (x ∷ l) h = (x, l, refl)

module _ (loop : ℕ → Again) (parsed : ParseState → Again → Again)
    (loop_start : (c : Connection) (input : List ℕ) → loop zero c input ≡ none)
    (loop_step : (fuel : ℕ) (c : Connection) (input : List ℕ)
      → loop (suc fuel) c input ≡ (
          try_parse_protocol c.handle input >>= λ p.
          parsed p.0.parse_state
            (loop fuel)
            (record c { handle = p.0 })
            (drop p.0.read_count input)))
    (on_failed : (again : Again) (c : Connection) (x : ℕ) (rest : List ℕ)
      → parsed ParseState.failed again c (x ∷ rest) ≡ again (tw_close_client c) (x ∷ rest)) where
  never_ends :
      (fuel : ℕ) (c : Connection) (x : ℕ) (input : List ℕ)
      → IsReady c.handle
      → decode (held c.handle ++ (x ∷ input)) ≡ too_long
      → 6 < length (held c.handle ++ (x ∷ input))
      → length (held c.handle) ≤ 6
      → 6 + length (x ∷ input) ≤ 2 ^ 31
      → loop fuel c (x ∷ input) ≡ none
  never_ends zero c x input ready bad more few small = loop_start c (x ∷ input)
  never_ends (suc fuel) c x input ready bad more few small =
      let total = length-append (held c.handle) (x ∷ input) in
      let (out, r, a') = try_parse_protocol-Yields c.handle x input ready (omega arith) in
      let a = subst (λ o. Agrees (kept c.handle) (held c.handle) (x ∷ input) o out) bad a' in
      let (y, rest, e) =
        nonempty_list (drop out.0.read_count (x ∷ input))
          (omega (arith, length-drop out.0.read_count (x ∷ input), a.counted, total)) in
      let next = tw_close_client (record c { handle = out.0 }) in
      let same : next.handle ≡ out.0 = handle-tw_close_client (record c { handle = out.0 }) in
      let stuck =
        subst (λ h. IsStuck h (y ∷ rest)) (sym same)
          (still-IsStuck c.handle (x ∷ input) out (omega arith) bad a (y ∷ rest)) in
      loop_step fuel c (x ∷ input)
      ∙ ap
          (λ o. o >>= λ p.
            parsed p.0.parse_state (loop fuel) (record c { handle = p.0 })
              (drop p.0.read_count (x ∷ input)))
          r
      ∙ ap₂ (λ st rs. parsed st (loop fuel) (record c { handle = out.0 }) rs) a.parse_state e
      ∙ on_failed (loop fuel) (record c { handle = out.0 }) y rest
      ∙ never_ends fuel next y rest stuck.ready stuck.bad
          (omega (arith, length-append (held next.handle) (y ∷ rest), stuck.few))
          (omega (arith, stuck.few))
          (omega (arith, ap length e, length-drop out.0.read_count (x ∷ input)))

-- A frame whose length is above 32 bits, with data behind the six bytes that show it, sends the
-- loop of either endpoint round without end, whatever number of rounds it is given: the failed parse
-- takes nothing more, and the loop goes on while there is data. The connection is between two
-- reads, and the six bytes and the data are at most 2 ^ 31.
pub long_frame_hangs :
    (fuel : ℕ) (c : Connection) (x : ℕ) (input : List ℕ)
    → IsReady c.handle
    → decode (held c.handle ++ (x ∷ input)) ≡ too_long
    → 6 < length (held c.handle ++ (x ∷ input))
    → length (held c.handle) ≤ 6
    → 6 + length (x ∷ input) ≤ 2 ^ 31
    → (server_loop fuel c (x ∷ input) ≡ none) × (client_loop fuel c (x ∷ input) ≡ none)
unfolding server_loop server_parsed client_loop client_parsed while_unread
long_frame_hangs fuel c x input ready bad more few small = (
  never_ends server_loop server_parsed (λ c input. refl) (λ fuel c input. refl)
      (λ again c x rest. refl) fuel c x input ready bad more few small,
  never_ends client_loop client_parsed (λ c input. refl) (λ fuel c input. refl)
      (λ again c x rest. refl) fuel c x input ready bad more few small,
)
