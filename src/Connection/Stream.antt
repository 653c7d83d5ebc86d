-- ===== src/Connection/Stream.antt =====
-- The frames of a stream, and what the loops of both endpoints do with them.
use a_nother_ws.Prelude.{
  ℕ, ◌+◌, ◌-◌, ◌^◌, ◌≤◌, ◌≡◌, inl, refl, ◌∙◌, ap, ap₂, sym, subst, List, [], ◌∷◌, ◌++◌, Option,
  some, true, arith, if◌then◌else◌, length, take, drop, drop-append_ge,
}
use a_nother_ws.Membuf.{Membuf, contents}
use a_nother_ws.Membuf.Valid.{IsValid}
use a_nother_ws.Frame.{WebsocketHandle, ParseState, is_complete}
use a_nother_ws.Frame.Decode.{need_more, bare, framed, fin_bit, opcode, decode}
use a_nother_ws.Frame.Parser.Stages.{Ended, Describes, Agrees}
use a_nother_ws.Frame.Parser.Refine.{held, kept, IsReady, decode-nil}
use a_nother_ws.Frame.Parser.Pieces.{Agrees-IsReady}
use a_nother_ws.Connection.{Connection, Kind, kind_of, on_kind, while_unread}
use a_nother_ws.Connection.View.{View, view, deliver, on_kind-Serves}

pub record Message : Type 0 where
  pub kind : Kind
  pub fin : ℕ
  pub payload : List ℕ

abbrev pub message_of : ℕ → List ℕ → Message
message_of b0 payload = record { kind = kind_of (opcode b0); fin = fin_bit b0; payload = payload }

-- A stream is a sequence of whole frames with the head of one more behind them. A frame without
-- data counts as one whose data is its header.
pub data Splits : List ℕ → List Message → List ℕ → Type 0 where
  stop : {s : List ℕ} → decode s ≡ need_more → Splits s [] s
  whole :
      {s left : List ℕ} {ms : List Message} (b0 b1 len : ℕ) (payload : List ℕ)
      → decode s ≡ framed b0 b1 len payload
      → Splits (drop (len + length payload) s) ms left
      → Splits s (message_of b0 payload ∷ ms) left
  empty :
      {s left : List ℕ} {ms : List Message} (b0 b1 : ℕ)
      → decode s ≡ bare b0 b1
      → Splits (drop 2 s) ms left
      → Splits s (message_of b0 (take 2 s) ∷ ms) left

pub deliver_all : List Message → View → View
deliver_all [] v = v
deliver_all (m ∷ ms) v = deliver_all ms (deliver m.kind m.fin m.payload v)

-- A connection between two rounds.
pub record IsServing (c : Connection) (limit : ℕ) : Type 0 where
  pub ready : IsReady c.handle
  pub valid : IsValid c.handle.merge_buf
  pub loop : c.has_loop_data ≡ true
  pub within : c.handle.merge_buf.size ≤ limit

-- What one frame leaves.
pub record HasServed (c : Connection) (m : Message) (limit : ℕ) (served : Connection) : Type 0 where
  pub seen : view served ≡ deliver m.kind m.fin m.payload (view c)
  pub serving : IsServing served limit
  pub none_held : held served.handle ≡ []

served-IsReady :
    (h : WebsocketHandle) (flag : ℕ) (merge : Membuf) (served : WebsocketHandle)
    → IsValid h.proto_buf
    → length h.mask ≡ 4
    → h.parse_state ≡ ParseState.complete
    → served ≡ record h { proto_buf = record h.proto_buf { flag = flag }; merge_buf = merge }
    → IsReady served × (held served ≡ [])
served-IsReady h flag merge served v key state e =
    let h' : WebsocketHandle = record h {
      proto_buf = record h.proto_buf { flag = flag };
      merge_buf = merge;
    } in
    let none_held : held h' ≡ [] =
      ap (λ p. if is_complete p then [] else contents h.proto_buf) state in
    subst (λ w. IsReady w × (held w ≡ [])) (sym e)
      (
        record {
          valid = record { block = v.block; fits = v.fits; word = v.word };
          key_size = key;
          pending = inl (ap decode none_held ∙ decode-nil);
        },
        none_held,
      )

-- A complete frame is served.
pub frame_served :
    (c : Connection) (b0 b1 limit : ℕ) (payload : List ℕ) (count : ℕ) (out : WebsocketHandle × ℕ)
    → IsServing c limit
    → limit + length payload ≤ 2 ^ 31
    → Ended (kept c.handle) 1 ParseState.complete payload count out
    → Describes b0 b1 out.0
    → (served : Connection) × (on_kind (kind_of out.0.type) (record c { handle = out.0 })
        ≡ some served)
      × HasServed c (message_of b0 payload) (limit + length payload) served
frame_served c b0 b1 limit payload count out serving small a d =
    let c' : Connection = record c { handle = out.0 } in
    let valid' : IsValid out.0.merge_buf = subst IsValid (sym a.same_merge) serving.valid in
    let size : out.0.merge_buf.size ≡ c.handle.merge_buf.size = ap (λ b. b.size) a.same_merge in
    let (served, r, s) =
      on_kind-Serves (kind_of out.0.type) c' payload serving.loop valid' a.holds
        (omega (arith, size, serving.within)) in
    let before : view c' ≡ view c = λ i. record {
      proto_flag = a.same_flag i;
      merge = contents (a.same_merge i);
      merge_flag = (a.same_merge i).flag;
      is_closing = c.is_closing;
      events = c.events;
    } in
    let (ready, none_held) =
      served-IsReady out.0 s.flag served.handle.merge_buf served.handle a.valid a.key_size
        a.parse_state s.same_handle in
    (
      served,
      r,
      record {
        seen =
            s.seen
            ∙ ap (deliver (kind_of out.0.type) out.0.is_eof payload) before
            ∙ ap₂ (λ t f. deliver (kind_of t) f payload (view c)) d.op d.eof;
        serving = record {
          ready = ready;
          valid = s.valid;
          loop = s.same_data ∙ serving.loop;
          within = omega (arith, s.within, size, serving.within);
        };
        none_held = none_held;
      },
    )

-- What a loop leaves when it has served these messages.
pub record HasServedAll (c : Connection) (ms : List Message) (left : List ℕ) (limit : ℕ)
    (out : Connection) : Type 0 where
  pub seen : view out ≡ deliver_all ms (view c)
  pub pending : held out.handle ≡ left
  pub serving : IsServing out limit

Splits-none :
    {s left : List ℕ} {ms : List Message}
    → Splits s ms left
    → decode s ≡ need_more
    → (ms ≡ []) × (left ≡ s)
Splits-none (Splits.stop e) more = (refl, refl)
Splits-none (Splits.whole b0 b1 len payload e rest) more = absurd (distinct (sym e ∙ more))
  where
    distinct : framed b0 b1 len payload ≡ need_more → ⊥
    distinct e = cc
Splits-none (Splits.empty b0 b1 e rest) more = absurd (distinct (sym e ∙ more))
  where
    distinct : bare b0 b1 ≡ need_more → ⊥
    distinct e = cc

abbrev pub Again : Type 0
Again = Connection → List ℕ → Option Connection

-- The round after a frame, given what the loop does with the data that is left.
pub unread_all :
    (again : Again) (c served : Connection) (m : Message) (ms : List Message) (rest left : List ℕ)
    (limit n : ℕ)
    → HasServed c m limit served
    → Splits rest ms left
    → limit + length rest ≤ n
    → IsServing served n
    → ((x : ℕ) (input : List ℕ)
        → rest ≡ x ∷ input
        → (out : Connection) × (again served (x ∷ input) ≡ some out)
          × HasServedAll served ms left n out)
    → (out : Connection) × (while_unread again served rest ≡ some out)
      × HasServedAll c (m ∷ ms) left n out
unfolding while_unread deliver_all
unread_all again c served m ms [] left limit n h sp small serving next =
    let (no_ms, nothing) = Splits-none sp decode-nil in
    (
      served,
      refl,
      record {
        seen =
            h.seen ∙ ap (λ l. deliver_all l (deliver m.kind m.fin m.payload (view c))) (sym no_ms);
        pending = h.none_held ∙ sym nothing;
        serving = serving;
      },
    )
unread_all again c served m ms (x ∷ rest) left limit n h sp small serving next =
    let (out, r, all) = next x rest refl in
    (
      out,
      r,
      record {
        seen = all.seen ∙ ap (deliver_all ms) h.seen;
        pending = all.pending;
        serving = all.serving;
      },
    )

pub loosen : (c : Connection) (a b : ℕ) → a ≤ b → IsServing c a → IsServing c b
loosen c a b h s = record {
  ready = s.ready;
  valid = s.valid;
  loop = s.loop;
  within = omega (arith, s.within);
}

-- An incomplete frame is kept for the next read.
pub incomplete_kept :
    (c : Connection) (input : List ℕ) (limit n : ℕ) (out : WebsocketHandle × ℕ)
    → IsServing c limit
    → limit ≤ n
    → decode (held c.handle ++ input) ≡ need_more
    → Agrees (kept c.handle) (held c.handle) input need_more out
    → HasServedAll c [] (held c.handle ++ input) n (record c { handle = out.0 })
unfolding deliver_all
incomplete_kept c input limit n out serving small e a = record {
  seen = λ i. record {
    proto_flag = a.same_flag i;
    merge = contents (a.same_merge i);
    merge_flag = (a.same_merge i).flag;
    is_closing = c.is_closing;
    events = c.events;
  };
  pending =
      ap (λ p. if is_complete p then [] else contents out.0.proto_buf) a.parse_state ∙ a.holds;
  serving = record {
    ready = Agrees-IsReady (kept c.handle) (held c.handle) input need_more out e a;
    valid = subst IsValid (sym a.same_merge) serving.valid;
    loop = serving.loop;
    within = omega (arith, ap (λ b. b.size) a.same_merge, serving.within);
  };
}

-- The data that is not yet read is the stream behind the frame.
pub behind :
    (before input : List ℕ) (n count : ℕ)
    → length before ≤ n
    → count ≡ n - length before
    → drop n (before ++ input) ≡ drop count input
behind before input n count h e = drop-append_ge n before input h ∙ ap (λ k. drop k input) (sym e)
