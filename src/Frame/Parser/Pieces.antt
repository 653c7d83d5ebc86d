-- ===== src/Frame/Parser/Pieces.antt =====
-- Calls in sequence: a handle stays fit for the next call, and a stream may arrive in pieces.
use a_nother_ws.Prelude.{
  ℕ, ◌+◌, ◌^◌, ◌≤◌, ◌≡◌, refl, ◌∙◌, ap, sym, subst, List, [], ◌∷◌, ◌++◌, append_assoc, some, inl,
  inr, arith, length, take, length-append, length-take, some_returns, if◌then◌else◌,
}
use a_nother_ws.Membuf.{contents}
use a_nother_ws.Frame.Handle.{WebsocketHandle, ParseState, is_complete}
use a_nother_ws.Frame.Decode.{Outcome, need_more, too_long, bare, framed, decode}
use a_nother_ws.Frame.Decode.TooLong.{LongField-take_six, decode-LongField, too_long_LongField}
use a_nother_ws.Frame.Parser.{try_parse_protocol}
use a_nother_ws.Frame.Parser.Stages.{Kept, Agrees, Reaches}
use a_nother_ws.Frame.Parser.Refine.{
  held, kept, IsReady, IsReady-Reaches, try_parse_protocol-Yields, decode-nil,
}

held_complete : (h : WebsocketHandle) → h.parse_state ≡ ParseState.complete → held h ≡ []
held_complete h e = ap (λ p. if is_complete p then [] else contents h.proto_buf) e

held_incomplete :
    (h : WebsocketHandle) → h.parse_state ≡ ParseState.incomplete → held h ≡ contents h.proto_buf
held_incomplete h e = ap (λ p. if is_complete p then [] else contents h.proto_buf) e

pub held_failed :
    (h : WebsocketHandle) → h.parse_state ≡ ParseState.failed → held h ≡ contents h.proto_buf
held_failed h e = ap (λ p. if is_complete p then [] else contents h.proto_buf) e

-- After a call that agrees with the outcome of the stream the handle is fit for the next one.
pub Agrees-IsReady :
    (k : Kept) (before input : List ℕ) (o : Outcome) (out : WebsocketHandle × ℕ)
    → decode (before ++ input) ≡ o
    → Agrees k before input o out
    → IsReady out.0
Agrees-IsReady k before input need_more out e a =
    let left : held out.0 ≡ before ++ input = held_incomplete out.0 a.parse_state ∙ a.holds in
    record { valid = a.valid; key_size = a.key_size; pending = inl (ap decode left ∙ e) }
Agrees-IsReady k before input too_long out e a =
    let left : held out.0 ≡ take 6 (before ++ input) = held_failed out.0 a.parse_state ∙ a.holds in
    let field = LongField-take_six (before ++ input) (too_long_LongField (before ++ input) e) in
    record {
      valid = a.valid;
      key_size = a.key_size;
      pending = inr (
        ap decode left ∙ decode-LongField (take 6 (before ++ input)) field,
        omega (arith, ap length left, length-take 6 (before ++ input)),
      );
    }
Agrees-IsReady k before input (bare b0 b1) out e (a, d) = record {
  valid = a.valid;
  key_size = a.key_size;
  pending = inl (ap decode (held_complete out.0 a.parse_state) ∙ decode-nil);
}
Agrees-IsReady k before input (framed b0 b1 header_len payload) out e (a, d) = record {
  valid = a.valid;
  key_size = a.key_size;
  pending = inl (ap decode (held_complete out.0 a.parse_state) ∙ decode-nil);
}

incomplete-needs :
    (k : Kept) (before input : List ℕ) (o : Outcome) (out : WebsocketHandle × ℕ)
    → Agrees k before input o out
    → out.0.parse_state ≡ ParseState.incomplete
    → o ≡ need_more
incomplete-needs k before input need_more out a e = refl
incomplete-needs k before input too_long out a e = absurd (distinct (sym a.parse_state ∙ e))
  where
    distinct : ParseState.failed ≡ ParseState.incomplete → ⊥
    distinct e = cc
incomplete-needs k before input (bare b0 b1) out (a, d) e =
    absurd (distinct (sym a.parse_state ∙ e))
  where
    distinct : ParseState.complete ≡ ParseState.incomplete → ⊥
    distinct e = cc
incomplete-needs k before input (framed b0 b1 header_len payload) out (a, d) e =
    absurd (distinct (sym a.parse_state ∙ e))
  where
    distinct : ParseState.complete ≡ ParseState.incomplete → ⊥
    distinct e = cc

-- Two parses that a caller cannot tell apart: `whole` took as many bytes as `last` and the `first`
-- ones together.
pub record SameParse (first : ℕ) (last whole : WebsocketHandle × ℕ) : Type 0 where
  pub same_return : last.1 ≡ whole.1
  pub same_state : last.0.parse_state ≡ whole.0.parse_state
  pub same_left : contents last.0.proto_buf ≡ contents whole.0.proto_buf
  pub same_count : first + last.0.read_count ≡ whole.0.read_count
  pub same_fields :
      last.0.parse_state ≡ ParseState.complete
      → (last.0.is_eof ≡ whole.0.is_eof)
        × (last.0.type ≡ whole.0.type)
        × (last.0.has_mask ≡ whole.0.has_mask)

Agrees-SameParse :
    (k : Kept) (before c d : List ℕ) (o : Outcome) (last whole : WebsocketHandle × ℕ)
    → Reaches (length (before ++ c)) o
    → Agrees k (before ++ c) d o last
    → Agrees k before (c ++ d) o whole
    → SameParse (length c) last whole
Agrees-SameParse k before c d need_more last whole reach a b = record {
  same_return = a.returned ∙ sym b.returned;
  same_state = a.parse_state ∙ sym b.parse_state;
  same_left = a.holds ∙ append_assoc before c d ∙ sym b.holds;
  same_count = omega (arith, a.counted, b.counted, length-append c d);
  same_fields = λ e. absurd (distinct (sym a.parse_state ∙ e));
}
  where
    distinct : ParseState.incomplete ≡ ParseState.complete → ⊥
    distinct e = cc
Agrees-SameParse k before c d too_long last whole reach a b = record {
  same_return = a.returned ∙ sym b.returned;
  same_state = a.parse_state ∙ sym b.parse_state;
  same_left = a.holds ∙ ap (take 6) (append_assoc before c d) ∙ sym b.holds;
  same_count = omega (arith, a.counted, b.counted, length-append before c, reach);
  same_fields = λ e. absurd (distinct (sym a.parse_state ∙ e));
}
  where
    distinct : ParseState.failed ≡ ParseState.complete → ⊥
    distinct e = cc
Agrees-SameParse k before c d (bare b0 b1) last whole reach (a, f) (b, g) = record {
  same_return = a.returned ∙ sym b.returned;
  same_state = a.parse_state ∙ sym b.parse_state;
  same_left = a.holds ∙ ap (take 2) (append_assoc before c d) ∙ sym b.holds;
  same_count = omega (arith, a.counted, b.counted, length-append before c, reach);
  same_fields = λ e. (f.eof ∙ sym g.eof, f.op ∙ sym g.op, f.masked ∙ sym g.masked);
}
Agrees-SameParse k before c d (framed b0 b1 header_len payload) last whole reach (a, f) (b, g) =
    record {
      same_return = a.returned ∙ sym b.returned;
      same_state = a.parse_state ∙ sym b.parse_state;
      same_left = a.holds ∙ sym b.holds;
      same_count = omega (arith, a.counted, b.counted, length-append before c, reach);
      same_fields = λ e. (f.eof ∙ sym g.eof, f.op ∙ sym g.op, f.masked ∙ sym g.masked);
    }

-- The first piece, when it is not enough: all of it is held, and nothing else has changed.
first_piece :
    (h : WebsocketHandle) (x : ℕ) (c : List ℕ) (out : WebsocketHandle × ℕ)
    → IsReady h
    → length (held h) + length (x ∷ c) ≤ 2 ^ 31
    → try_parse_protocol h (x ∷ c) ≡ some out
    → out.0.parse_state ≡ ParseState.incomplete
    → (held out.0 ≡ held h ++ (x ∷ c))
      × (kept out.0 ≡ kept h)
      × IsReady out.0
      × (out.0.read_count ≡ length (x ∷ c))
first_piece h x c out ready small e state =
    let (out', e', a') = try_parse_protocol-Yields h x c ready small in
    let same : out' ≡ out = some_returns out' out (sym e' ∙ e) in
    let a = subst (Agrees (kept h) (held h) (x ∷ c) (decode (held h ++ (x ∷ c)))) same a' in
    let more : decode (held h ++ (x ∷ c)) ≡ need_more =
      incomplete-needs (kept h) (held h) (x ∷ c) (decode (held h ++ (x ∷ c))) out a state in
    let b = subst (λ o. Agrees (kept h) (held h) (x ∷ c) o out) more a in
    (
      held_incomplete out.0 state ∙ b.holds,
      λ i. record {
        flag = b.same_flag i;
        merge_buf = b.same_merge i;
        endpoint_type = b.same_endpoint i;
      },
      Agrees-IsReady (kept h) (held h) (x ∷ c) need_more out more b,
      b.counted,
    )

-- A frame may arrive in pieces. When a piece leaves the parser incomplete and another follows, the
-- second call returns what one call with both pieces together returns: the same value, state,
-- bytes in the buffer and, for a complete frame, the same header fields, with the bytes taken
-- adding up. The handle is between two calls, no piece is empty, and the bytes held and both pieces
-- are at most 2 ^ 31.
pub two_pieces :
    (h : WebsocketHandle) (x y : ℕ) (c d : List ℕ) (out : WebsocketHandle × ℕ)
    → IsReady h
    → length (held h) + (length (x ∷ c) + length (y ∷ d)) ≤ 2 ^ 31
    → try_parse_protocol h (x ∷ c) ≡ some out
    → out.0.parse_state ≡ ParseState.incomplete
    → (last : WebsocketHandle × ℕ) × (whole : WebsocketHandle × ℕ) × (try_parse_protocol out.0
          (y ∷ d)
        ≡ some last)
      × (try_parse_protocol h ((x ∷ c) ++ (y ∷ d)) ≡ some whole)
      × SameParse (length (x ∷ c)) last whole
two_pieces h x y c d out ready small e state =
    let (left, same, ready', count) = first_piece h x c out ready (omega arith) e state in
    let o = decode ((held h ++ (x ∷ c)) ++ (y ∷ d)) in
    let (last, e1, a1) =
      try_parse_protocol-Yields out.0 y d ready'
        (omega (arith, ap length left, length-append (held h) (x ∷ c))) in
    let (whole, e2, a2) =
      try_parse_protocol-Yields h x (c ++ (y ∷ d)) ready (omega (arith, length-append c (y ∷ d))) in
    let a1' : Agrees (kept h) (held h ++ (x ∷ c)) (y ∷ d) o last =
      subst (λ l. Agrees (kept h) l (y ∷ d) (decode (l ++ (y ∷ d))) last) left
        (subst (λ k. Agrees k (held out.0) (y ∷ d) (decode (held out.0 ++ (y ∷ d))) last) same
          a1) in
    let a2' : Agrees (kept h) (held h) ((x ∷ c) ++ (y ∷ d)) o whole =
      subst (λ l. Agrees (kept h) (held h) ((x ∷ c) ++ (y ∷ d)) (decode l) whole)
        (sym (append_assoc (held h) (x ∷ c) (y ∷ d))) a2 in
    let reach : Reaches (length (held h ++ (x ∷ c))) o =
      subst (λ l. Reaches (length l) (decode (l ++ (y ∷ d)))) left
        (IsReady-Reaches out.0 (y ∷ d) ready') in
    (
      last,
      whole,
      e1,
      e2,
      Agrees-SameParse (kept h) (held h) (x ∷ c) (y ∷ d) o last whole reach a1' a2',
    )

-- What a call leaves is fit for the next call: when a call with new data returns, its buffer is
-- valid, its key has four bytes, and what it holds for the next call is no whole frame, or the
-- head of one that is too long. The handle was fit before, and the bytes held and the data are at
-- most 2 ^ 31.
pub try_parse_protocol-IsReady :
    (h : WebsocketHandle) (x : ℕ) (input : List ℕ) (out : WebsocketHandle × ℕ)
    → IsReady h
    → length (held h) + length (x ∷ input) ≤ 2 ^ 31
    → try_parse_protocol h (x ∷ input) ≡ some out
    → IsReady out.0
try_parse_protocol-IsReady h x input out ready small e =
    let (out', e', a) = try_parse_protocol-Yields h x input ready small in
    subst (λ o. IsReady o.0) (some_returns out' out (sym e' ∙ e))
      (Agrees-IsReady (kept h) (held h) (x ∷ input) (decode (held h ++ (x ∷ input))) out' refl a)
