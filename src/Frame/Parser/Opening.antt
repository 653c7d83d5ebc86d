-- ===== src/Frame/Parser/Opening.antt =====
-- The long length field, the choice of a length field, and the first two bytes.
use a_nother_ws.Prelude.{
  ℕ, ◌+◌, ◌-◌, ◌^◌, ◌≤◌, ◌<◌, ◌≡◌, ◌⊎◌, refl, ◌∙◌, ap, List, [], ◌∷◌, ◌++◌, inl, inr, true, false,
  ◌&&◌, arith, length, take, ltb, ◌==◌, Bool-cases,
}
use a_nother_ws.Prelude.Bits.{bit_and_low4, bit_and_low7, bit_and_rsv}
use a_nother_ws.Frame.Handle.{WebsocketHandle, ParseState}
use a_nother_ws.Frame.Reader.{Reader}
use a_nother_ws.Frame.Decode.{
  need_more, fin_bit, opcode, short_length, decode_four, decode_length, decode,
}
use a_nother_ws.Frame.Parser.{
  sync, read_length_four, read_length, all_zero, first_byte, second_byte, read_first, read_second,
}
use a_nother_ws.Frame.Parser.Stages.{Kept, Ended, Describes, Reaches, Yields, Here, reads, stops}
use a_nother_ws.Frame.Parser.Header.{read_mask-Yields}
use a_nother_ws.Frame.Parser.Length.{
  with_length, with_length-Here, with_length-Describes, read_length_two-Yields,
  read_length_low-Yields,
}

all_zero_four :
    (a b c d : ℕ) → all_zero (a ∷ b ∷ c ∷ d ∷ []) ≡ (a == 0 && (b == 0 && (c == 0 && d == 0)))
unfolding all_zero
all_zero_four a b c d = ground arith

length_cases : (k : ℕ) → k < 128 → (k ≡ 0) ⊎ (((0 < k) × (k < 126)) ⊎ ((k ≡ 126) ⊎ (k ≡ 127)))
length_cases k h = grind arith

module _ (kept : Kept) (held input : List ℕ) (small : length held + length input ≤ 2 ^ 31)
    (b0 b1 : ℕ) where
  -- Returning at `pos` with the bytes read so far in the buffer.
  return-Ended :
      (ret pos : ℕ) (state : ParseState) (h : WebsocketHandle) (r : Reader) (s : List ℕ) (n : ℕ)
      → length held ≤ pos
      → Here kept held input pos h r s
      → Ended kept ret state
          (take pos (held ++ input))
          (pos - length held)
          (record (sync h r) { real_payload_len = n; parse_state = state }, ret)
  return-Ended ret pos state h r s n reach here = record {
    returned = refl;
    parse_state = refl;
    valid = here.at.valid;
    holds = here.at.view ∙ ap (λ k. take k (held ++ input)) (omega arith);
    counted = here.at.counted;
    same_flag = here.at.same_flag;
    same_merge = here.mid.same_merge;
    same_endpoint = here.mid.same_endpoint;
    key_size = here.mid.key_size;
  }

  module _ (h : WebsocketHandle) (d : Describes b0 b1 h) (r : Reader) where
    four_missing :
        (s : List ℕ)
        → Here kept held input 2 h r s
        → length s < 4
        → Yields kept held input need_more (read_length_four input h r)
    unfolding read_length_four
    four_missing s here lack =
        let (r', got, a) =
          stops kept held input small 2 h r 4 s h lack (omega arith) here here.mid in
        ((sync h r', 0), rw got, a)

    four_present :
        (n7 n6 n5 n4 : ℕ) (s : List ℕ)
        → Here kept held input 2 h r (n7 ∷ n6 ∷ n5 ∷ n4 ∷ s)
        → Reaches (length held) (decode_four b0 b1 (n7 ∷ n6 ∷ n5 ∷ n4 ∷ s))
        → Yields kept held input
            (decode_four b0 b1 (n7 ∷ n6 ∷ n5 ∷ n4 ∷ s))
            (read_length_four input h r)
    unfolding decode_four read_length_four
    four_present n7 n6 n5 n4 s here reach =
        let field = n7 ∷ n6 ∷ n5 ∷ n4 ∷ [] in
        let (r', got, next) = reads kept held input small 2 h r field s (omega arith) here in
        elim (Bool-cases (n7 == 0 && (n6 == 0 && (n5 == 0 && n4 == 0)))) [
          | inl zeros ↦
              let same : all_zero field ≡ true = all_zero_four n7 n6 n5 n4 ∙ zeros in
              let (out, e, a) =
                read_length_low-Yields kept held input small b0 b1 h d r' s next
                  (rw zeros at reach) in
              rw zeros (out, rw (got, same) e, a)
          | inr long ↦
              let same : all_zero field ≡ false = all_zero_four n7 n6 n5 n4 ∙ long in
              rw long (
                (record (sync h r') { parse_state = ParseState.failed }, 0),
                rw (got, same),
                return-Ended 0 6 ParseState.failed h r' s h.real_payload_len (rw long at reach)
                    next,
              )
        ]

    read_length_four-Yields :
        (s : List ℕ)
        → Here kept held input 2 h r s
        → Reaches (length held) (decode_four b0 b1 s)
        → Yields kept held input (decode_four b0 b1 s) (read_length_four input h r)
    unfolding decode_four
    read_length_four-Yields [] here reach = four_missing [] here (omega arith)
    read_length_four-Yields (n7 ∷ []) here reach = four_missing (n7 ∷ []) here (omega arith)
    read_length_four-Yields (n7 ∷ n6 ∷ []) here reach =
        four_missing (n7 ∷ n6 ∷ []) here (omega arith)
    read_length_four-Yields (n7 ∷ n6 ∷ n5 ∷ []) here reach =
        four_missing (n7 ∷ n6 ∷ n5 ∷ []) here (omega arith)
    read_length_four-Yields (n7 ∷ n6 ∷ n5 ∷ n4 ∷ s) here reach =
        four_present n7 n6 n5 n4 s here reach

    pub read_length-Yields :
        (s : List ℕ)
        → h.payload_len ≡ short_length b1
        → Here kept held input 2 h r s
        → Reaches (length held) (decode_length b0 b1 s)
        → Yields kept held input (decode_length b0 b1 s) (read_length input h r)
    unfolding decode_length read_length
    read_length-Yields s len here reach = elim (length_cases (short_length b1) (omega arith)) [
      | inl none' ↦
          let e0 : (short_length b1 == 0) ≡ true = ground arith in
          let t0 : (h.payload_len == 0) ≡ true = ground arith in
          let t1 : ltb h.payload_len 126 ≡ true = ground arith in
          rw e0 (
            (record (sync h r) { real_payload_len = 0; parse_state = ParseState.complete }, 1),
            rw (t1, t0),
            (
              return-Ended 1 2 ParseState.complete h r s 0 (rw e0 at reach) here,
              record { eof = d.eof; ext = d.ext; op = d.op; masked = d.masked },
            ),
          )
      | inr (inl (pos, short)) ↦
          let e0 : (short_length b1 == 0) ≡ false = ground arith in
          let e1 : ltb (short_length b1) 126 ≡ true = ground arith in
          let t0 : (h.payload_len == 0) ≡ false = ground arith in
          let t1 : ltb h.payload_len 126 ≡ true = ground arith in
          let (out, e, a) =
            read_mask-Yields kept held input small b0 b1 2 (short_length b1)
              (with_length h h.payload_len) (with_length-Describes b0 b1 h h.payload_len d)
              (omega arith) (omega arith) len (omega arith) r s
              (with_length-Here kept held input 2 h r s h.payload_len here)
              (rw (e0, e1) at reach) in
          rw (e0, e1) (out, rw (t1, t0) e, a)
      | inr (inr (inl two)) ↦
          let e0 : (short_length b1 == 0) ≡ false = ground arith in
          let e1 : ltb (short_length b1) 126 ≡ false = ground arith in
          let e2 : (short_length b1 == 126) ≡ true = ground arith in
          let t1 : ltb h.payload_len 126 ≡ false = ground arith in
          let t2 : (h.payload_len == 126) ≡ true = ground arith in
          let (out, e, a) =
            read_length_two-Yields kept held input small b0 b1 h d r s here
              (rw (e0, e1, e2) at reach) in
          rw (e0, e1, e2) (out, rw (t1, t2) e, a)
      | inr (inr (inr four)) ↦
          let e0 : (short_length b1 == 0) ≡ false = ground arith in
          let e1 : ltb (short_length b1) 126 ≡ false = ground arith in
          let e2 : (short_length b1 == 126) ≡ false = ground arith in
          let t1 : ltb h.payload_len 126 ≡ false = ground arith in
          let t2 : (h.payload_len == 126) ≡ false = ground arith in
          let t3 : (h.payload_len == 127) ≡ true = ground arith in
          let (out, e, a) = read_length_four-Yields s here (rw (e0, e1, e2) at reach) in
          rw (e0, e1, e2) (out, rw (t1, t2, t3) e, a)
    ]

  -- From the second byte on, with the first one in the handle.
  second_present :
      (h : WebsocketHandle) (r : Reader) (s : List ℕ)
      → h.is_eof ≡ fin_bit b0
      → h.df_ext ≡ 0
      → h.type ≡ opcode b0
      → Here kept held input 1 h r (b1 ∷ s)
      → Reaches (length held) (decode_length b0 b1 s)
      → Yields kept held input (decode_length b0 b1 s) (read_second input h r)
  unfolding read_second second_byte
  second_present h r s eof ext op here reach =
      let (r', got, next) = reads kept held input small 1 h r (b1 ∷ []) s (omega arith) here in
      let (out, e, a) =
        read_length-Yields (second_byte h b1)
          (record { eof = eof; ext = ext; op = op; masked = refl }) r' s (bit_and_low7 b1)
          (record {
            mid = record {
              parse_state = here.mid.parse_state;
              same_merge = here.mid.same_merge;
              same_endpoint = here.mid.same_endpoint;
              key_size = here.mid.key_size;
            };
            at = next.at;
            rest = next.rest;
          })
          reach in
      (out, rw got e, a)

module _ (kept : Kept) (held input : List ℕ) (small : length held + length input ≤ 2 ^ 31) where
  second_missing :
      (h : WebsocketHandle) (r : Reader)
      → Here kept held input 1 h r []
      → Yields kept held input need_more (read_second input h r)
  unfolding read_second
  second_missing h r here =
      let (r', got, a) =
        stops kept held input small 1 h r 1 [] h (omega arith) (omega arith) here here.mid in
      ((sync h r', 0), rw got, a)

  first_byte-Here :
      (h : WebsocketHandle) (r : Reader) (b0 : ℕ) (s : List ℕ)
      → Here kept held input 1 h r s
      → Here kept held input 1 (first_byte h b0) r s
  unfolding first_byte
  first_byte-Here h r b0 s here = record {
    mid = record {
      parse_state = here.mid.parse_state;
      same_merge = here.mid.same_merge;
      same_endpoint = here.mid.same_endpoint;
      key_size = here.mid.key_size;
    };
    at = here.at;
    rest = here.rest;
  }

  first_byte_fields :
      (h : WebsocketHandle) (b0 : ℕ)
      → ((first_byte h b0).is_eof ≡ fin_bit b0)
        × ((first_byte h b0).df_ext ≡ 0)
        × ((first_byte h b0).type ≡ opcode b0)
  unfolding first_byte
  first_byte_fields h b0 = (refl, bit_and_rsv b0, bit_and_low4 b0)

  -- The whole parse of a stream that is not empty.
  pub read_first-Yields :
      (h : WebsocketHandle) (r : Reader) (b0 : ℕ) (s : List ℕ)
      → Here kept held input 0 h r (b0 ∷ s)
      → Reaches (length held) (decode (b0 ∷ s))
      → Yields kept held input (decode (b0 ∷ s)) (read_first input h r)
  unfolding read_first decode
  read_first-Yields h r b0 [] here reach =
      let (r', got, next) = reads kept held input small 0 h r (b0 ∷ []) [] (omega arith) here in
      let (out, e, a) = second_missing (first_byte h b0) r' (first_byte-Here h r' b0 [] next) in
      (out, rw got e, a)
  read_first-Yields h r b0 (b1 ∷ s) here reach =
      let (r', got, next) =
        reads kept held input small 0 h r (b0 ∷ []) (b1 ∷ s) (omega arith) here in
      let (eof, ext, op) = first_byte_fields h b0 in
      let (out, e, a) =
        second_present kept held input small b0 b1 (first_byte h b0) r' s eof ext op
          (first_byte-Here h r' b0 (b1 ∷ s) next) reach in
      (out, rw got e, a)
