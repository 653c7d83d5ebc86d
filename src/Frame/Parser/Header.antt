-- ===== src/Frame/Parser/Header.antt =====
-- The reads of a header: the key and the longer length fields.
use a_nother_ws.Prelude.{
  ℕ, ◌+◌, ◌^◌, ◌≤◌, ◌<◌, ◌≡◌, ◌∙◌, ap, sym, subst, List, [], ◌∷◌, ◌++◌, inl, inr, true, false,
  arith, length, drop, length-append, length-drop, drop-all, append-nil, ◌==◌, Bool-cases,
}
use a_nother_ws.Frame.Handle.{WebsocketHandle}
use a_nother_ws.Frame.Reader.{Reader}
use a_nother_ws.Frame.Decode.{
  need_more, mask_bit, decode_payload, decode_masked, decode_key, decode_mask,
}
use a_nother_ws.Frame.Parser.{sync, with_key, read_mask}
use a_nother_ws.Frame.Parser.Stages.{
  Kept, Describes, Agrees, Reaches, Yields, Midway, Here, reads, stops,
}
use a_nother_ws.Frame.Parser.Payload.{payload_outcome, read_payload-Yields}

-- The outcomes of the two ways to a payload, as the parser tells them apart.
plain_outcome :
    (b0 b1 header_len n : ℕ) (h : WebsocketHandle) (s : List ℕ)
    → h.has_mask ≡ mask_bit b1
    → (h.has_mask == 0) ≡ true
    → decode_mask b0 b1 header_len n s ≡ payload_outcome b0 b1 header_len n h s
unfolding decode_mask decode_payload
plain_outcome b0 b1 header_len n h s e plain =
    let same : (mask_bit b1 == 0) ≡ true = ap (λ k. k == 0) (sym e) ∙ plain in rw (same, plain)

key_outcome :
    (b0 b1 header_len n : ℕ) (h : WebsocketHandle) (s : List ℕ)
    → h.has_mask ≡ mask_bit b1
    → (h.has_mask == 0) ≡ false
    → decode_mask b0 b1 header_len n s ≡ decode_key b0 b1 header_len n s
unfolding decode_mask
key_outcome b0 b1 header_len n h s e masked =
    let same : (mask_bit b1 == 0) ≡ false = ap (λ k. k == 0) (sym e) ∙ masked in rw same

masked_outcome :
    (b0 b1 header_len n : ℕ) (h : WebsocketHandle) (s : List ℕ)
    → (h.has_mask == 0) ≡ false
    → decode_masked b0 b1 header_len n h.mask s ≡ payload_outcome b0 b1 header_len n h s
unfolding decode_masked
masked_outcome b0 b1 header_len n h s masked = rw masked

with_key-Midway :
    (kept : Kept) (h : WebsocketHandle) (key : List ℕ)
    → length key ≤ 4
    → Midway kept h
    → Midway kept (with_key h key)
with_key-Midway kept h key few m = record {
  parse_state = m.parse_state;
  same_merge = m.same_merge;
  same_endpoint = m.same_endpoint;
  key_size = omega (
    arith,
    length-append key (drop (length key) h.mask),
    length-drop (length key) h.mask,
    m.key_size,
  );
}

module _ (kept : Kept) (held input : List ℕ) (small : length held + length input ≤ 2 ^ 31)
    (b0 b1 : ℕ) where
  module _ (header_len n : ℕ) (h : WebsocketHandle) (d : Describes b0 b1 h) (pos : 0 < header_len)
      (word : header_len < 2 ^ 32) (len : h.real_payload_len ≡ n) (fit : n < 2 ^ 32)
      (r : Reader) where
    key_missing :
        (s : List ℕ)
        → Here kept held input header_len h r s
        → (h.has_mask == 0) ≡ false
        → length s < 4
        → Yields kept held input need_more (read_mask input h r header_len)
    unfolding read_mask
    key_missing s here masked lack =
        let (r', got, a) =
          stops kept held input small header_len h r 4 s (with_key h s) lack (omega arith) here
            (with_key-Midway kept h s (omega arith) here.mid) in
        ((sync (with_key h s) r', 0), rw (masked, got), a)

    key_present :
        (k0 k1 k2 k3 : ℕ) (s : List ℕ)
        → Here kept held input header_len h r (k0 ∷ k1 ∷ k2 ∷ k3 ∷ s)
        → (h.has_mask == 0) ≡ false
        → Reaches (length held) (decode_masked b0 b1 (header_len + 4) n (k0 ∷ k1 ∷ k2 ∷ k3 ∷ []) s)
        → Yields kept held input
            (decode_masked b0 b1 (header_len + 4) n (k0 ∷ k1 ∷ k2 ∷ k3 ∷ []) s)
            (read_mask input h r header_len)
    unfolding read_mask decode_masked
    key_present k0 k1 k2 k3 s here masked reach =
        let key = k0 ∷ k1 ∷ k2 ∷ k3 ∷ [] in
        let (r', got, next) = reads kept held input small header_len h r key s (omega arith) here in
        let keyed : (with_key h key).mask ≡ key =
          ap (λ l. key ++ l) (drop-all 4 h.mask (omega (arith, here.mid.key_size)))
          ∙ append-nil key in
        let same : decode_masked b0 b1 (header_len + 4) n key s
            ≡ payload_outcome b0 b1 (header_len + 4) n (with_key h key)
                (drop (header_len + 4) (held ++ input)) =
          ap (λ k. decode_masked b0 b1 (header_len + 4) n k s) (sym keyed)
          ∙ masked_outcome b0 b1 (header_len + 4) n (with_key h key) s masked
          ∙ ap (payload_outcome b0 b1 (header_len + 4) n (with_key h key)) (sym next.rest) in
        let (out, e, a) =
          read_payload-Yields kept held input b0 b1 (header_len + 4) n (with_key h key)
            (with_key-Midway kept h key (omega arith) here.mid)
            (record { eof = d.eof; ext = d.ext; op = d.op; masked = d.masked }) (omega arith)
            (omega arith) r' small len fit next.at (subst (Reaches (length held)) same reach) in
        (out, rw (masked, got) e, subst (λ o. Agrees kept held input o out) (sym same) a)

    -- The code from the read of the key on, for each rest of the stream.
    by_key :
        (s : List ℕ)
        → Here kept held input header_len h r s
        → (h.has_mask == 0) ≡ false
        → Reaches (length held) (decode_key b0 b1 header_len n s)
        → Yields kept held input (decode_key b0 b1 header_len n s) (read_mask input h r header_len)
    unfolding decode_key
    by_key [] here masked reach = key_missing [] here masked (omega arith)
    by_key (k0 ∷ []) here masked reach = key_missing (k0 ∷ []) here masked (omega arith)
    by_key (k0 ∷ k1 ∷ []) here masked reach = key_missing (k0 ∷ k1 ∷ []) here masked (omega arith)
    by_key (k0 ∷ k1 ∷ k2 ∷ []) here masked reach =
        key_missing (k0 ∷ k1 ∷ k2 ∷ []) here masked (omega arith)
    by_key (k0 ∷ k1 ∷ k2 ∷ k3 ∷ s) here masked reach = key_present k0 k1 k2 k3 s here masked reach

    unkeyed :
        (s : List ℕ)
        → Here kept held input header_len h r s
        → (h.has_mask == 0) ≡ true
        → Reaches (length held) (payload_outcome b0 b1 header_len n h s)
        → Yields kept held input
            (payload_outcome b0 b1 header_len n h s)
            (read_mask input h r header_len)
    unfolding read_mask
    unkeyed s here plain reach =
        let same = ap (payload_outcome b0 b1 header_len n h) (sym here.rest) in
        let (out, e, a) =
          read_payload-Yields kept held input b0 b1 header_len n h here.mid d pos (omega arith) r
            small len fit here.at (subst (Reaches (length held)) same reach) in
        (out, rw plain e, subst (λ o. Agrees kept held input o out) (sym same) a)

    pub read_mask-Yields :
        (s : List ℕ)
        → Here kept held input header_len h r s
        → Reaches (length held) (decode_mask b0 b1 header_len n s)
        → Yields kept held input (decode_mask b0 b1 header_len n s) (read_mask input h r header_len)
    read_mask-Yields s here reach = elim (Bool-cases (h.has_mask == 0)) [
      | inl plain ↦
          let same = plain_outcome b0 b1 header_len n h s d.masked plain in
          subst (λ o. Yields kept held input o (read_mask input h r header_len)) (sym same)
            (unkeyed s here plain (subst (Reaches (length held)) same reach))
      | inr masked ↦
          let same = key_outcome b0 b1 header_len n h s d.masked masked in
          subst (λ o. Yields kept held input o (read_mask input h r header_len)) (sym same)
            (by_key s here masked (subst (Reaches (length held)) same reach))
    ]
