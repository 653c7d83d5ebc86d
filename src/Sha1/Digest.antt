-- ===== src/Sha1/Digest.antt =====
-- The digest that `hash1_final` of src/ws/sha1.cpp leaves against the one of FIPS 180-1.
use a_nother_ws.Prelude.{
  ℕ, suc, ◌+◌, ◌-◌, ◌*◌, ◌/◌, ◌%◌, ◌^◌, ◌≤◌, ◌<◌, ◌≡◌, refl, sym, ap, ap₂, ◌∙◌, subst, List, [],
  ◌∷◌, ◌++◌, length, take, drop, replicate, length-append, length-drop, length-replicate,
  append_assoc, take-all, drop-all, drop-append_le, arith, lt→ltb, le→ltb, le_or_lt, inl, inr,
}
use a_nother_ws.Sha1.{
  Registers, Sha1Context, load_words, chain, hash1_transform, hash1_reset, flush, put,
}
use a_nother_ws.Sha1.Fips.{compress}
use a_nother_ws.Sha1.Rounds.{transform_is_fips}
use a_nother_ws.Sha1.Absorbing.{
  compress_all, compress_all-suc, compress_all-append, Absorbed, put-Absorbed, flush-Absorbed,
  flush_full,
}
use a_nother_ws.Sha1.Final.{
  word_bytes, low_bits, high_bits, pad_to, pad, set_bytes, digest_bytes, hash1_final,
}
use a_nother_ws.Sha1.{hash1_write}
use a_nother_ws.Sha1.Padding.{
  length_field, padding, fips_digest, low_bits_lem, high_bits_lem, pad_to-Absorbed, take-set_bytes,
  length-set_bytes, replicate_add,
}

abbrev pub concat : List (List ℕ) → List ℕ
concat [] = []
concat (xs ∷ rest) = xs ++ concat rest

unfoldable pub write_pieces : Sha1Context → List (List ℕ) → Sha1Context
write_pieces hd [] = hd
write_pieces hd (piece ∷ rest) = write_pieces (hash1_write hd piece) rest

-- The state before the length is written: all of a last block but its length.
pub record Padded (hd : Sha1Context) (msg : List ℕ) : Type 0 where
  pub hashed : ℕ
  pub measured : length msg ≡ hashed * 64 + 56
  pub chained : chain hd ≡ compress_all hashed (chain hash1_reset) msg
  pub kept : take 56 hd.buf ≡ drop (hashed * 64) msg
  pub block : length hd.buf ≡ 64

-- The message with all of its padding but the length.
abbrev pub with_zeros : List ℕ → List ℕ
with_zeros msg = (msg ++ (0x80 ∷ [])) ++ replicate ((119 - length msg % 64) % 64) 0

short-Padded :
    (hd : Sha1Context) (msg : List ℕ)
    → Absorbed hd msg
    → hd.count < 56
    → Padded (pad_to 64 56 (put hd 0x80)) (with_zeros msg)
unfolding put
short-Padded hd msg a short =
    let (b, count) =
      pad_to-Absorbed 64 56 (put hd 0x80) (msg ++ (0x80 ∷ []))
        (put-Absorbed hd msg 0x80 a (omega arith)) (omega arith) (omega arith) (omega arith) in
    let zeros : 56 - (hd.count + 1) ≡ (119 - length msg % 64) % 64 = omega (arith, a.measured) in
    let c =
      subst (λ k. Absorbed (pad_to 64 56 (put hd 0x80)) ((msg ++ (0x80 ∷ [])) ++ replicate k 0))
        zeros b in
    record {
      hashed = c.hashed;
      measured = c.measured ∙ omega (arith, count);
      chained = c.chained;
      kept = ap (λ k. take k (pad_to 64 56 (put hd 0x80)).buf) (sym count) ∙ c.kept;
      block = c.block;
    }

-- A block that is full is hashed, and the next one begins with zeros.
zeros-Padded :
    (hd : Sha1Context) (msg : List ℕ)
    → Absorbed hd msg
    → hd.count ≡ 0
    → Padded (record hd { buf = replicate 56 0 ++ drop 56 hd.buf }) (msg ++ replicate 56 0)
zeros-Padded hd msg a z = record {
  hashed = a.hashed;
  measured = length-append msg (replicate 56 0) ∙ omega (arith, a.measured);
  chained =
      a.chained
      ∙ sym (
          compress_all-append a.hashed (chain hash1_reset) msg (replicate 56 0)
            (omega (arith, a.measured)));
  kept = sym (
      drop-append_le (a.hashed * 64) msg (replicate 56 0) (omega (arith, a.measured))
      ∙ ap (λ l. l ++ replicate 56 0) (drop-all (a.hashed * 64) msg (omega (arith, a.measured))));
  block =
      length-append (replicate 56 0) (drop 56 hd.buf)
      ∙ omega (arith, length-drop 56 hd.buf, a.block);
}

long-Padded :
    (hd : Sha1Context) (msg : List ℕ)
    → Absorbed hd msg
    → 56 ≤ hd.count
    → hd.count < 64
    → let hashed = flush (pad_to 64 64 (put hd 0x80)) in
      Padded (record hashed { buf = replicate 56 0 ++ drop 56 hashed.buf }) (with_zeros msg)
unfolding put
long-Padded hd msg a long room =
    let (b, count) =
      pad_to-Absorbed 64 64 (put hd 0x80) (msg ++ (0x80 ∷ [])) (put-Absorbed hd msg 0x80 a room)
        (omega arith) (omega arith) (omega arith) in
    let full = pad_to 64 64 (put hd 0x80) in
    let filled = (msg ++ (0x80 ∷ [])) ++ replicate (64 - (hd.count + 1)) 0 in
    let zeros : (64 - (hd.count + 1)) + 56 ≡ (119 - length msg % 64) % 64 =
      omega (arith, a.measured) in
    let all : filled ++ replicate 56 0 ≡ with_zeros msg =
      append_assoc (msg ++ (0x80 ∷ [])) (replicate (64 - (hd.count + 1)) 0) (replicate 56 0)
      ∙ ap (λ l. (msg ++ (0x80 ∷ [])) ++ l)
          (replicate_add 0 (64 - (hd.count + 1)) 56 ∙ ap (λ k. replicate k 0) zeros) in
    subst (Padded (record (flush full) { buf = replicate 56 0 ++ drop 56 (flush full).buf })) all (
      zeros-Padded (flush full) filled (flush-Absorbed full filled b).0
        (flush_full full filled b count))

pub pad-Padded :
    (hd : Sha1Context) (msg : List ℕ)
    → Absorbed hd msg
    → hd.count < 64
    → Padded (pad hd) (with_zeros msg)
unfolding pad
pad-Padded hd msg a room = elim (le_or_lt 56 hd.count) [
  | inl long ↦ rw (pad, le→ltb hd.count 56 long) (long-Padded hd msg a long room)
  | inr short ↦ rw (pad, lt→ltb hd.count 56 short) (short-Padded hd msg a short)
]

-- The last block, with the length behind the padding.
last_block :
    (hd : Sha1Context) (msg field : List ℕ)
    → Padded hd msg
    → length field ≡ 8
    → (n : ℕ) → n ≡ (length msg + 8) / 64
    → let buf = set_bytes hd.buf 56 field in
      chain (hash1_transform (record hd { buf = buf }) buf)
      ≡ compress_all n (chain hash1_reset) (msg ++ field)
last_block hd msg field p eight n e =
    let buf = set_bytes hd.buf 56 field in
    let size : length buf ≡ 64 = length-set_bytes hd.buf field 56 ∙ p.block in
    let whole : n ≡ suc p.hashed = omega (arith, e, p.measured) in
    let fits : p.hashed * 64 ≤ length msg = omega (arith, p.measured) in
    let bytes : buf ≡ drop (p.hashed * 64) (msg ++ field) =
      sym (take-all 64 buf (omega (arith, size)))
      ∙ take-set_bytes hd.buf field 56 64 (omega (arith, eight)) (omega (arith, p.block))
      ∙ ap (λ l. l ++ field) p.kept
      ∙ sym (drop-append_le (p.hashed * 64) msg field fits) in
    let here : buf ≡ take 64 (drop (p.hashed * 64) (msg ++ field)) =
      sym (take-all 64 buf (omega (arith, size))) ∙ ap (take 64) bytes in
    (transform_is_fips (record hd { buf = buf }) buf).0
    ∙ ap₂ (λ r b. compress r (load_words 16 b))
        (p.chained ∙ sym (compress_all-append p.hashed (chain hash1_reset) msg field fits)) here
    ∙ sym (compress_all-suc p.hashed (chain hash1_reset) (msg ++ field))
    ∙ ap (λ k. compress_all k (chain hash1_reset) (msg ++ field)) (sym whole)

length-word_bytes : (hi lo : ℕ) → length (word_bytes hi ++ word_bytes lo) ≡ 8
unfolding word_bytes
length-word_bytes hi lo = refl

pub length-digest_bytes : (r : Registers) → length (digest_bytes r) ≡ 20
unfolding digest_bytes word_bytes
length-digest_bytes r = refl

-- The bytes that say how long the message is.
field_lem :
    (hd : Sha1Context) (msg : List ℕ)
    → Absorbed hd msg
    → hd.count < 64
    → length msg < 2 ^ 38
    → word_bytes (high_bits hd.nblocks hd.count) ++ word_bytes (low_bits hd.nblocks hd.count)
      ≡ length_field (length msg)
unfolding length_field
field_lem hd msg a room small =
    let word : a.hashed < 2 ^ 32 = omega (arith, a.measured) in
    let exact : hd.nblocks ≡ a.hashed = a.counted ∙ omega arith in
    let bits : (hd.nblocks * 64 + hd.count) * 8 ≡ length msg * 8 =
      omega (arith, exact, a.measured) in
    ap₂ (λ h l. word_bytes h ++ word_bytes l)
      (high_bits_lem hd.nblocks hd.count (omega (arith, exact)) room ∙ ap (λ k. k / 2 ^ 32) bits)
      (low_bits_lem hd.nblocks hd.count (omega (arith, exact)) room ∙ ap (λ k. k % 2 ^ 32) bits)

-- A state that stands for the bytes `msg`, fewer than 2 ^ 38, has after `hash1_final` the digest of
-- FIPS 180-1 in the first 20 bytes of its buffer: the message is padded with `0x80`, zeros and its
-- length in bits, in one block or in two, and all blocks are hashed in order.
pub hash1_final_is_fips :
    (hd : Sha1Context) (msg : List ℕ)
    → Absorbed hd msg
    → length msg < 2 ^ 38
    → take 20 (hash1_final hd).buf ≡ fips_digest msg
unfolding hash1_final fips_digest padding
hash1_final_is_fips hd msg a small =
    let (fresh, room) = flush-Absorbed hd msg a in
    let field =
      word_bytes (high_bits (flush hd).nblocks (flush hd).count)
      ++ word_bytes (low_bits (flush hd).nblocks (flush hd).count) in
    let padded = pad (flush hd) in
    let buf = set_bytes padded.buf 56 field in
    let last = record padded { buf = buf } in
    let p = pad-Padded (flush hd) msg fresh room in
    let blocks : (length msg + 8) / 64 + 1 ≡ (length (with_zeros msg) + 8) / 64 = omega (
      arith,
      length-append (msg ++ (0x80 ∷ [])) (replicate ((119 - length msg % 64) % 64) 0),
      length-append msg (0x80 ∷ []),
      length-replicate {A = ℕ} ((119 - length msg % 64) % 64) 0,
    ) in
    let all : with_zeros msg ++ field ≡ msg ++ padding (length msg) =
      append_assoc (msg ++ (0x80 ∷ [])) (replicate ((119 - length msg % 64) % 64) 0) field
      ∙ append_assoc msg (0x80 ∷ []) (replicate ((119 - length msg % 64) % 64) 0 ++ field)
      ∙ ap (λ f. msg ++ (0x80 ∷ (replicate ((119 - length msg % 64) % 64) 0 ++ f)))
          (field_lem (flush hd) msg fresh room small) in
    let hashed : chain (hash1_transform last buf)
        ≡ compress_all ((length msg + 8) / 64 + 1) (chain hash1_reset)
            (msg ++ padding (length msg)) =
      last_block padded (with_zeros msg) field p
        (length-word_bytes (high_bits (flush hd).nblocks (flush hd).count)
          (low_bits (flush hd).nblocks (flush hd).count))
        ((length msg + 8) / 64 + 1) blocks
      ∙ ap (compress_all ((length msg + 8) / 64 + 1) (chain hash1_reset)) all in
    let same_buf = (transform_is_fips last buf).1 in
    take-set_bytes (hash1_transform last buf).buf (digest_bytes (chain (hash1_transform last buf)))
      0 20 (ap (λ k. 0 + k) (length-digest_bytes (chain (hash1_transform last buf))))
      (omega (arith, ap length same_buf, length-set_bytes padded.buf field 56, p.block))
    ∙ ap digest_bytes hashed
