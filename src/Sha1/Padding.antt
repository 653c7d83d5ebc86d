-- ===== src/Sha1/Padding.antt =====
-- `hash1_final` of src/ws/sha1.cpp against the padding of FIPS 180-1.
use a_nother_ws.Prelude.{
  ℕ, zero, suc, ◌+◌, ◌-◌, ◌*◌, ◌/◌, ◌%◌, ◌^◌, ◌≤◌, ◌<◌, ◌≡◌, refl, sym, ap, ◌∙◌, subst, List, [],
  ◌∷◌, ◌++◌, length, take, replicate, append-nil, append_assoc, arith, lt→ltb, le→ltb, le_or_lt,
  inl, inr,
}
use a_nother_ws.Prelude.Word.{u32, ◌<<<◌, ◌>>>◌}
use a_nother_ws.Prelude.Bits.{bit_or_low3}
use a_nother_ws.Sha1.{Sha1Context, set_at, chain, hash1_reset, put}
use a_nother_ws.Sha1.Schedule.{length-set_at}
use a_nother_ws.Sha1.Absorbing.{compress_all, Absorbed, put-Absorbed, take-set_at}
use a_nother_ws.Sha1.Final.{
  word_bytes, byte_count, low_bits, high_bits, pad_to, set_bytes, digest_bytes,
}

-- The length of a message in bits, as two words.
unfoldable pub length_field : ℕ → List ℕ
length_field n = word_bytes (n * 8 / 2 ^ 32) ++ word_bytes (n * 8 % 2 ^ 32)

-- The byte `0x80`, zeros up to eight bytes before the end of a block, and the length.
unfoldable pub padding : ℕ → List ℕ
padding n = 0x80 ∷ (replicate ((119 - n % 64) % 64) 0 ++ length_field n)

unfoldable pub fips_digest : List ℕ → List ℕ
fips_digest msg =
    digest_bytes
      (compress_all ((length msg + 8) / 64 + 1) (chain hash1_reset) (msg ++ padding (length msg)))

pub low_bits_lem : (n c : ℕ) → n < 2 ^ 32 → c < 64 → low_bits n c ≡ (n * 64 + c) * 8 % 2 ^ 32
unfolding low_bits byte_count
low_bits_lem n c h k = omega arith

pub high_bits_lem : (n c : ℕ) → n < 2 ^ 32 → c < 64 → high_bits n c ≡ (n * 64 + c) * 8 / 2 ^ 32
unfolding high_bits byte_count
high_bits_lem n c h k =
    let all : u32 (u32 (n <<< 6) + c) ≡ u32 (n <<< 6) + c = omega arith in
    let high : u32 ((n >>> 26) <<< 3) ≡ (n >>> 26) * 8 = omega arith in
    rw (all, le→ltb (u32 (n <<< 6) + c) (u32 (n <<< 6)) (omega arith), high)
      (bit_or_low3 (n >>> 26) ((u32 (n <<< 6) + c) >>> 29) (omega arith) ∙ omega arith)

at_limit :
    (hd : Sha1Context) (msg : List ℕ) (n : ℕ)
    → Absorbed hd msg
    → n ≡ 0
    → Absorbed hd (msg ++ replicate n 0)
at_limit hd msg n a e =
    subst (Absorbed hd) (sym (ap (λ k. msg ++ replicate k 0) e ∙ append-nil msg)) a

pub pad_to-Absorbed :
    (fuel limit : ℕ) (hd : Sha1Context) (msg : List ℕ)
    → Absorbed hd msg
    → hd.count ≤ limit
    → limit ≤ 64
    → limit - hd.count ≤ fuel
    → Absorbed (pad_to fuel limit hd) (msg ++ replicate (limit - hd.count) 0)
      × ((pad_to fuel limit hd).count ≡ limit)
unfolding pad_to put
pad_to-Absorbed zero limit hd msg a h k f =
    (at_limit hd msg (limit - hd.count) a (omega arith), omega arith)
pad_to-Absorbed (suc fuel) limit hd msg a h k f = elim (le_or_lt limit hd.count) [
  | inl done ↦
      rw (pad_to, le→ltb hd.count limit done)
        (at_limit hd msg (limit - hd.count) a (omega arith), omega arith)
  | inr more ↦
      let (padded, count) =
        pad_to-Absorbed fuel limit (put hd 0) (msg ++ (0 ∷ []))
          (put-Absorbed hd msg 0 a (omega arith)) (omega arith) k (omega arith) in
      let zeros : suc (limit - (hd.count + 1)) ≡ limit - hd.count = omega arith in
      rw (pad_to, lt→ltb hd.count limit more)
        (
          subst (Absorbed (pad_to fuel limit (put hd 0)))
              (append_assoc msg (0 ∷ []) (replicate (limit - (hd.count + 1)) 0)
                ∙ ap (λ k. msg ++ replicate k 0) zeros)
              padded,
          count,
        )
]

pub take-set_bytes :
    (buf bytes : List ℕ) (i n : ℕ)
    → i + length bytes ≡ n
    → n ≤ length buf
    → take n (set_bytes buf i bytes) ≡ take i buf ++ bytes
unfolding set_bytes
take-set_bytes buf [] i n e h = ap (λ k. take k buf) (omega arith) ∙ sym (append-nil (take i buf))
take-set_bytes buf (b ∷ bytes) i n e h =
    take-set_bytes (set_at buf i b) bytes (suc i) n (omega arith)
      (omega (arith, length-set_at buf i b))
    ∙ ap (λ l. l ++ bytes) (take-set_at buf i b (omega arith))
    ∙ append_assoc (take i buf) (b ∷ []) bytes

pub length-set_bytes : (buf bytes : List ℕ) (i : ℕ) → length (set_bytes buf i bytes) ≡ length buf
unfolding set_bytes
length-set_bytes buf [] i = refl
length-set_bytes buf (b ∷ bytes) i =
    length-set_bytes (set_at buf i b) bytes (suc i) ∙ length-set_at buf i b

pub replicate_add : (a m n : ℕ) → replicate m a ++ replicate n a ≡ replicate (m + n) a
replicate_add a zero n = ap (λ k. replicate k a) (omega arith)
replicate_add a (suc m) n =
    let next : suc (m + n) ≡ suc m + n = omega arith in
    ap (λ l. a ∷ l) (replicate_add a m n) ∙ ap (λ k. replicate k a) next
