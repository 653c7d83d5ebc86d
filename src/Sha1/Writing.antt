-- ===== src/Sha1/Writing.antt =====
-- `hash1_write` of src/ws/sha1.cpp: the bytes that it is given are added to those before them.
use a_nother_ws.Prelude.{
  ℕ, zero, suc, ◌+◌, ◌*◌, ◌≤◌, ◌<◌, ◌≡◌, refl, sym, ap, ◌∙◌, subst, List, [], ◌∷◌, ◌++◌, length,
  take, drop, length-append, length-take, length-drop, append-nil, append_assoc, take-append-drop,
  take-take, drop-all, drop-append_le, arith, lt→ltb, le→ltb, lt→leb, le→leb, le_or_lt, inl, inr,
  ◌⊎◌, ◌==◌, if◌then◌else◌,
}
use a_nother_ws.Sha1.{
  Sha1Context, chain, hash1_reset, hash_block, flush, put, fill, hash_blocks, write_rest,
  hash1_write,
}
use a_nother_ws.Sha1.Absorbing.{
  compress_all, Absorbed, compress_all-append, put-Absorbed, hash_block-Absorbed, hash_block_count,
  flush-Absorbed, flush_full, equal_words, unequal_zero,
}

-- Some of the bytes are taken in, and the others are left.
record Takes (msg bytes : List ℕ) (hd : Sha1Context) (rest : List ℕ) : Type 0 where
  eaten : List ℕ
  absorbed : Absorbed hd (msg ++ eaten)
  split : eaten ++ rest ≡ bytes

Takes-none : (msg bytes : List ℕ) (hd : Sha1Context) → Absorbed hd msg → Takes msg bytes hd bytes
Takes-none msg bytes hd a = record {
  eaten = [];
  absorbed = subst (Absorbed hd) (sym (append-nil msg)) a;
  split = refl;
}

Takes-more :
    (msg first bytes rest : List ℕ) (hd : Sha1Context)
    → Takes (msg ++ first) bytes hd rest
    → Takes msg (first ++ bytes) hd rest
Takes-more msg first bytes rest hd t = record {
  eaten = first ++ t.eaten;
  absorbed = subst (Absorbed hd) (append_assoc msg first t.eaten) t.absorbed;
  split = append_assoc first t.eaten rest ∙ ap (λ l. first ++ l) t.split;
}

put_size : (hd : Sha1Context) (b n : ℕ) → (put hd b).count + n ≡ hd.count + suc n
unfolding put
put_size hd b n = omega arith

fill-Takes :
    (hd : Sha1Context) (msg bytes : List ℕ)
    → Absorbed hd msg
    → Takes msg bytes (fill hd bytes).0 (fill hd bytes).1
      × (((fill hd bytes).1 ≡ []) ⊎ ((fill hd bytes).0.count ≡ 64))
      × ((fill hd bytes).0.count + length (fill hd bytes).1 ≡ hd.count + length bytes)
unfolding fill
fill-Takes hd msg [] a = (Takes-none msg [] hd a, inl refl, refl)
fill-Takes hd msg (b ∷ bytes) a = elim (le_or_lt 64 hd.count) [
  | inl full ↦
      rw (fill, le→ltb hd.count 64 full)
        (Takes-none msg (b ∷ bytes) hd a, inr (omega (arith, a.fits)), refl)
  | inr room ↦
      let (takes, stop, size) =
        fill-Takes (put hd b) (msg ++ (b ∷ [])) bytes (put-Absorbed hd msg b a room) in
      rw (fill, lt→ltb hd.count 64 room)
        (
          Takes-more msg (b ∷ []) bytes (fill (put hd b) bytes).1 (fill (put hd b) bytes).0 takes,
          stop,
          size ∙ put_size hd b (length bytes),
        )
]

next_block-Absorbed :
    (hd : Sha1Context) (msg bytes : List ℕ)
    → hd.count ≡ 0
    → 64 ≤ length bytes
    → Absorbed hd msg
    → Absorbed (hash_block hd (take 64 bytes)) (msg ++ take 64 bytes)
next_block-Absorbed hd msg bytes z whole a =
    let block = take 64 bytes in
    let there : a.hashed * 64 ≡ length msg = omega (arith, a.measured, z) in
    hash_block-Absorbed hd (msg ++ block) block a.hashed a.block a.not_final a.counted
      (a.chained
        ∙ sym (compress_all-append a.hashed (chain hash1_reset) msg block (omega (arith, there))))
      (omega (arith, length-append msg block, length-take 64 bytes, there))
      (ap (take 64) (
          drop-append_le (a.hashed * 64) msg block (omega (arith, there))
          ∙ ap (λ l. l ++ block) (drop-all (a.hashed * 64) msg (omega (arith, there))))
        ∙ take-take 64 64 bytes (omega arith))

hash_blocks-Takes :
    (n : ℕ) (hd : Sha1Context) (msg bytes : List ℕ)
    → length bytes ≤ n
    → hd.count ≡ 0
    → Absorbed hd msg
    → Takes msg bytes (hash_blocks n hd bytes).0 (hash_blocks n hd bytes).1
      × ((hash_blocks n hd bytes).0.count ≡ 0)
      × (length (hash_blocks n hd bytes).1 < 64)
unfolding hash_blocks
hash_blocks-Takes zero hd msg [] h z a = (Takes-none msg [] hd a, z, omega arith)
hash_blocks-Takes zero hd msg (b ∷ bytes) h z a = absurd (omega arith)
hash_blocks-Takes (suc n) hd msg bytes h z a = elim (le_or_lt 64 (length bytes)) [
  | inl whole ↦
      let (takes, empty, short) =
        hash_blocks-Takes n (hash_block hd (take 64 bytes)) (msg ++ take 64 bytes) (drop 64 bytes)
          (omega (arith, length-drop 64 bytes)) (hash_block_count hd (take 64 bytes))
          (next_block-Absorbed hd msg bytes z whole a) in
      rw (hash_blocks, le→leb 64 (length bytes) whole)
        (
          subst
              (λ l.
                Takes msg l (hash_blocks n (hash_block hd (take 64 bytes)) (drop 64 bytes)).0
                  (hash_blocks n (hash_block hd (take 64 bytes)) (drop 64 bytes)).1)
              (take-append-drop 64 bytes)
              (Takes-more msg (take 64 bytes) (drop 64 bytes)
                (hash_blocks n (hash_block hd (take 64 bytes)) (drop 64 bytes)).1
                (hash_blocks n (hash_block hd (take 64 bytes)) (drop 64 bytes)).0 takes),
          empty,
          short,
        )
  | inr short ↦
      rw (hash_blocks, lt→leb 64 (length bytes) short) (Takes-none msg bytes hd a, z, short)
]

length_zero : (xs : List ℕ) → length xs ≡ 0 → xs ≡ []
length_zero [] e = refl
length_zero (x ∷ xs) e = absurd (omega arith)

write_rest-Absorbed :
    (hd : Sha1Context) (msg bytes : List ℕ)
    → hd.count ≡ 0
    → Absorbed hd msg
    → Absorbed (write_rest hd bytes) (msg ++ bytes) × ((write_rest hd bytes).count < 64)
unfolding write_rest
write_rest-Absorbed hd msg bytes z a =
    let (takes, empty, short) = hash_blocks-Takes (length bytes) hd msg bytes (omega arith) z a in
    let hashed = (hash_blocks (length bytes) hd bytes).0 in
    let rest = (hash_blocks (length bytes) hd bytes).1 in
    let (fills, stop, size) = fill-Takes hashed (msg ++ takes.eaten) rest takes.absorbed in
    let none_left : (fill hashed rest).1 ≡ [] = elim stop [
      | inl e ↦ e
      | inr e ↦ length_zero (fill hashed rest).1 (omega (arith, e, size, empty, short))
    ] in
    let all : (msg ++ takes.eaten) ++ fills.eaten ≡ msg ++ bytes =
      append_assoc msg takes.eaten fills.eaten
      ∙ ap (λ l. msg ++ (takes.eaten ++ l))
          (sym (append-nil fills.eaten) ∙ ap (λ l. fills.eaten ++ l) (sym none_left) ∙ fills.split)
      ∙ ap (λ l. msg ++ l) takes.split in
    (
      subst (Absorbed (fill hashed rest).0) all fills.absorbed,
      omega (arith, size, ap length none_left, empty, short),
    )

-- The state before any byte.
pub reset-Absorbed : Absorbed hash1_reset []
unfolding compress_all
reset-Absorbed = record {
  hashed = 0;
  measured = refl;
  chained = refl;
  kept = refl;
  counted = refl;
  fits = omega arith;
  block = refl;
  not_final = refl;
}

-- What a write does when the buffer holds some bytes.
after_fill :
    (hd : Sha1Context) (msg bytes : List ℕ)
    → Absorbed hd msg
    → let filled = (fill hd bytes).0 in
      let rest = (fill hd bytes).1 in
      let out = if length rest == 0 then flush filled else write_rest (flush filled) rest in
      Absorbed out (msg ++ bytes) × (out.count < 64)
after_fill hd msg bytes a =
    let filled = (fill hd bytes).0 in
    let rest = (fill hd bytes).1 in
    let (takes, stop, size) = fill-Takes hd msg bytes a in
    let (flushed, room) = flush-Absorbed filled (msg ++ takes.eaten) takes.absorbed in
    elim (le_or_lt (length rest) 0) [
      | inl none ↦
          let z : length rest ≡ 0 = omega arith in
          let all : takes.eaten ≡ bytes =
            sym (append-nil takes.eaten)
            ∙ ap (λ l. takes.eaten ++ l) (sym (length_zero rest z))
            ∙ takes.split in
          rw (equal_words (length rest) 0 z)
            (subst (λ l. Absorbed (flush filled) (msg ++ l)) all flushed, room)
      | inr some ↦
          let full : filled.count ≡ 64 = elim stop [
            | inl e ↦ absurd (omega (arith, ap length e))
            | inr e ↦ e
          ] in
          let empty = flush_full filled (msg ++ takes.eaten) takes.absorbed full in
          let (written, small) =
            write_rest-Absorbed (flush filled) (msg ++ takes.eaten) rest empty flushed in
          let all : (msg ++ takes.eaten) ++ rest ≡ msg ++ bytes =
            append_assoc msg takes.eaten rest ∙ ap (λ l. msg ++ l) takes.split in
          rw (unequal_zero (length rest) some)
            (subst (Absorbed (write_rest (flush filled) rest)) all written, small)
    ]

-- A state that stands for the bytes `msg` stands after a write for those bytes and the written
-- ones: the whole blocks are hashed in order, each once, and the others are in the buffer, which
-- then holds fewer than 64, so that no write goes beyond it. The bytes are any number, none
-- included, and the buffer may be full before.
pub hash1_write-Absorbed :
    (hd : Sha1Context) (msg bytes : List ℕ)
    → Absorbed hd msg
    → Absorbed (hash1_write hd bytes) (msg ++ bytes) × ((hash1_write hd bytes).count < 64)
unfolding hash1_write
hash1_write-Absorbed hd msg bytes a =
    let (fresh, room) = flush-Absorbed hd msg a in
    elim (le_or_lt (flush hd).count 0) [
      | inl none ↦
          let z : (flush hd).count ≡ 0 = omega arith in
          rw (equal_words (flush hd).count 0 z) (write_rest-Absorbed (flush hd) msg bytes z fresh)
      | inr some ↦ rw (unequal_zero (flush hd).count some) (after_fill (flush hd) msg bytes fresh)
    ]
