-- ===== src/Sha1/Absorbing.antt =====
-- What the state of src/ws/sha1.cpp stands for while it is written to: the bytes so far, of which
-- the whole blocks are hashed and the others are in the buffer.
use a_nother_ws.Prelude.{
  ℕ, zero, suc, ◌+◌, ◌*◌, ◌≤◌, ◌<◌, ◌≡◌, refl, sym, ap, ap₂, ◌∙◌, subst, true, false, List, [], ◌∷◌,
  ◌++◌, length, take, drop, length-append, length-drop, take-take, take-all, drop-all,
  take-append_le, drop-append_le, drop-drop, arith, le_or_lt, inl, inr, ◌==◌,
}
use a_nother_ws.Prelude.Word.{u32}
use a_nother_ws.Sha1.{
  Registers, Sha1Context, set_at, load_words, chain, hash1_reset, hash_block, flush, put,
}
use a_nother_ws.Sha1.Fips.{compress}
use a_nother_ws.Sha1.Schedule.{length-set_at}
use a_nother_ws.Sha1.Rounds.{transform_is_fips}

-- The first `n` blocks of 64 bytes, hashed one after the other.
unfoldable pub compress_all : ℕ → Registers → List ℕ → Registers
compress_all zero r msg = r
compress_all (suc n) r msg = compress_all n (compress r (load_words 16 (take 64 msg))) (drop 64 msg)

-- The state after the bytes `msg`.
pub record Absorbed (hd : Sha1Context) (msg : List ℕ) : Type 0 where
  pub hashed : ℕ
  pub measured : length msg ≡ hashed * 64 + hd.count
  pub chained : chain hd ≡ compress_all hashed (chain hash1_reset) msg
  pub kept : take hd.count hd.buf ≡ drop (hashed * 64) msg
  pub counted : hd.nblocks ≡ u32 hashed
  pub fits : hd.count ≤ 64
  pub block : length hd.buf ≡ 64
  pub not_final : hd.is_final ≡ false

-- One block more.
pub compress_all-suc :
    (n : ℕ) (r : Registers) (msg : List ℕ)
    → compress_all (suc n) r msg
      ≡ compress (compress_all n r msg) (load_words 16 (take 64 (drop (n * 64) msg)))
unfolding compress_all
compress_all-suc zero r msg = refl
compress_all-suc (suc n) r msg =
    let there : 64 + n * 64 ≡ suc n * 64 = omega arith in
    compress_all-suc n (compress r (load_words 16 (take 64 msg))) (drop 64 msg)
    ∙ ap
        (λ l.
          compress (compress_all n (compress r (load_words 16 (take 64 msg))) (drop 64 msg))
            (load_words 16 (take 64 l)))
        (drop-drop (n * 64) 64 msg ∙ ap (λ k. drop k msg) there)

-- Bytes behind the blocks do not matter.
pub compress_all-append :
    (n : ℕ) (r : Registers) (msg more : List ℕ)
    → n * 64 ≤ length msg
    → compress_all n r (msg ++ more) ≡ compress_all n r msg
unfolding compress_all
compress_all-append zero r msg more h = refl
compress_all-append (suc n) r msg more h =
    ap₂ (λ b l. compress_all n (compress r (load_words 16 b)) l)
      (take-append_le 64 msg more (omega arith)) (drop-append_le 64 msg more (omega arith))
    ∙ compress_all-append n (compress r (load_words 16 (take 64 msg))) (drop 64 msg) more
        (omega (arith, length-drop 64 msg))

pub take-set_at :
    (xs : List ℕ) (n v : ℕ) → n < length xs → take (suc n) (set_at xs n v) ≡ take n xs ++ (v ∷ [])
take-set_at [] n v h = absurd (omega arith)
take-set_at (x ∷ xs) zero v h = refl
take-set_at (x ∷ xs) (suc n) v h = ap (λ l. x ∷ l) (take-set_at xs n v (omega arith))

pub put-Absorbed :
    (hd : Sha1Context) (msg : List ℕ) (b : ℕ)
    → Absorbed hd msg
    → hd.count < 64
    → Absorbed (put hd b) (msg ++ (b ∷ []))
unfolding put
put-Absorbed hd msg b a h = record {
  hashed = a.hashed;
  measured = omega (arith, length-append msg (b ∷ []), a.measured);
  chained =
      a.chained
      ∙ sym (
          compress_all-append a.hashed (chain hash1_reset) msg (b ∷ [])
            (omega (arith, a.measured)));
  kept =
      let next : hd.count + 1 ≡ suc hd.count = omega arith in
      ap (λ k. take k (set_at hd.buf hd.count b)) next
      ∙ take-set_at hd.buf hd.count b (omega (arith, a.block))
      ∙ ap (λ l. l ++ (b ∷ [])) a.kept
      ∙ sym (drop-append_le (a.hashed * 64) msg (b ∷ []) (omega (arith, a.measured)));
  counted = a.counted;
  fits = omega arith;
  block = length-set_at hd.buf hd.count b ∙ a.block;
  not_final = a.not_final;
}

-- A block that follows what is hashed, whether it stands in the buffer or in the input.
pub hash_block-Absorbed :
    (hd : Sha1Context) (msg block : List ℕ) (n : ℕ)
    → length hd.buf ≡ 64
    → hd.is_final ≡ false
    → hd.nblocks ≡ u32 n
    → chain hd ≡ compress_all n (chain hash1_reset) msg
    → length msg ≡ suc n * 64
    → take 64 (drop (n * 64) msg) ≡ block
    → Absorbed (hash_block hd block) msg
unfolding hash_block
hash_block-Absorbed hd msg block n buf started counted chained measured here =
    let (hashed, same_buf, same_count, same_blocks, same_final) = transform_is_fips hd block in
    let wrapped : u32 (u32 n + 1) ≡ u32 (suc n) = omega arith in
    record {
      hashed = suc n;
      measured = omega (arith, measured);
      chained =
          hashed
          ∙ ap₂ (λ r b. compress r (load_words 16 b)) chained (sym here)
          ∙ sym (compress_all-suc n (chain hash1_reset) msg);
      kept = sym (drop-all (suc n * 64) msg (omega (arith, measured)));
      counted = ap (λ k. u32 (k + 1)) counted ∙ wrapped;
      fits = omega arith;
      block = ap length same_buf ∙ buf;
      not_final = same_final ∙ started;
    }

pub equal_words : (a b : ℕ) → a ≡ b → (a == b) ≡ true
equal_words a b e = ground arith

pub less_words : (a b : ℕ) → a < b → (a == b) ≡ false
less_words a b h = ground arith

pub unequal_zero : (a : ℕ) → 0 < a → (a == 0) ≡ false
unequal_zero a h = ground arith

pub hash_block_count : (hd : Sha1Context) (block : List ℕ) → (hash_block hd block).count ≡ 0
unfolding hash_block
hash_block_count hd block = refl

pub flush-Absorbed :
    (hd : Sha1Context) (msg : List ℕ)
    → Absorbed hd msg
    → Absorbed (flush hd) msg × ((flush hd).count < 64)
unfolding flush
flush-Absorbed hd msg a = elim (le_or_lt 64 hd.count) [
  | inl full ↦
      let at_end : hd.count ≡ 64 = omega (arith, a.fits) in
      let hashes : flush hd ≡ hash_block hd hd.buf =
        rw (a.not_final, equal_words hd.count 64 at_end) in
      let size : length msg ≡ suc a.hashed * 64 = omega (arith, a.measured) in
      let here : take 64 (drop (a.hashed * 64) msg) ≡ hd.buf =
        ap (take 64) (sym a.kept)
        ∙ ap (λ k. take 64 (take k hd.buf)) at_end
        ∙ take-take 64 64 hd.buf (omega arith)
        ∙ take-all 64 hd.buf (omega (arith, a.block)) in
      subst (λ x. Absorbed x msg × (x.count < 64)) (sym hashes)
        (
          hash_block-Absorbed hd msg hd.buf a.hashed a.block a.not_final a.counted a.chained size
              here,
          omega (arith, hash_block_count hd hd.buf),
        )
  | inr room ↦
      let stays : flush hd ≡ hd = rw (a.not_final, less_words hd.count 64 room) in
      subst (λ x. Absorbed x msg × (x.count < 64)) (sym stays) (a, room)
]

pub flush_full :
    (hd : Sha1Context) (msg : List ℕ) → Absorbed hd msg → hd.count ≡ 64 → (flush hd).count ≡ 0
unfolding flush hash_block
flush_full hd msg a e = rw (a.not_final, equal_words hd.count 64 e) refl
