-- ===== src/Sha1/Rounds.antt =====
-- The eighty calls of `R` are the rounds of FIPS 180-1: in place of the registers, the names move.
use a_nother_ws.Prelude.{ℕ, zero, suc, ◌+◌, ◌*◌, ◌≡◌, refl, sym, ap, ◌∙◌, List, arith}
use a_nother_ws.Prelude.Word.{u32}
use a_nother_ws.Sha1.{
  Registers, Sha1Context, rol, mixer, constant, load_words, word_of, mix, call_abcde, call_eabcd,
  call_deabc, call_cdeab, call_bcdea, five_calls, calls, chain, hash1_transform,
}
use a_nother_ws.Sha1.Fips.{fips_round, fips_rounds, fips_words, add_registers, compress}
use a_nother_ws.Sha1.Schedule.{x_at, used, length-used, used_are_fips_words}

-- The registers by the names that the next call of `R` gives them.
renamed : Registers → Registers
renamed r = record { a = r.e; b = r.a; c = r.b; d = r.c; e = r.d }

sum_order :
    (t w a b c d e : ℕ) → u32 (rol a 5 + mixer t b c d + e + constant t + w) ≡ mix t w a b c d e
unfolding mix
sum_order t w a b c d e = ap u32 (omega arith)

module _ (t w : ℕ) (r : Registers) where
  round_abcde : fips_round t w r ≡ renamed (call_abcde t w r)
  unfolding fips_round renamed call_abcde
  round_abcde =
      ap (λ v. record { a = v; b = r.a; c = rol r.b 30; d = r.c; e = r.d })
        (sum_order t w r.a r.b r.c r.d r.e)

  round_eabcd : fips_round t w (renamed r) ≡ renamed (renamed (call_eabcd t w r))
  unfolding fips_round renamed call_eabcd
  round_eabcd =
      ap (λ v. record { a = v; b = r.e; c = rol r.a 30; d = r.b; e = r.c })
        (sum_order t w r.e r.a r.b r.c r.d)

  round_deabc :
      fips_round t w (renamed (renamed r)) ≡ renamed (renamed (renamed (call_deabc t w r)))
  unfolding fips_round renamed call_deabc
  round_deabc =
      ap (λ v. record { a = v; b = r.d; c = rol r.e 30; d = r.a; e = r.b })
        (sum_order t w r.d r.e r.a r.b r.c)

  round_cdeab :
      fips_round t w (renamed (renamed (renamed r)))
      ≡ renamed (renamed (renamed (renamed (call_cdeab t w r))))
  unfolding fips_round renamed call_cdeab
  round_cdeab =
      ap (λ v. record { a = v; b = r.c; c = rol r.d 30; d = r.e; e = r.a })
        (sum_order t w r.c r.d r.e r.a r.b)

  round_bcdea : fips_round t w (renamed (renamed (renamed (renamed r)))) ≡ call_bcdea t w r
  unfolding fips_round renamed call_bcdea
  round_bcdea =
      ap (λ v. record { a = v; b = r.b; c = rol r.c 30; d = r.d; e = r.e })
        (sum_order t w r.b r.c r.d r.e r.a)

next_round :
    (i : ℕ) (x : List ℕ) (r : Registers)
    → fips_rounds (used (suc i) x) r
      ≡ fips_round i (word_of i (x_at i x)) (fips_rounds (used i x) r)
unfolding fips_rounds used
next_round i x r =
    ap (λ t. fips_round t (word_of i (x_at i x)) (fips_rounds (used i x) r)) (length-used i x)

five_calls_lem :
    (i : ℕ) (x : List ℕ) (r : Registers)
    → five_calls i (fips_rounds (used i x) r, x_at i x) ≡ (
      fips_rounds (used (suc (suc (suc (suc (suc i))))) x) r,
      x_at (suc (suc (suc (suc (suc i))))) x,
    )
unfolding five_calls x_at
five_calls_lem i x r =
    let s0 = fips_rounds (used i x) r in
    let s1 = call_abcde i (word_of i (x_at i x)) s0 in
    let s2 = call_eabcd (suc i) (word_of (suc i) (x_at (suc i) x)) s1 in
    let s3 = call_deabc (suc (suc i)) (word_of (suc (suc i)) (x_at (suc (suc i)) x)) s2 in
    let s4 =
      call_cdeab (suc (suc (suc i))) (word_of (suc (suc (suc i))) (x_at (suc (suc (suc i))) x))
        s3 in
    let e1 : fips_rounds (used (suc i) x) r ≡ renamed s1 =
      next_round i x r ∙ round_abcde i (word_of i (x_at i x)) s0 in
    let e2 : fips_rounds (used (suc (suc i)) x) r ≡ renamed (renamed s2) =
      next_round (suc i) x r
      ∙ ap (fips_round (suc i) (word_of (suc i) (x_at (suc i) x))) e1
      ∙ round_eabcd (suc i) (word_of (suc i) (x_at (suc i) x)) s1 in
    let e3 : fips_rounds (used (suc (suc (suc i))) x) r ≡ renamed (renamed (renamed s3)) =
      next_round (suc (suc i)) x r
      ∙ ap (fips_round (suc (suc i)) (word_of (suc (suc i)) (x_at (suc (suc i)) x))) e2
      ∙ round_deabc (suc (suc i)) (word_of (suc (suc i)) (x_at (suc (suc i)) x)) s2 in
    let e4 : fips_rounds (used (suc (suc (suc (suc i)))) x) r
        ≡ renamed (renamed (renamed (renamed s4))) =
      next_round (suc (suc (suc i))) x r
      ∙ ap
          (fips_round (suc (suc (suc i)))
            (word_of (suc (suc (suc i))) (x_at (suc (suc (suc i))) x)))
          e3
      ∙ round_cdeab (suc (suc (suc i))) (word_of (suc (suc (suc i))) (x_at (suc (suc (suc i))) x))
          s3 in
    let e5 : fips_rounds (used (suc (suc (suc (suc (suc i))))) x) r
        ≡ call_bcdea (suc (suc (suc (suc i))))
            (word_of (suc (suc (suc (suc i)))) (x_at (suc (suc (suc (suc i)))) x)) s4 =
      next_round (suc (suc (suc (suc i)))) x r
      ∙ ap
          (fips_round (suc (suc (suc (suc i))))
            (word_of (suc (suc (suc (suc i)))) (x_at (suc (suc (suc (suc i)))) x)))
          e4
      ∙ round_bcdea (suc (suc (suc (suc i))))
          (word_of (suc (suc (suc (suc i)))) (x_at (suc (suc (suc (suc i)))) x)) s4 in
    ap (λ q. (q, x_at (suc (suc (suc (suc (suc i))))) x)) (sym e5)

calls_lem :
    (n : ℕ) (x : List ℕ) (r : Registers)
    → calls n (r, x) ≡ (fips_rounds (used (n * 5) x) r, x_at (n * 5) x)
unfolding calls used x_at fips_rounds
calls_lem zero x r = refl
calls_lem (suc n) x r =
    let five_more : suc (suc (suc (suc (suc (n * 5))))) ≡ suc n * 5 = omega arith in
    ap (five_calls (n * 5)) (calls_lem n x r)
    ∙ five_calls_lem (n * 5) x r
    ∙ ap (λ k. (fips_rounds (used k x) r, x_at k x)) five_more

pub transform_is_fips :
    (hd : Sha1Context) (block : List ℕ)
    → (chain (hash1_transform hd block) ≡ compress (chain hd) (load_words 16 block))
      × ((hash1_transform hd block).buf ≡ hd.buf)
      × ((hash1_transform hd block).count ≡ hd.count)
      × ((hash1_transform hd block).nblocks ≡ hd.nblocks)
      × ((hash1_transform hd block).is_final ≡ hd.is_final)
unfolding hash1_transform compress add_registers
transform_is_fips hd block =
    let rounds : (calls 16 (chain hd, load_words 16 block)).0
        ≡ fips_rounds (fips_words 64 (load_words 16 block)) (chain hd) =
      ap (λ s. s.0) (calls_lem 16 (load_words 16 block) (chain hd))
      ∙ ap (λ ws. fips_rounds ws (chain hd)) (used_are_fips_words block) in
    (ap (add_registers (chain hd)) rounds, refl, refl, refl, refl)
