-- ===== src/Sha1/Behind.antt =====
-- What stands behind the digest in the buffer of src/ws/sha1.cpp.
use a_nother_ws.Prelude.{
  ℕ, zero, suc, ◌+◌, ◌-◌, ◌*◌, ◌%◌, ◌≤◌, ◌<◌, ◌≡◌, ◌⊎◌, refl, sym, ap, ◌∙◌, List, [], ◌∷◌, ◌++◌,
  length, take, drop, replicate, get_or, length-append, length-replicate, arith, inl, inr,
}
use a_nother_ws.Sha1.{Sha1Context, set_at, chain, hash1_transform, flush}
use a_nother_ws.Sha1.Schedule.{get_or-set_at_other}
use a_nother_ws.Sha1.Rounds.{transform_is_fips}
use a_nother_ws.Sha1.Absorbing.{Absorbed, flush-Absorbed}
use a_nother_ws.Sha1.Final.{
  word_bytes, low_bits, high_bits, pad, set_bytes, digest_bytes, hash1_final,
}
use a_nother_ws.Sha1.Digest.{Padded, with_zeros, pad-Padded, length-digest_bytes}

get_or-set_bytes_behind :
    (buf bytes : List ℕ) (i j : ℕ)
    → i + length bytes ≤ j
    → get_or (set_bytes buf i bytes) j 0 ≡ get_or buf j 0
unfolding set_bytes
get_or-set_bytes_behind buf [] i j h = refl
get_or-set_bytes_behind buf (b ∷ bytes) i j h =
    get_or-set_bytes_behind (set_at buf i b) bytes (suc i) j (omega arith)
    ∙ get_or-set_at_other buf i j b (λ e. absurd (omega (arith, e)))

get_or-set_bytes_before :
    (buf bytes : List ℕ) (i j : ℕ) → j < i → get_or (set_bytes buf i bytes) j 0 ≡ get_or buf j 0
unfolding set_bytes
get_or-set_bytes_before buf [] i j h = refl
get_or-set_bytes_before buf (b ∷ bytes) i j h =
    get_or-set_bytes_before (set_at buf i b) bytes (suc i) j (omega arith)
    ∙ get_or-set_at_other buf i j b (λ e. absurd (omega (arith, e)))

get_or-take : (n i : ℕ) (xs : List ℕ) → i < n → get_or (take n xs) i 0 ≡ get_or xs i 0
get_or-take zero i xs h = absurd (omega arith)
get_or-take (suc n) i [] h = refl
get_or-take (suc n) zero (x ∷ xs) h = refl
get_or-take (suc n) (suc i) (x ∷ xs) h = get_or-take n i xs (omega arith)

pub get_or-drop : (n i : ℕ) (xs : List ℕ) → get_or (drop n xs) i 0 ≡ get_or xs (n + i) 0
get_or-drop zero i xs = ap (λ k. get_or xs k 0) (omega arith)
get_or-drop (suc n) i [] = refl
get_or-drop (suc n) i (x ∷ xs) =
    let next : suc (n + i) ≡ suc n + i = omega arith in
    get_or-drop n i xs ∙ ap (λ k. get_or (x ∷ xs) k 0) next

get_or-zeros : (n i : ℕ) → get_or {A = ℕ} (replicate n 0) i 0 ≡ 0
get_or-zeros zero i = refl
get_or-zeros (suc n) zero = refl
get_or-zeros (suc n) (suc i) = get_or-zeros n i

get_or-behind : (xs : List ℕ) (n i : ℕ) → length xs ≤ i → get_or (xs ++ replicate n 0) i 0 ≡ 0
get_or-behind [] n i h = get_or-zeros n i
get_or-behind (x ∷ xs) n zero h = absurd (omega arith)
get_or-behind (x ∷ xs) n (suc i) h = get_or-behind xs n i (omega arith)

Padded-byte :
    (hd : Sha1Context) (msg : List ℕ)
    → Padded hd (with_zeros msg)
    → (length msg % 64 < 20) ⊎ (56 ≤ length msg % 64)
    → get_or hd.buf 20 0 ≡ 0
Padded-byte hd msg p place =
    let zeros = (119 - length msg % 64) % 64 in
    let far : length (msg ++ (0x80 ∷ [])) ≤ p.hashed * 64 + 20 = elim place [
      | inl h ↦ omega (
        arith,
        p.measured,
        length-append msg (0x80 ∷ []),
        length-append (msg ++ (0x80 ∷ [])) (replicate zeros 0),
        length-replicate {A = ℕ} zeros 0,
      )
      | inr h ↦ omega (
        arith,
        p.measured,
        length-append msg (0x80 ∷ []),
        length-append (msg ++ (0x80 ∷ [])) (replicate zeros 0),
        length-replicate {A = ℕ} zeros 0,
      )
    ] in
    sym (get_or-take 56 20 hd.buf (omega arith))
    ∙ ap (λ l. get_or l 20 0) p.kept
    ∙ get_or-drop (p.hashed * 64) 20 (with_zeros msg)
    ∙ get_or-behind (msg ++ (0x80 ∷ [])) zeros (p.hashed * 64 + 20) far

-- The byte behind the digest is 0, unless bytes of the message or the pad character are left there.
pub byte_behind_digest :
    (hd : Sha1Context) (msg : List ℕ)
    → Absorbed hd msg
    → (length msg % 64 < 20) ⊎ (56 ≤ length msg % 64)
    → get_or (hash1_final hd).buf 20 0 ≡ 0
unfolding hash1_final
byte_behind_digest hd msg a place =
    let (fresh, room) = flush-Absorbed hd msg a in
    let field =
      word_bytes (high_bits (flush hd).nblocks (flush hd).count)
      ++ word_bytes (low_bits (flush hd).nblocks (flush hd).count) in
    let padded = pad (flush hd) in
    let buf = set_bytes padded.buf 56 field in
    let last = record padded { buf = buf } in
    let hashed = hash1_transform last buf in
    get_or-set_bytes_behind hashed.buf (digest_bytes (chain hashed)) 0 20
      (omega (arith, length-digest_bytes (chain hashed)))
    ∙ ap (λ l. get_or l 20 0) (transform_is_fips last buf).1
    ∙ get_or-set_bytes_before padded.buf field 56 20 (omega arith)
    ∙ Padded-byte padded msg (pad-Padded (flush hd) msg fresh room) place
