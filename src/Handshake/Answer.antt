-- ===== src/Handshake/Answer.antt =====
-- The answer of src/ws/wsutil.cpp to a handshake, against RFC 6455.
use a_nother_ws.Prelude.{
  ℕ, ◌+◌, ◌%◌, ◌^◌, ◌≤◌, ◌<◌, ◌≡◌, refl, ◌∙◌, ap, sym, subst, List, [], ◌∷◌, ◌++◌, Option, some,
  arith, length, take, drop, get_or, inl, inr, length-append, take-append-drop, take-all, false,
  ◌⊎◌, le_or_lt, Bool-cases, if◌then◌else◌, none, ◌==◌, ==_iff, lt→ltb, append-nil,
}
use a_nother_ws.Prelude.Text.{c_string}
use a_nother_ws.Membuf.{is_null, init}
use a_nother_ws.Base64.{base64_encode, encode_groups}
use a_nother_ws.Base64.Reading.{IsBytes, read_base64, read_base64-nil}
use a_nother_ws.Base64.Printed.{base64_encode_prints}
use a_nother_ws.Sha1.{Registers, hash1_reset, hash1_write}
use a_nother_ws.Sha1.Writing.{reset-Absorbed, hash1_write-Absorbed}
use a_nother_ws.Sha1.Final.{hash1_final, digest_bytes, word_bytes}
use a_nother_ws.Sha1.Padding.{fips_digest}
use a_nother_ws.Sha1.Digest.{hash1_final_is_fips, length-digest_bytes}
use a_nother_ws.Sha1.Behind.{byte_behind_digest, get_or-drop}
use a_nother_ws.Handshake.{
  ws_key_suffix, sha1_and_base64, server_handshake_text, printed, answer_for,
  generate_websocket_server_handshake,
}

word-IsBytes : (w : ℕ) (rest : List ℕ) → IsBytes rest → IsBytes (word_bytes w ++ rest)
unfolding word_bytes
word-IsBytes w rest h = (omega arith, (omega arith, (omega arith, (omega arith, h))))

digest-IsBytes : (r : Registers) → IsBytes (digest_bytes r)
unfolding digest_bytes
digest-IsBytes r =
    word-IsBytes r.a (word_bytes r.b ++ (word_bytes r.c ++ (word_bytes r.d ++ word_bytes r.e))) (
      word-IsBytes r.b (word_bytes r.c ++ (word_bytes r.d ++ word_bytes r.e)) (
        word-IsBytes r.c (word_bytes r.d ++ word_bytes r.e) (
          word-IsBytes r.d (word_bytes r.e)
            (subst IsBytes (append-nil (word_bytes r.e)) (word-IsBytes r.e [] tt)))))

fips-IsBytes : (msg : List ℕ) → IsBytes (fips_digest msg) × (length (fips_digest msg) ≡ 20)
unfolding fips_digest
fips-IsBytes msg = (digest-IsBytes _, length-digest_bytes _)

nil_or_cons : (xs : List ℕ) → (xs ≡ []) ⊎ ((y : ℕ) × (ys : List ℕ) × (xs ≡ y ∷ ys))
nil_or_cons [] = inl refl
nil_or_cons (x ∷ xs) = inr (x, xs, refl)

zero_first : (ys : List ℕ) → get_or ys 0 0 ≡ 0 → c_string ys ≡ []
zero_first [] e = refl
zero_first (y ∷ ys) e = rw ((==_iff y 0).1 e) refl

c_string-cut : (xs ys : List ℕ) → c_string ys ≡ [] → c_string (xs ++ ys) ≡ c_string xs
c_string-cut [] ys e = e
c_string-cut (x ∷ xs) ys e = ap (λ l. if x == 0 then [] else x ∷ l) (c_string-cut xs ys e)

c_string-IsBytes : (xs : List ℕ) → IsBytes xs → IsBytes (c_string xs)
c_string-IsBytes [] h = h
c_string-IsBytes (x ∷ xs) (h, all) = elim (Bool-cases (x == 0)) [
  | inl ends ↦ rw ends tt
  | inr other ↦ rw other (h, c_string-IsBytes xs all)
]

length-c_string : (xs : List ℕ) → length (c_string xs) ≤ length xs
length-c_string [] = omega arith
length-c_string (x ∷ xs) = elim (Bool-cases (x == 0)) [
  | inl ends ↦ rw ends (omega arith)
  | inr other ↦ rw other (omega (arith, length-c_string xs))
]

c_string-ended :
    (xs : List ℕ) (n : ℕ) (text : List ℕ)
    → take n xs ≡ text
    → get_or xs n 0 ≡ 0
    → c_string xs ≡ c_string text
c_string-ended xs n text e z =
    let here : n + 0 ≡ n = omega arith in
    ap c_string (sym (take-append-drop n xs))
    ∙ ap (λ l. c_string (l ++ drop n xs)) e
    ∙ c_string-cut text (drop n xs)
        (zero_first (drop n xs) (get_or-drop n 0 xs ∙ ap (λ k. get_or xs k 0) here ∙ z))

-- Where no byte of the message is left behind the digest, the digest up to its first byte 0 is
-- encoded.
sha1_and_base64_lem :
    (msg : List ℕ)
    → length msg < 2 ^ 38
    → (length msg % 64 < 20) ⊎ (56 ≤ length msg % 64)
    → sha1_and_base64 msg ≡ base64_encode (c_string (fips_digest msg))
unfolding sha1_and_base64
sha1_and_base64_lem msg small place =
    let absorbed = (hash1_write-Absorbed hash1_reset [] msg reset-Absorbed).0 in
    ap base64_encode (
      c_string-ended (hash1_final (hash1_write hash1_reset msg)).buf 20 (fips_digest msg)
        (hash1_final_is_fips (hash1_write hash1_reset msg) msg absorbed small)
        (byte_behind_digest (hash1_write hash1_reset msg) msg absorbed place))

not_null :
    (bytes : List ℕ) (y : ℕ) (ys : List ℕ)
    → read_base64 (c_string bytes) ≡ y ∷ ys
    → is_null bytes ≡ false
unfolding is_null
not_null [] y ys e = absurd (omega (arith, ap length e, ap length read_base64-nil))
not_null (x ∷ bytes) y ys e = refl

nothing_answered :
    (akey bytes : List ℕ)
    → bytes ≡ []
    → sha1_and_base64 akey ≡ base64_encode bytes
    → answer_for akey ≡ none
unfolding answer_for base64_encode encode_groups init is_null
nothing_answered akey bytes e h = rw (h ∙ ap base64_encode e) refl

length-server_handshake_text :
    (accept : List ℕ) → length (server_handshake_text accept) ≡ length accept + 101
unfolding server_handshake_text
length-server_handshake_text accept = omega (arith, length-append accept (13 ∷ 10 ∷ 13 ∷ 10 ∷ []))

-- A text for `Sec-WebSocket-Accept` that reads back from base64 as these bytes.
pub record IsAnswer (bytes : List ℕ) (reply : Option (List ℕ)) : Type 0 where
  pub accept : List ℕ
  pub returned : reply ≡ some (server_handshake_text accept)
  pub reads : read_base64 accept ≡ bytes

encoded-IsAnswer :
    (akey bytes : List ℕ) (y : ℕ) (ys : List ℕ)
    → bytes ≡ y ∷ ys
    → IsBytes bytes
    → length bytes ≤ 20
    → sha1_and_base64 akey ≡ base64_encode bytes
    → IsAnswer bytes (answer_for akey)
unfolding answer_for
encoded-IsAnswer akey bytes y ys e all short h =
    let (out, r, same, reads, room) = base64_encode_prints bytes all (omega (arith, short)) in
    let accept = c_string out.bytes in
    let block : is_null out.bytes ≡ false = not_null out.bytes y ys (reads ∙ e) in
    let whole : printed (server_handshake_text accept) ≡ server_handshake_text accept =
      take-all 1023 (server_handshake_text accept)
        (omega (arith, length-server_handshake_text accept, room, short)) in
    record { accept = accept; returned = rw (h ∙ r, block) (ap some whole); reads = reads }

-- A key of 20 to 47 bytes, as the 24 of a real one, is answered with the text of RFC 6455: its
-- `Sec-WebSocket-Accept` reads back from base64 as the SHA-1 digest of the key followed by the fixed
-- identifier, but only up to the first byte 0 of the digest, where the code takes it to end; when
-- the digest begins with a 0, no answer is defined.
pub server_answers :
    (key : List ℕ)
    → 20 ≤ length key
    → length key ≤ 47
    → ((c_string (fips_digest (key ++ ws_key_suffix)) ≡ [])
        × (generate_websocket_server_handshake key ≡ none))
      ⊎ IsAnswer
          (c_string (fips_digest (key ++ ws_key_suffix)))
          (generate_websocket_server_handshake key)
unfolding generate_websocket_server_handshake
server_answers key long short =
    let akey = key ++ ws_key_suffix in
    let size : length akey ≡ length key + 36 = length-append key ws_key_suffix in
    let place : (length akey % 64 < 20) ⊎ (56 ≤ length akey % 64) =
      elim (le_or_lt 28 (length key)) [
        | inl more ↦ inl (omega (arith, size))
        | inr fewer ↦ inr (omega (arith, size))
      ] in
    let (all, twenty) = fips-IsBytes akey in
    let bytes = c_string (fips_digest akey) in
    let encoded = sha1_and_base64_lem akey (omega (arith, size)) place in
    rw (lt→ltb (length akey) 100 (omega (arith, size))) (elim (nil_or_cons bytes) [
      | inl nothing ↦ inl (nothing, nothing_answered akey bytes nothing encoded)
      | inr (y, ys, e) ↦ inr (
          encoded-IsAnswer akey bytes y ys e (c_string-IsBytes (fips_digest akey) all)
            (omega (arith, length-c_string (fips_digest akey), twenty)) encoded)
    ])
