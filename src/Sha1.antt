-- ===== src/Sha1.antt =====
-- src/ws/sha1.cpp and include/ws/sha1.h. A `uchar *` with its length is the list of its bytes; the
-- 32-bit words wrap as `uint` does.
pub mod Fips
pub mod Schedule
pub mod Rounds
pub mod Absorbing
pub mod Writing
pub mod Final
pub mod Padding
pub mod Digest
pub mod Behind
use Prim.Native.Nat.{bit_and, bit_or, bit_xor}
use a_nother_ws.Prelude.{
  ℕ, zero, suc, ◌+◌, ◌-◌, ◌*◌, Bool, true, false, List, [], ◌∷◌, ◌++◌, length, get_or, take, drop,
  replicate, ltb, leb, ◌==◌, if◌then◌else◌,
}
use a_nother_ws.Prelude.Word.{u8, u32, ◌<<<◌, ◌>>>◌}

pub record Sha1Context : Type 0 where
  pub is_final : Bool
  pub h0 : ℕ
  pub h1 : ℕ
  pub h2 : ℕ
  pub h3 : ℕ
  pub h4 : ℕ
  pub nblocks : ℕ
  pub count : ℕ
  pub buf : List ℕ

-- The local variables `a` to `e`.
pub record Registers : Type 0 where
  pub a : ℕ
  pub b : ℕ
  pub c : ℕ
  pub d : ℕ
  pub e : ℕ

abbrev pub set_at : List ℕ → ℕ → ℕ → List ℕ
set_at [] i v = []
set_at (x ∷ xs) zero v = v ∷ xs
set_at (x ∷ xs) (suc i) v = x ∷ set_at xs i v

unfoldable pub rol : ℕ → ℕ → ℕ
rol x n = bit_or (u32 (x <<< n)) (x >>> (32 - n))

-- `F1` to `F4`; `F4` is written as `F2` is.
pub choose : ℕ → ℕ → ℕ → ℕ
choose x y z = bit_xor z (bit_and x (bit_xor y z))

pub parity : ℕ → ℕ → ℕ → ℕ
parity x y z = bit_xor (bit_xor x y) z

pub majority : ℕ → ℕ → ℕ → ℕ
majority x y z = bit_or (bit_and x y) (bit_and z (bit_or x y))

-- Which of `F1` to `F4`, and which of `K1` to `K4`, the call of `R` with the word `i` names.
unfoldable pub mixer : ℕ → ℕ → ℕ → ℕ → ℕ
mixer i =
    if ltb i 20 then choose else if ltb i 40 then parity else if ltb i 60 then majority else parity

unfoldable pub constant : ℕ → ℕ
constant i =
    if ltb i 20
    then 0x5a827999
    else if ltb i 40
    then 0x6ed9eba1
    else if ltb i 60
    then 0x8f1bbcdc
    else 0xca62c1d6

abbrev pub big_endian : ℕ → ℕ → ℕ → ℕ → ℕ
big_endian p q r s = p <<< 24 + q <<< 16 + r <<< 8 + s

-- `x` from the bytes, on a host that is little endian.
unfoldable pub load_words : ℕ → List ℕ → List ℕ
load_words zero block = []
load_words (suc n) block =
    big_endian (get_or block 0 0) (get_or block 1 0) (get_or block 2 0) (get_or block 3 0)
    ∷ load_words n (drop 4 block)

-- `M(i)`: the word, and `x` with it.
unfoldable pub mixed_word : ℕ → List ℕ → ℕ
mixed_word i x =
    rol
      (bit_xor
        (bit_xor (bit_xor (get_or x (bit_and i 0x0f) 0) (get_or x (bit_and (i - 14) 0x0f) 0))
          (get_or x (bit_and (i - 8) 0x0f) 0))
        (get_or x (bit_and (i - 3) 0x0f) 0))
      1

-- The last argument of the call number `i` of `R`: `x[i]` in the first sixteen, then `M(i)`.
unfoldable pub word_of : ℕ → List ℕ → ℕ
word_of i x = if ltb i 16 then get_or x i 0 else mixed_word i x

unfoldable pub words_after : ℕ → List ℕ → List ℕ
words_after i x = if ltb i 16 then x else set_at x (bit_and i 0x0f) (mixed_word i x)

-- What `R` adds to its fifth register.
unfoldable pub mix : ℕ → ℕ → ℕ → ℕ → ℕ → ℕ → ℕ → ℕ
mix i m a b c d e = u32 (e + (rol a 5 + mixer i b c d + constant i + m))

-- The five ways in which `R` is called: the registers take turns.
unfoldable pub call_abcde : ℕ → ℕ → Registers → Registers
call_abcde i m r = record r { e = mix i m r.a r.b r.c r.d r.e; b = rol r.b 30 }

unfoldable pub call_eabcd : ℕ → ℕ → Registers → Registers
call_eabcd i m r = record r { d = mix i m r.e r.a r.b r.c r.d; a = rol r.a 30 }

unfoldable pub call_deabc : ℕ → ℕ → Registers → Registers
call_deabc i m r = record r { c = mix i m r.d r.e r.a r.b r.c; e = rol r.e 30 }

unfoldable pub call_cdeab : ℕ → ℕ → Registers → Registers
call_cdeab i m r = record r { b = mix i m r.c r.d r.e r.a r.b; d = rol r.d 30 }

unfoldable pub call_bcdea : ℕ → ℕ → Registers → Registers
call_bcdea i m r = record r { a = mix i m r.b r.c r.d r.e r.a; c = rol r.c 30 }

-- The registers and `x` after the calls number `i` to `i + 4`.
unfoldable pub five_calls : ℕ → Registers × List ℕ → Registers × List ℕ
five_calls i (r, x) =
    let i1 = suc i in
    let i2 = suc i1 in
    let i3 = suc i2 in
    let i4 = suc i3 in
    let x1 = words_after i x in
    let x2 = words_after i1 x1 in
    let x3 = words_after i2 x2 in
    let x4 = words_after i3 x3 in
    (
      call_bcdea i4 (word_of i4 x4) (
          call_cdeab i3 (word_of i3 x3) (
            call_deabc i2 (word_of i2 x2)
              (call_eabcd i1 (word_of i1 x1) (call_abcde i (word_of i x) r)))),
      words_after i4 x4,
    )

-- The first `n` groups of five calls, in order.
unfoldable pub calls : ℕ → Registers × List ℕ → Registers × List ℕ
calls zero s = s
calls (suc n) s = five_calls (n * 5) (calls n s)

abbrev pub chain : Sha1Context → Registers
chain hd = record { a = hd.h0; b = hd.h1; c = hd.h2; d = hd.h3; e = hd.h4 }

unfoldable pub hash1_transform : Sha1Context → List ℕ → Sha1Context
hash1_transform hd block =
    let r = (calls 16 (chain hd, load_words 16 block)).0 in
    record hd {
      h0 = u32 (hd.h0 + r.a);
      h1 = u32 (hd.h1 + r.b);
      h2 = u32 (hd.h2 + r.c);
      h3 = u32 (hd.h3 + r.d);
      h4 = u32 (hd.h4 + r.e);
    }

-- It sets every field, whatever they were.
abbrev pub hash1_reset : Sha1Context
hash1_reset = record {
  is_final = false;
  h0 = 0x67452301;
  h1 = 0xefcdab89;
  h2 = 0x98badcfe;
  h3 = 0x10325476;
  h4 = 0xc3d2e1f0;
  nblocks = 0;
  count = 0;
  buf = replicate 64 0;
}

-- One block hashed, in `hash1_write`.
unfoldable pub hash_block : Sha1Context → List ℕ → Sha1Context
hash_block hd block = record (hash1_transform hd block) {
  count = 0;
  nblocks = u32 (hd.nblocks + 1);
}

-- `hash1_write(hd, NULL, 0)`, which is also how every call begins.
unfoldable pub flush : Sha1Context → Sha1Context
flush hd =
    let fresh = if hd.is_final then hash1_reset else hd in
    if fresh.count == 64 then hash_block fresh fresh.buf else fresh

-- `hd->buf[hd->count++] = b`
unfoldable pub put : Sha1Context → ℕ → Sha1Context
put hd b = record hd { buf = set_at hd.buf hd.count b; count = hd.count + 1 }

-- The loop that fills the buffer, with what it leaves of the bytes.
unfoldable pub fill : Sha1Context → List ℕ → Sha1Context × List ℕ
fill hd [] = (hd, [])
fill hd (b ∷ bytes) = elim (ltb hd.count 64) [
  | true ↦ fill (put hd b) bytes
  | false ↦ (hd, b ∷ bytes)
]

-- The loop over whole blocks, on fuel.
unfoldable pub hash_blocks : ℕ → Sha1Context → List ℕ → Sha1Context × List ℕ
hash_blocks zero hd block = (hd, block)
hash_blocks (suc n) hd block = elim (leb 64 (length block)) [
  | true ↦ hash_blocks n (hash_block hd (take 64 block)) (drop 64 block)
  | false ↦ (hd, block)
]

-- From the loop over whole blocks on.
unfoldable pub write_rest : Sha1Context → List ℕ → Sha1Context
write_rest hd bytes =
    let (hashed, rest) = hash_blocks (length bytes) hd bytes in (fill hashed rest).0

-- `bytes` is `inbuf` with its length `inlen`, not NULL.
unfoldable pub hash1_write : Sha1Context → List ℕ → Sha1Context
hash1_write hd bytes =
    let fresh = flush hd in
    if fresh.count == 0
    then write_rest fresh bytes
    else let (filled, rest) = fill fresh bytes in
      if length rest == 0 then flush filled else write_rest (flush filled) rest
