-- ===== src/Sha1/Final.antt =====
-- src/ws/sha1.cpp: `hash1_final` and `hash1_get`.
use Prim.Native.Nat.{bit_or}
use a_nother_ws.Prelude.{
  ℕ, zero, suc, ◌+◌, List, [], ◌∷◌, ◌++◌, true, false, ltb, if◌then◌else◌, drop, replicate,
}
use a_nother_ws.Prelude.Word.{u8, u32, ◌<<<◌, ◌>>>◌}
use a_nother_ws.Sha1.{Sha1Context, Registers, set_at, chain, hash1_transform, flush, put}

-- A word in four bytes, the highest first.
unfoldable pub word_bytes : ℕ → List ℕ
word_bytes w = u8 (w >>> 24) ∷ u8 (w >>> 16) ∷ u8 (w >>> 8) ∷ u8 w ∷ []

-- `lsb` and then `msb`, the number of bits, from the number of blocks and the bytes left.
unfoldable pub byte_count : ℕ → ℕ → ℕ
byte_count nblocks count = u32 (u32 (nblocks <<< 6) + count)

unfoldable pub low_bits : ℕ → ℕ → ℕ
low_bits nblocks count = u32 (byte_count nblocks count <<< 3)

unfoldable pub high_bits : ℕ → ℕ → ℕ
high_bits nblocks count =
    let high = nblocks >>> 26 in
    let carried =
      if ltb (byte_count nblocks count) (u32 (nblocks <<< 6)) then u32 (high + 1) else high in
    bit_or (u32 (carried <<< 3)) (byte_count nblocks count >>> 29)

-- The loops that pad with zeros, on fuel.
unfoldable pub pad_to : ℕ → ℕ → Sha1Context → Sha1Context
pad_to zero limit hd = hd
pad_to (suc n) limit hd = elim (ltb hd.count limit) [
  | true ↦ pad_to n limit (put hd 0)
  | false ↦ hd
]

-- Room for the length, behind the byte `0x80` and zeros.
unfoldable pub pad : Sha1Context → Sha1Context
pad hd =
    if ltb hd.count 56
    then pad_to 64 56 (put hd 0x80)
    else let hashed = flush (pad_to 64 64 (put hd 0x80)) in
      record hashed { buf = replicate 56 0 ++ drop 56 hashed.buf }

unfoldable pub set_bytes : List ℕ → ℕ → List ℕ → List ℕ
set_bytes buf i [] = buf
set_bytes buf i (b ∷ bytes) = set_bytes (set_at buf i b) (suc i) bytes

-- The five words of the chain, which `X(0)` to `X(4)` write.
unfoldable pub digest_bytes : Registers → List ℕ
digest_bytes r =
    word_bytes r.a ++ (word_bytes r.b ++ (word_bytes r.c ++ (word_bytes r.d ++ word_bytes r.e)))

unfoldable pub hash1_final : Sha1Context → Sha1Context
hash1_final hd =
    let flushed = flush hd in
    let padded = pad flushed in
    let lengths =
      word_bytes (high_bits flushed.nblocks flushed.count)
      ++ word_bytes (low_bits flushed.nblocks flushed.count) in
    let last = record padded { buf = set_bytes padded.buf 56 lengths } in
    let hashed = hash1_transform last last.buf in
    record hashed { buf = set_bytes hashed.buf 0 (digest_bytes (chain hashed)); is_final = true }

-- The state after the call, whose `buf` is the result.
unfoldable pub hash1_get : Sha1Context → Sha1Context
hash1_get hd = if hd.is_final then hd else hash1_final hd
