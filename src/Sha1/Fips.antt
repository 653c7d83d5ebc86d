-- ===== src/Sha1/Fips.antt =====
-- The block function of FIPS 180-1, against which src/ws/sha1.cpp is read: its words are a list that
-- grows and its registers move. The functions `f` and the constants `K` are those of the source.
use Prim.Native.Nat.{bit_xor}
use a_nother_ws.Prelude.{ℕ, zero, suc, ◌+◌, List, [], ◌∷◌, length, get_or}
use a_nother_ws.Prelude.Word.{u32}
use a_nother_ws.Sha1.{Registers, rol, mixer, constant}

-- The word number `length ws` from the words before it, the last one first.
unfoldable pub fips_word : List ℕ → ℕ
fips_word ws =
    rol
      (bit_xor (bit_xor (bit_xor (get_or ws 15 0) (get_or ws 13 0)) (get_or ws 7 0))
        (get_or ws 2 0))
      1

unfoldable pub reverse_onto : List ℕ → List ℕ → List ℕ
reverse_onto [] ys = ys
reverse_onto (x ∷ xs) ys = reverse_onto xs (x ∷ ys)

-- The first `16 + n` words of a block, the last one first.
unfoldable pub fips_words : ℕ → List ℕ → List ℕ
fips_words zero block = reverse_onto block []
fips_words (suc n) block = let ws = fips_words n block in fips_word ws ∷ ws

-- One round: `T = ROTL5(a) + f(b, c, d) + e + K + W`, and every register moves by one.
unfoldable pub fips_round : ℕ → ℕ → Registers → Registers
fips_round t w r = record {
  a = u32 (rol r.a 5 + mixer t r.b r.c r.d + r.e + constant t + w);
  b = r.a;
  c = rol r.b 30;
  d = r.c;
  e = r.d;
}

unfoldable pub fips_rounds : List ℕ → Registers → Registers
fips_rounds [] r = r
fips_rounds (w ∷ ws) r = fips_round (length ws) w (fips_rounds ws r)

unfoldable pub add_registers : Registers → Registers → Registers
add_registers r s = record {
  a = u32 (r.a + s.a);
  b = u32 (r.b + s.b);
  c = u32 (r.c + s.c);
  d = u32 (r.d + s.d);
  e = u32 (r.e + s.e);
}

-- The block function on the sixteen words of a block.
unfoldable pub compress : Registers → List ℕ → Registers
compress r block = add_registers r (fips_rounds (fips_words 64 block) r)
