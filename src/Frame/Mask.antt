-- ===== src/Frame/Mask.antt =====
-- `do_mask` of src/ws/wsutil.cpp.
use Prim.Native.Nat.{bit_xor}
use a_nother_ws.Prelude.{ℕ, suc, ◌+◌, ◌%◌, ◌≡◌, refl, ap, ap₂, List, [], ◌∷◌, length, get_or}
use a_nother_ws.Prelude.Bits.{bit_xor_twice}

-- The loop of `do_mask` at index `i`, over the bytes that are left.
pub mask_from : ℕ → List ℕ → List ℕ → List ℕ
mask_from i [] mask = []
mask_from i (x ∷ xs) mask = bit_xor x (get_or mask (i % 4) 0) ∷ mask_from (i + 1) xs mask

unfoldable pub do_mask : List ℕ → List ℕ → List ℕ
do_mask bytes mask = mask_from 0 bytes mask

mask_from_twice : (i : ℕ) (xs mask : List ℕ) → mask_from i (mask_from i xs mask) mask ≡ xs
unfolding mask_from
mask_from_twice i [] mask = refl
mask_from_twice i (x ∷ xs) mask =
    ap₂ ◌∷◌ (bit_xor_twice x (get_or mask (i % 4) 0)) (mask_from_twice (i + 1) xs mask)

pub length-mask_from : (i : ℕ) (xs mask : List ℕ) → length (mask_from i xs mask) ≡ length xs
unfolding mask_from
length-mask_from i [] mask = refl
length-mask_from i (x ∷ xs) mask = ap suc (length-mask_from (i + 1) xs mask)

pub do_mask_twice : (xs mask : List ℕ) → do_mask (do_mask xs mask) mask ≡ xs
unfolding do_mask
do_mask_twice xs mask = mask_from_twice 0 xs mask

pub length-do_mask : (xs mask : List ℕ) → length (do_mask xs mask) ≡ length xs
unfolding do_mask
length-do_mask xs mask = length-mask_from 0 xs mask
