-- ===== src/Common/Splits.antt =====
-- `split_ont_size_to_multi_parts` of src/ws/common.cpp.
use a_nother_ws.Prelude.{ℕ, ◌*◌, ◌%◌, ◌≤◌, ◌<◌, ◌≡◌, List, [], ◌∷◌, false, ◌==◌, length}
use a_nother_ws.Common.{sum}

-- Every number that `rand` gives is a part at once: no remainder is 0.
pub data IsUseful (average : ℕ) : List ℕ → Type 0 where
  end : IsUseful average []
  next :
      {r : ℕ} {rands : List ℕ}
      → (r % average == 0) ≡ false
      → IsUseful average rands
      → IsUseful average (r ∷ rands)

-- No part is empty.
pub data IsPositive : List ℕ → Type 0 where
  end : IsPositive []
  next : {x : ℕ} {xs : List ℕ} → 0 < x → IsPositive xs → IsPositive (x ∷ xs)

-- What `n` parts are, each below the average.
record IsDrawn (n average : ℕ) (parts : List ℕ) : Type 0 where
  counted : length parts ≡ n
  bounded : sum parts ≤ n * average
  positive : IsPositive parts
