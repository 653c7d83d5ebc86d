-- ===== src/Tests/Digests.antt =====
-- src/ws/sha1.cpp on the message `abc`, and on a block of it.
use a_nother_ws.Prelude.{ℕ, ◌<◌, List, [], ◌∷◌, replicate}
use a_nother_ws.Sha1.{hash1_reset, hash1_write}
use a_nother_ws.Sha1.Absorbing.{Absorbed}
use a_nother_ws.Sha1.Writing.{hash1_write-Absorbed, reset-Absorbed}

abbrev some_block : List ℕ
some_block = 97 ∷ 98 ∷ 99 ∷ replicate 61 7

hash1_write-Absorbed_example :
    Absorbed (hash1_write hash1_reset some_block) some_block
    × ((hash1_write hash1_reset some_block).count < 64)
hash1_write-Absorbed_example = hash1_write-Absorbed hash1_reset [] some_block reset-Absorbed
