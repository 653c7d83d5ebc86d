-- ===== src/Tests/Buffers.antt =====
-- src/ws/membuf.cpp and the length fields of src/ws/common.cpp on buffers of a few bytes.
use a_nother_ws.Prelude.{◌+◌, ◌^◌, ◌≡◌, refl, [], ◌∷◌, some, none, arith}
use a_nother_ws.Prelude.Word.{u32}
use a_nother_ws.ByteOrder.{
  write_two_byte_length, write_four_byte_length, read_two_byte_length, read_four_byte_length,
  two_byte_length_roundtrip, four_byte_length_roundtrip,
}
use a_nother_ws.Membuf.{
  Membuf, contents, clear, double_until, first_size, reserve, append_data, remove,
}
use a_nother_ws.Membuf.Valid.{IsValid}
use a_nother_ws.Membuf.Growth.{reserve_hangs}
use a_nother_ws.Membuf.Contents.{
  HasRoom, HasAppended, reserve-HasRoom, append_data-HasAppended, clear_empties,
}
use a_nother_ws.Membuf.Removal.{HasRemoved, remove-HasRemoved, remove_nothing_overruns}

-- Three bytes of data in a block of five.
abbrev three_bytes : Membuf
three_bytes = record { bytes = 7 ∷ 8 ∷ 9 ∷ 0 ∷ 0 ∷ []; size = 3; buffer_size = 5; flag = 4 }

three_bytes-IsValid : IsValid three_bytes
three_bytes-IsValid = record { block = refl; fits = omega arith; word = omega arith }

abbrev full_bytes : Membuf
full_bytes = record { bytes = 7 ∷ 8 ∷ 9 ∷ []; size = 3; buffer_size = 3; flag = 0 }

full_bytes-IsValid : IsValid full_bytes
full_bytes-IsValid = record { block = refl; fits = omega arith; word = omega arith }

-- The fields of a buffer of 2 ^ 31 bytes, its block left out.
abbrev largest : Membuf
largest = record { bytes = []; size = 2 ^ 31; buffer_size = 2 ^ 31; flag = 0 }

append_data-HasAppended_example :
    (out : Membuf) × (append_data three_bytes (1 ∷ 2 ∷ 3 ∷ []) ≡ some out)
    × HasAppended three_bytes (1 ∷ 2 ∷ 3 ∷ []) out
append_data-HasAppended_example =
    append_data-HasAppended three_bytes (1 ∷ 2 ∷ 3 ∷ []) three_bytes-IsValid (omega arith)

reserve-HasRoom_example :
    (room : Membuf) × (reserve three_bytes 20 ≡ some room) × HasRoom three_bytes 20 room
reserve-HasRoom_example = reserve-HasRoom three_bytes 20 three_bytes-IsValid (omega arith)

remove-HasRemoved_example : HasRemoved three_bytes 1 1 (remove three_bytes 1 1)
remove-HasRemoved_example =
    remove-HasRemoved three_bytes 1 1 three_bytes-IsValid (omega arith) (omega arith)

remove_nothing_overruns_example : ¬ IsValid (remove full_bytes 1 0)
remove_nothing_overruns_example =
    remove_nothing_overruns full_bytes 1 full_bytes-IsValid refl (omega arith)

reserve_hangs_example : double_until 1000 (first_size largest 1) (u32 (largest.size + 1)) ≡ none
reserve_hangs_example = reserve_hangs 1000 largest 1 refl (omega arith) (omega arith)

clear_empties_example :
    (contents (clear three_bytes 2) ≡ []) × ((clear three_bytes 2).flag ≡ three_bytes.flag)
clear_empties_example = clear_empties three_bytes 2 three_bytes-IsValid

two_byte_length_roundtrip_example :
    (write_two_byte_length 300 ≡ 1 ∷ 44 ∷ [])
    × (read_two_byte_length (write_two_byte_length 300) ≡ 300)
two_byte_length_roundtrip_example = two_byte_length_roundtrip 300 (omega arith)

four_byte_length_roundtrip_example :
    (write_four_byte_length 70000 ≡ 0 ∷ 1 ∷ 17 ∷ 112 ∷ [])
    × (read_four_byte_length (write_four_byte_length 70000) ≡ 70000)
four_byte_length_roundtrip_example = four_byte_length_roundtrip 70000 (omega arith)
