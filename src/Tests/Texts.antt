-- ===== src/Tests/Texts.antt =====
-- src/ws/encode.cpp on four bytes.
use a_nother_ws.Prelude.{◌≡◌, [], ◌∷◌, some, arith}
use a_nother_ws.Membuf.{Membuf, contents}
use a_nother_ws.Base64.{base64_encode}
use a_nother_ws.Base64.Reading.{read_base64, base64_encode_reads_back}

base64_encode_reads_back_example :
    (out : Membuf) × (base64_encode (104 ∷ 255 ∷ 0 ∷ 7 ∷ []) ≡ some out)
    × (read_base64 (contents out) ≡ 104 ∷ 255 ∷ 0 ∷ 7 ∷ [])
base64_encode_reads_back_example =
    base64_encode_reads_back (104 ∷ 255 ∷ 0 ∷ 7 ∷ [])
      (omega arith, (omega arith, (omega arith, (omega arith, tt)))) (omega arith)
