-- ===== src/Tests/Helpers.antt =====
-- src/ws/common.cpp on a short line, on paths and on the length 100.
use a_nother_ws.Prelude.{◌≤◌, ◌≡◌, ◌⊎◌, refl, [], ◌∷◌, ◌++◌, some, false, arith}
use a_nother_ws.Prelude.Text.{codes}
use a_nother_ws.Common.{Fetch, LineResult, read_line, parse_file_path}
use a_nother_ws.Common.Lines.{GivesLine, read_line_fits, path_parts_at_last_slash, has_slash}

read_line_fits_example :
    (read_line 3
        (Fetch.byte 104 ∷ Fetch.interrupted ∷ Fetch.byte 105 ∷ Fetch.byte 33 ∷ Fetch.byte 10 ∷ [])
      ≡ some (LineResult.line (104 ∷ 105 ∷ [])))
    × (3 ≤ 3)
read_line_fits_example =
    read_line_fits 3
      (Fetch.byte 104 ∷ Fetch.interrupted ∷ Fetch.byte 105 ∷ Fetch.byte 33 ∷ Fetch.byte 10 ∷ [])
      (104 ∷ 105 ∷ 33 ∷ [])
      (GivesLine.next refl
        (GivesLine.again (GivesLine.next refl (GivesLine.next refl GivesLine.newline))))
      (omega arith)

path_parts_at_last_slash_example :
    ((has_slash (codes "/etc/ws.conf") ≡ false)
      × (parse_file_path (codes "/etc/ws.conf") ≡ (46 ∷ [], codes "/etc/ws.conf")))
    ⊎ (((parse_file_path (codes "/etc/ws.conf")).0
            ++ (47 ∷ (parse_file_path (codes "/etc/ws.conf")).1)
          ≡ codes "/etc/ws.conf")
        × (has_slash (parse_file_path (codes "/etc/ws.conf")).1 ≡ false))
path_parts_at_last_slash_example = path_parts_at_last_slash (codes "/etc/ws.conf")
