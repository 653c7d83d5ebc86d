-- ===== src/Common.antt =====
-- src/ws/common.cpp and include/ws/common.h: the helpers for text and for the split of a length.
pub mod Lines
pub mod Splits
use a_nother_ws.Prelude.{
  ℕ, zero, suc, ◌+◌, ◌-◌, ◌/◌, ◌%◌, List, [], ◌∷◌, ◌++◌, Option, none, some, Bool, true, false,
  ◌&&◌, ◌||◌, not, ltb, leb, ◌==◌, if◌then◌else◌, length, ◌>>=◌,
}
use a_nother_ws.Prelude.Word.{size_sub}

-- What one `read` of one byte gives.
pub data Fetch : Type 0 where
  byte : ℕ → Fetch
  interrupted failed end_of_file : Fetch

-- What `read_line` leaves: -1, 0 with the buffer as it was, or the bytes with a 0 behind them in the
-- buffer and their number.
pub data LineResult : Type 0 where
  failed nothing : LineResult
  line : List ℕ → LineResult

abbrev pub line_or_nothing : List ℕ → LineResult
line_or_nothing [] = LineResult.nothing
line_or_nothing (x ∷ xs) = LineResult.line (x ∷ xs)

-- `if (totRead < n-1)`
abbrev pub keep : ℕ → List ℕ → ℕ → List ℕ
keep n got ch = if ltb (length got) (n - 1) then got ++ (ch ∷ []) else got

-- The loop, on the results of its reads; `none` is a read that does not return.
unfoldable pub read_loop : ℕ → List ℕ → List Fetch → Option LineResult
read_loop n got [] = none
read_loop n got (Fetch.interrupted ∷ fetches) = read_loop n got fetches
read_loop n got (Fetch.failed ∷ fetches) = some LineResult.failed
read_loop n got (Fetch.end_of_file ∷ fetches) = some (line_or_nothing got)
read_loop n got (Fetch.byte ch ∷ fetches) =
    let more = read_loop n (keep n got ch) fetches in
    if ch == 10 then some (LineResult.line got) else more

unfoldable pub read_line : ℕ → List Fetch → Option LineResult
read_line n fetches =
    let read = read_loop n [] fetches in if n == 0 then some LineResult.failed else read

abbrev pub default_split_count : ℕ
default_split_count = 3

abbrev pub max_split_count : ℕ
max_split_count = 10

-- The number of parts, within its bounds.
abbrev pub part_count : ℕ → ℕ
part_count count =
    let wanted = if count == 0 then default_split_count else count in
    if ltb max_split_count wanted then max_split_count else wanted

-- `while (!temp)` on what `rand` gives; `none` is a loop that does not end.
unfoldable pub draw : ℕ → List ℕ → Option (ℕ × List ℕ)
draw average [] = none
draw average (r ∷ rands) =
    let again = draw average rands in if r % average == 0 then again else some (r % average, rands)

unfoldable pub draw_parts : ℕ → ℕ → List ℕ → Option (List ℕ)
draw_parts zero average rands = some []
draw_parts (suc n) average rands = do
  drawn ← draw average rands
  rest ← draw_parts n average drawn.1
  some (drawn.0 ∷ rest)

unfoldable pub sum : List ℕ → ℕ
sum [] = 0
sum (x ∷ xs) = x + sum xs

-- The parts, `[]` where the result is left as it is; `none` is also a remainder by 0.
unfoldable pub split_ont_size_to_multi_parts : ℕ → ℕ → List ℕ → Option (List ℕ)
split_ont_size_to_multi_parts size count rands =
    let parts = part_count count in
    let average = size / parts in
    let drawn = draw_parts (parts - 1) average rands in
    if size == 0
    then some []
    else if (average == 0) && not (parts == 1)
    then none
    else (do temps ← drawn; some (temps ++ (size_sub size (sum temps) ∷ [])))

-- `find_last_of("/")`, with the text before it and behind it.
unfoldable pub last_slash : List ℕ → Option (List ℕ × List ℕ)
last_slash [] = none
last_slash (x ∷ xs) = elim (last_slash xs) [
  | some (directory, file) ↦ some (x ∷ directory, file)
  | none ↦ if x == 47 then some ([], xs) else none
]

abbrev pub or_here : List ℕ → Option (List ℕ × List ℕ) → List ℕ × List ℕ
or_here path none = (46 ∷ [], path)
or_here path (some found) = found

unfoldable pub parse_file_path : List ℕ → List ℕ × List ℕ
parse_file_path path = or_here path (last_slash path)

abbrev pub is_alpha : ℕ → Bool
is_alpha c = (leb 65 c && leb c 90) || (leb 97 c && leb c 122)

-- `char` is signed: a byte from 128 on is negative.
abbrev pub is_positive : ℕ → Bool
is_positive c = ltb 0 c && ltb c 128

abbrev pub same_letter : ℕ → ℕ → Bool
same_letter a b = (a == b) || ((is_alpha a && is_alpha b) && ((a - b == 32) || (b - a == 32)))

unfoldable pub strinstr : List ℕ → List ℕ → ℕ
strinstr [] s2 = 0
strinstr (a ∷ s1) [] = 0
strinstr (a ∷ s1) (b ∷ s2) =
    let rest = strinstr s1 s2 in
    if (is_positive a && is_positive b) && same_letter a b then suc rest else 0
