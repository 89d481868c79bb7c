-- ===== src/Procfs/Fields.antt =====
-- The string helpers of collector/lib/ProcfsScraper.cpp, and what that file uses of the C and C++
-- libraries: isspace, find, strtoumax, fgets and getline. A `char*` into a NUL-terminated buffer is the
-- text from it to the terminator, where it reads NUL. Its distance to `endp` is the length of that text
-- and a number that stays the same while the pointer moves, the `slack` of the buffer.
pub mod Laws
pub mod Lines
use collector.Prelude.{
  ℕ, zero, suc, ◌+◌, ◌-◌, ◌*◌, ◌^◌, Bool, true, false, ◌&&◌, ◌||◌, not, Option, none, some, List,
  [], ◌∷◌, ◌++◌, ltb, leb, ◌==◌, if◌then◌else◌, length, drop,
}
use collector.KeyMap.{and_then}

-- *p
abbrev pub peek : List ℕ → ℕ
peek [] = 0
peek (c ∷ rest) = c

-- std::isspace and std::isdigit
unfoldable pub isspace : ℕ → Bool
isspace c = c == 32 || leb 9 c && leb c 13

unfoldable pub isdigit : ℕ → Bool
isdigit c = leb 48 c && leb c 57

-- str.find(c)
unfoldable pub index_of : ℕ → List ℕ → Option ℕ
index_of c [] = none
index_of c (x ∷ str) = if x == c then some 0 else and_then (index_of c str) (λ i. some (suc i))

-- str.find(c, pos)
unfoldable pub find_from : List ℕ → ℕ → ℕ → Option ℕ
unfolding index_of
find_from str c pos = and_then (index_of c (drop pos str)) (λ i. some (pos + i))

-- The loop of rep_find, for n more finds after the ones before pos.
unfoldable pub rep_find_from : ℕ → List ℕ → ℕ → ℕ → Option ℕ
unfolding find_from
rep_find_from zero str c pos = find_from str c pos
rep_find_from (suc n) str c pos =
    and_then (find_from str c pos) (λ found. rep_find_from n str c (found + 1))

unfoldable pub rep_find : ℕ → List ℕ → ℕ → Option ℕ
unfolding rep_find_from
rep_find zero str c = none
rep_find (suc n) str c = rep_find_from n str c 0

-- p < endp - ahead
abbrev pub before_end : ℕ → ℕ → List ℕ → Bool
before_end slack ahead p = ltb ahead (length p + slack)

-- The two loops of nextfield. The second one moves on before it looks at a character.
unfoldable pub skip_word : ℕ → List ℕ → List ℕ
unfolding isspace
skip_word slack [] = []
skip_word slack (c ∷ p) =
    if before_end slack 0 (c ∷ p) && (not (c == 0) && not (isspace c))
    then skip_word slack p
    else c ∷ p

unfoldable pub skip_spaces : ℕ → List ℕ → List ℕ
unfolding isspace
skip_spaces slack [] = []
skip_spaces slack (c ∷ p) =
    let further = skip_spaces slack p in
    if not (before_end slack 0 (c ∷ p) && not (c == 0))
    then c ∷ p
    else if isspace (peek p)
    then further
    else p

unfoldable pub nextfield : ℕ → List ℕ → Option (List ℕ)
unfolding skip_word skip_spaces
nextfield slack p =
    let next = skip_spaces slack (skip_word slack p) in
    if before_end slack 0 next && not (peek next == 0) then some next else none

unfoldable pub rep_nextfield : ℕ → ℕ → List ℕ → Option (List ℕ)
unfolding nextfield
rep_nextfield slack zero p = some p
rep_nextfield slack (suc n) p = and_then (nextfield slack p) (rep_nextfield slack n)

-- while (std::isspace(*p)) p++
unfoldable pub strip_spaces : List ℕ → List ℕ
unfolding isspace
strip_spaces [] = []
strip_spaces (c ∷ p) = if isspace c then strip_spaces p else c ∷ p

-- The digits of strtoumax: their value after the value of the digits before, and the rest.
unfoldable pub read_digits : ℕ → List ℕ → ℕ × List ℕ
unfolding isdigit
read_digits value [] = (value, [])
read_digits value (c ∷ p) =
    if isdigit c then read_digits (value * 10 + (c - 48)) p else (value, c ∷ p)

-- What strtoumax makes of a sign and digits, of which there is one or more.
unfoldable pub signed_digits : Bool → List ℕ → ℕ × List ℕ
unfolding read_digits
signed_digits negative p =
    let (value, rest) = read_digits 0 p in
    (
      if leb (2 ^ 64) value
          then 2 ^ 64 - 1
          else if negative && not (value == 0)
          then 2 ^ 64 - value
          else value,
      rest,
    )

-- strtoumax(p, &endp, 10): the number, and the text from endp on, which is p if there is no number.
unfoldable pub strtoumax : List ℕ → ℕ × List ℕ
unfolding signed_digits strip_spaces isdigit
strtoumax p =
    let text = strip_spaces p in
    let signed = peek text == b'-' || peek text == b'+' in
    let digits = if signed then drop 1 text else text in
    if isdigit (peek digits) then signed_digits (peek text == b'-') digits else (0, p)

-- What a pending text adds to the lines after it.
abbrev pub flush : List ℕ → List (List ℕ) → List (List ℕ)
flush [] lines = lines
flush (c ∷ line) lines = (c ∷ line) ∷ lines

-- The strings that fgets(line, size, f) returns one after the other, for `most` = size - 1: a line with
-- its newline, or as much of it as fits. `room` characters fit after those of `line`.
unfoldable pub fgets_from : ℕ → ℕ → List ℕ → List ℕ → List (List ℕ)
fgets_from most room line [] = flush line []
fgets_from most room line (c ∷ content) = elim (c == b'\n' || leb room 1) [
  | true ↦ (line ++ c ∷ []) ∷ fgets_from most most [] content
  | false ↦ fgets_from most (room - 1) (line ++ c ∷ []) content
]

unfoldable pub fgets_all : ℕ → List ℕ → List (List ℕ)
unfolding fgets_from
fgets_all size content = fgets_from (size - 1) (size - 1) [] content

-- The lines that getline returns, without their newlines.
unfoldable pub getlines_from : List ℕ → List ℕ → List (List ℕ)
getlines_from line [] = flush line []
getlines_from line (c ∷ content) = elim (c == b'\n') [
  | true ↦ line ∷ getlines_from [] content
  | false ↦ getlines_from (line ++ c ∷ []) content
]

unfoldable pub getlines : List ℕ → List (List ℕ)
unfolding getlines_from
getlines content = getlines_from [] content
