-- ===== src/ContainerId.antt =====
-- ExtractContainerIDFromCgroup, IsContainerID and GetContainerID (collector/lib/Utility.cpp): the
-- container of a process, from the paths of its cgroups. A string is the list of its characters' codes.
pub mod Laws
use collector.Prelude.{
  ℕ, zero, suc, ◌+◌, ◌-◌, Bool, true, false, ◌&&◌, ◌||◌, not, Option, none, some, List, [], ◌∷◌,
  ltb, leb, ◌==◌, if◌then◌else◌, length, take, drop,
}

abbrev pub container_id_length : ℕ
container_id_length = 64

abbrev pub short_container_id_length : ℕ
short_container_id_length = 12

-- ".scope" and "-conmon".
abbrev pub scope_suffix : List ℕ
scope_suffix = 46 ∷ 115 ∷ 99 ∷ 111 ∷ 112 ∷ 101 ∷ []

abbrev pub conmon_suffix : List ℕ
conmon_suffix = 45 ∷ 99 ∷ 111 ∷ 110 ∷ 109 ∷ 111 ∷ 110 ∷ []

-- isxdigit
abbrev pub is_xdigit : ℕ → Bool
is_xdigit c = (leb 48 c && leb c 57) || ((leb 65 c && leb c 70) || (leb 97 c && leb c 102))

abbrev pub all_xdigits : List ℕ → Bool
all_xdigits [] = true
all_xdigits (c ∷ rest) = is_xdigit c && all_xdigits rest

unfoldable pub is_container_id : List ℕ → Bool
is_container_id str = if not (length str == container_id_length) then false else all_xdigits str

-- Whether a string starts with a pattern, and the last position at which it does (rfind).
unfoldable pub starts_with : List ℕ → List ℕ → Bool
starts_with [] str = true
starts_with (p ∷ pattern) [] = false
starts_with (p ∷ pattern) (c ∷ str) = p == c && starts_with pattern str

abbrev pub next_position : Option ℕ → Bool → Option ℕ
next_position none here = if here then some 0 else none
next_position (some i) here = some (suc i)

unfoldable pub rfind : List ℕ → List ℕ → Option ℕ
unfolding starts_with
rfind pattern [] = if starts_with pattern [] then some 0 else none
rfind pattern (c ∷ str) = next_position (rfind pattern str) (starts_with pattern (c ∷ str))

-- find("-conmon", size - 7): no match fits but the one at that position, and none if the string is
-- shorter, since the position wraps around then.
unfoldable pub is_conmon : List ℕ → Bool
unfolding starts_with
is_conmon str =
    if ltb (length str) 7 then false else starts_with conmon_suffix (drop (length str - 7) str)

abbrev pub is_separator : ℕ → Bool
is_separator c = c == 47 || (c == 45 || c == 58)

-- The checks on the last 65 characters and on what stands before them.
unfoldable pub id_after : List ℕ → List ℕ → Option (List ℕ)
unfolding is_conmon is_container_id
id_after rest [] = none
id_after rest (separator ∷ id) =
    if not (is_separator separator)
    then none
    else if is_conmon rest
    then none
    else if not (is_container_id id)
    then none
    else some (take short_container_id_length id)

-- From the substr on, for a string of more than 64 characters.
unfoldable pub from_end : List ℕ → Option (List ℕ)
unfolding id_after
from_end cgroup =
    let position = length cgroup - (container_id_length + 1) in
    id_after (take position cgroup) (drop position cgroup)

unfoldable pub extract_container_id_from_cgroup : List ℕ → Option (List ℕ)
unfolding rfind from_end
extract_container_id_from_cgroup cgroup =
    if ltb (length cgroup) (container_id_length + 1)
    then none
    else elim (rfind scope_suffix cgroup) [
      | none ↦ from_end cgroup
      | some scope ↦
          if ltb (length (take scope cgroup)) (container_id_length + 1)
          then none
          else from_end (take scope cgroup)
    ]

-- GetContainerID of a thread's cgroups: the empty string if none has an id.
unfoldable pub get_container_id : List (List ℕ) → List ℕ
get_container_id [] = []
get_container_id (cgroup_path ∷ rest) = elim (extract_container_id_from_cgroup cgroup_path) [
  | some id ↦ id
  | none ↦ get_container_id rest
]
