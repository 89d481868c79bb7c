-- ===== src/Procfs/Links/Cgroups.antt =====
-- The container of a process (collector/lib/ProcfsScraper.cpp), from its cgroups as Linux lists them.
use collector.Prelude.{
  ℕ, suc, ◌+◌, ◌≡◌, refl, ap, ◌∙◌, true, Option, none, some, List, [], ◌∷◌, ◌++◌, map, arith,
  length, drop,
}
use collector.ContainerId.{extract_container_id_from_cgroup, get_container_id}
use collector.Procfs.Fields.{find_from, rep_find, rep_find_from, getlines, getlines_from}
use collector.Procfs.Links.{extract_container_id, lines_container_id, dir_container_id}
use collector.Procfs.Fields.Lines.{lacks, index_of-append, getlines_from-append}

-- "<hierarchy>:<controllers>:<path>"
abbrev pub print_cgroup : List ℕ × List ℕ × List ℕ → List ℕ
print_cgroup (hierarchy, controllers, path) = hierarchy ++ b':' ∷ (controllers ++ b':' ∷ path)

abbrev pub IsCgroup : List ℕ × List ℕ × List ℕ → Type 0
IsCgroup (hierarchy, controllers, path) =
    (lacks b':' hierarchy ≡ true)
    × (lacks b':' controllers ≡ true)
    × (lacks b'\n' (print_cgroup (hierarchy, controllers, path)) ≡ true)

drop_one_more : (xs ys : List ℕ) (c : ℕ) → drop (length xs + 1) (xs ++ c ∷ ys) ≡ ys
drop_one_more [] ys c = refl
drop_one_more (x ∷ xs) ys c =
    let e : suc (length xs) + 1 ≡ suc (length xs + 1) = omega arith in rw e (drop_one_more xs ys c)

drop_sum : (xs ys : List ℕ) (c n : ℕ) → drop (length xs + 1 + n) (xs ++ c ∷ ys) ≡ drop n ys
drop_sum [] ys c n = let e : 0 + 1 + n ≡ suc n = omega arith in rw e refl
drop_sum (x ∷ xs) ys c n =
    let e : suc (length xs) + 1 + n ≡ suc (length xs + 1 + n) = omega arith in
    rw e (drop_sum xs ys c n)

rep_find-cgroup :
    (hierarchy controllers path : List ℕ)
    → lacks b':' hierarchy ≡ true
    → lacks b':' controllers ≡ true
    → rep_find 2 (print_cgroup (hierarchy, controllers, path)) b':'
      ≡ some (length hierarchy + 1 + length controllers)
unfolding rep_find rep_find_from find_from
rep_find-cgroup hierarchy controllers path h k =
    let e : 0 + length hierarchy + 1 ≡ length hierarchy + 1 = omega arith in
    rw
      (
        index_of-append b':' hierarchy (controllers ++ b':' ∷ path) h,
        e,
        drop_one_more hierarchy (controllers ++ b':' ∷ path) b':',
        index_of-append b':' controllers path k,
      )
      refl

pub extract_container_id-cgroup :
    (hierarchy controllers path : List ℕ)
    → lacks b':' hierarchy ≡ true
    → lacks b':' controllers ≡ true
    → extract_container_id (print_cgroup (hierarchy, controllers, path))
      ≡ extract_container_id_from_cgroup path
unfolding extract_container_id
extract_container_id-cgroup hierarchy controllers path h k =
    let e : length hierarchy + 1 + length controllers + 1
        ≡ length hierarchy + 1 + (length controllers + 1) =
      omega arith in
    rw
      (
        rep_find-cgroup hierarchy controllers path h k,
        e,
        drop_sum hierarchy (controllers ++ b':' ∷ path) b':' (length controllers + 1),
        drop_one_more controllers path b':',
      )
      refl

abbrev pub print_cgroups : List (List ℕ × List ℕ × List ℕ) → List ℕ
print_cgroups [] = []
print_cgroups (cgroup ∷ cgroups) = print_cgroup cgroup ++ b'\n' ∷ print_cgroups cgroups

abbrev pub AreCgroups : List (List ℕ × List ℕ × List ℕ) → Type 0
AreCgroups [] = Unit
AreCgroups (cgroup ∷ cgroups) = IsCgroup cgroup × AreCgroups cgroups

getlines-print_cgroups :
    (cgroups : List (List ℕ × List ℕ × List ℕ))
    → AreCgroups cgroups
    → getlines (print_cgroups cgroups) ≡ map print_cgroup cgroups
unfolding getlines getlines_from
getlines-print_cgroups [] h = refl
getlines-print_cgroups (cgroup ∷ cgroups) h =
    getlines_from-append [] (print_cgroup cgroup) (print_cgroups cgroups) h.0.2
    ∙ ap (λ l. print_cgroup cgroup ∷ l) (getlines-print_cgroups cgroups h.1)

abbrev pub or_empty : Option (List ℕ) → List ℕ
or_empty none = []
or_empty (some id) = id

lines_container_id-cgroups :
    (cgroups : List (List ℕ × List ℕ × List ℕ))
    → AreCgroups cgroups
    → or_empty (lines_container_id (map print_cgroup cgroups))
      ≡ get_container_id (map (λ c. c.2) cgroups)
unfolding lines_container_id get_container_id
lines_container_id-cgroups [] h = refl
lines_container_id-cgroups ((hierarchy, controllers, path) ∷ cgroups) ((h, k, l), rest) = ground (
  arith,
  extract_container_id-cgroup hierarchy controllers path h k,
  lines_container_id-cgroups cgroups rest,
)

-- The scraper finds the same container for a process as the handler of its events does: the one of its
-- first cgroup that has an id in its path.
pub dir_container_id-get_container_id :
    (cgroups : List (List ℕ × List ℕ × List ℕ))
    → AreCgroups cgroups
    → or_empty (dir_container_id (some (print_cgroups cgroups)))
      ≡ get_container_id (map (λ c. c.2) cgroups)
unfolding dir_container_id
dir_container_id-get_container_id cgroups h =
    rw (getlines-print_cgroups cgroups h) (lines_container_id-cgroups cgroups h)
