-- ===== src/ProcessSignal/Lineage.antt =====
-- GetProcessLineage (collector/lib/ProcessSignalFormatter.cpp). The threads that traverse_parent_state of the
-- sinsp library visits one after the other are a parameter; a null pointer is `none`.
use collector.Prelude.{
  ℕ, zero, suc, ◌+◌, ◌-◌, ◌<◌, ◌≡◌, refl, ap, ◌∙◌, sym, Bool, true, false, not, Option, none, some,
  List, [], ◌∷◌, ◌++◌, arith, leb, ◌==◌, if◌then◌else◌, length, length-append, take, Bool-cases,
  inl, inr,
}
use mathlib.Core.List.{append-nil, append_assoc}
use collector.Prelude.Int.{ℤ, pos, negsuc}
use collector.Prelude.Text.{text_eq, is_nil}

-- A thread on the way to the root. `container_id` is what GetContainerID finds in its cgroups.
pub record Ancestor : Type 0 where
  pub pid : ℤ
  pub vpid : ℤ
  pub uid : ℕ
  pub exepath : List ℕ
  pub container_id : List ℕ

pub record LineageInfo : Type 0 where
  pub parent_uid : ℕ
  pub parent_exec_file_path : List ℕ

abbrev pub max_lineage : ℕ
max_lineage = 10

abbrev pub int_eq : ℤ → ℤ → Bool
int_eq (ℤ.pos n) (ℤ.pos m) = n == m
int_eq (ℤ.negsuc n) (ℤ.negsuc m) = n == m
int_eq _ _ = false

-- Whether the visitor goes on to the path of a thread: there is one, and it is inside of the container.
unfoldable pub goes_on : Option Ancestor → Bool
goes_on none = false
goes_on (some pt) =
    if int_eq pt.pid (pos 0)
    then false
    else if (if int_eq pt.vpid (pos 0) then is_nil pt.container_id else int_eq pt.pid pt.vpid)
    then false
    else if int_eq pt.vpid (negsuc 0)
    then false
    else true

-- lineage.back().parent_exec_file_path() == path, or false if there is no last one.
unfoldable pub back_has : List ℕ → List LineageInfo → Bool
back_has path [] = false
back_has path (l ∷ []) = text_eq l.parent_exec_file_path path
back_has path (l ∷ k ∷ lineage) = back_has path (k ∷ lineage)

abbrev pub info_of : Ancestor → LineageInfo
info_of pt = record { parent_uid = pt.uid; parent_exec_file_path = pt.exepath }

-- The lineage after a thread inside of the container.
unfoldable pub push_info : Ancestor → List LineageInfo → List LineageInfo
push_info pt lineage = if back_has pt.exepath lineage then lineage else lineage ++ info_of pt ∷ []

-- The visitor: whether to go on, and the lineage.
unfoldable pub visit : Option Ancestor → List LineageInfo → Bool × List LineageInfo
visit none lineage = (false, lineage)
visit (some pt) lineage =
    if not (goes_on (some pt))
    then (false, lineage)
    else (not (leb max_lineage (length (push_info pt lineage))), push_info pt lineage)

unfoldable pub traverse : List (Option Ancestor) → List LineageInfo → List LineageInfo
traverse [] lineage = lineage
traverse (pt ∷ rest) lineage = elim (visit pt lineage).0 [
  | true ↦ traverse rest (visit pt lineage).1
  | false ↦ (visit pt lineage).1
]

-- A thread, as far as its lineage goes: `main` is none if it is not a main thread and has none.
abbrev pub Thread : Type 0
Thread = Option (List (Option Ancestor))

unfoldable pub get_process_lineage : Option Thread → List LineageInfo
get_process_lineage none = []
get_process_lineage (some none) = []
get_process_lineage (some (some parents)) = traverse parents []

-- The threads before the first that is outside of the container.
abbrev pub inside : List (Option Ancestor) → List Ancestor
inside [] = []
inside (none ∷ rest) = []
inside (some pt ∷ rest) = if goes_on (some pt) then pt ∷ inside rest else []

-- Of neighbours with one path only the first; `before` is the path in front of the list, if any.
abbrev pub same_path : Option (List ℕ) → List ℕ → Bool
same_path none path = false
same_path (some before) path = text_eq before path

abbrev pub collapse : Option (List ℕ) → List Ancestor → List LineageInfo
collapse before [] = []
collapse before (pt ∷ rest) =
    if same_path before pt.exepath
    then collapse before rest
    else info_of pt ∷ collapse (some pt.exepath) rest

abbrev last_path : List LineageInfo → Option (List ℕ)
last_path [] = none
last_path (l ∷ []) = some l.parent_exec_file_path
last_path (l ∷ k ∷ lineage) = last_path (k ∷ lineage)

back_has-last_path :
    (path : List ℕ) (lineage : List LineageInfo)
    → back_has path lineage ≡ same_path (last_path lineage) path
unfolding back_has
back_has-last_path path [] = refl
back_has-last_path path (l ∷ []) = refl
back_has-last_path path (l ∷ k ∷ lineage) = back_has-last_path path (k ∷ lineage)

last_path-append :
    (lineage : List LineageInfo) (l : LineageInfo)
    → last_path (lineage ++ l ∷ []) ≡ some l.parent_exec_file_path
last_path-append [] l = refl
last_path-append (k ∷ []) l = refl
last_path-append (k ∷ j ∷ lineage) l = last_path-append (j ∷ lineage) l

append-take_nil :
    (n : ℕ) (lineage : List LineageInfo) → lineage ≡ lineage ++ take {A = LineageInfo} n []
append-take_nil zero lineage = sym (append-nil lineage)
append-take_nil (suc n) lineage = sym (append-nil lineage)

-- What a thread inside of the container adds, by whether its path is the last one.
push_info-same :
    (pt : Ancestor) (lineage : List LineageInfo)
    → same_path (last_path lineage) pt.exepath ≡ true
    → push_info pt lineage ≡ lineage
unfolding push_info
push_info-same pt lineage h = rw (back_has-last_path pt.exepath lineage, h) refl

push_info-new :
    (pt : Ancestor) (lineage : List LineageInfo)
    → same_path (last_path lineage) pt.exepath ≡ false
    → push_info pt lineage ≡ lineage ++ info_of pt ∷ []
unfolding push_info
push_info-new pt lineage h = rw (back_has-last_path pt.exepath lineage, h) refl

length-snoc :
    (lineage : List LineageInfo) (l : LineageInfo) → length (lineage ++ l ∷ []) ≡ length lineage + 1
length-snoc lineage l = length-append lineage (l ∷ [])

visit-out :
    (pt : Ancestor) (lineage : List LineageInfo)
    → goes_on (some pt) ≡ false
    → visit (some pt) lineage ≡ (false, lineage)
unfolding visit
visit-out pt lineage h = rw h refl

visit-in :
    (pt : Ancestor) (lineage : List LineageInfo)
    → goes_on (some pt) ≡ true
    → visit (some pt) lineage
      ≡ (not (leb max_lineage (length (push_info pt lineage))), push_info pt lineage)
unfolding visit
visit-in pt lineage h = rw h refl

traverse_from : List (Option Ancestor) → Bool × List LineageInfo → List LineageInfo
traverse_from rest r = elim r.0 [ true ↦ traverse rest r.1 | false ↦ r.1 ]

traverse-out :
    (pt : Ancestor) (rest : List (Option Ancestor)) (lineage : List LineageInfo)
    → goes_on (some pt) ≡ false
    → traverse (some pt ∷ rest) lineage ≡ lineage
unfolding traverse traverse_from
traverse-out pt rest lineage h = ap (traverse_from rest) (visit-out pt lineage h)

traverse-full :
    (pt : Ancestor) (rest : List (Option Ancestor)) (lineage after : List LineageInfo)
    → goes_on (some pt) ≡ true
    → push_info pt lineage ≡ after
    → leb max_lineage (length after) ≡ true
    → traverse (some pt ∷ rest) lineage ≡ after
unfolding traverse traverse_from
traverse-full pt rest lineage after h e full =
    let full_after : leb max_lineage (length (push_info pt lineage)) ≡ true = rw e full in
    ap (traverse_from rest) (visit-in pt lineage h) ∙ rw full_after e

traverse-further :
    (pt : Ancestor) (rest : List (Option Ancestor)) (lineage after : List LineageInfo)
    → goes_on (some pt) ≡ true
    → push_info pt lineage ≡ after
    → leb max_lineage (length after) ≡ false
    → traverse (some pt ∷ rest) lineage ≡ traverse rest after
unfolding traverse traverse_from
traverse-further pt rest lineage after h e room =
    let room_after : leb max_lineage (length (push_info pt lineage)) ≡ false = rw e room in
    ap (traverse_from rest) (visit-in pt lineage h) ∙ rw room_after (ap (traverse rest) e)

-- What the walk adds to a lineage: as many of the collapsed threads as there is room for.
abbrev with_ancestors : List (Option Ancestor) → List LineageInfo → List LineageInfo
with_ancestors ancestors lineage =
    lineage ++ take (max_lineage - length lineage) (collapse (last_path lineage) (inside ancestors))

traverse-new :
    (pt : Ancestor) (rest : List (Option Ancestor)) (lineage : List LineageInfo)
    → length lineage < max_lineage
    → goes_on (some pt) ≡ true
    → same_path (last_path lineage) pt.exepath ≡ false
    → ((after : List LineageInfo)
        → length after < max_lineage
        → traverse rest after ≡ with_ancestors rest after)
    → traverse (some pt ∷ rest) lineage ≡ with_ancestors (some pt ∷ rest) lineage
traverse-new pt rest lineage h in_container new rest_of =
    let after = lineage ++ info_of pt ∷ [] in
    let one_more = length-snoc lineage (info_of pt) in
    let tail = collapse (some pt.exepath) (inside rest) in
    let room : max_lineage - length lineage ≡ suc (max_lineage - length after) =
      omega (arith, one_more, h) in
    elim (Bool-cases (leb max_lineage (length after))) [
      | inl full ↦
          let none_left : max_lineage - length after ≡ 0 = ground (arith, full) in
          rw
            (
              traverse-full pt rest lineage after in_container (push_info-new pt lineage new) full,
              room,
              none_left,
              in_container,
              new,
            )
            refl
      | inr more ↦
          rw
            (
              traverse-further pt rest lineage after in_container (push_info-new pt lineage new)
                  more,
              rest_of after (ground (arith, more)),
              room,
              in_container,
              new,
              last_path-append lineage (info_of pt),
            )
            (append_assoc lineage (info_of pt ∷ []) (take (max_lineage - length after) tail))
    ]

traverse-with_ancestors :
    (ancestors : List (Option Ancestor)) (lineage : List LineageInfo)
    → length lineage < max_lineage
    → traverse ancestors lineage ≡ with_ancestors ancestors lineage
unfolding traverse visit
traverse-with_ancestors [] lineage h = append-take_nil (max_lineage - length lineage) lineage
traverse-with_ancestors (none ∷ rest) lineage h =
    append-take_nil (max_lineage - length lineage) lineage
traverse-with_ancestors (some pt ∷ rest) lineage h = elim (Bool-cases (goes_on (some pt))) [
  | inr out ↦
      rw (traverse-out pt rest lineage out, out)
        (append-take_nil (max_lineage - length lineage) lineage)
  | inl in_container ↦ elim (Bool-cases (same_path (last_path lineage) pt.exepath)) [
    | inl same ↦
        rw
          (
            traverse-further pt rest lineage lineage in_container (push_info-same pt lineage same)
                (ground (arith, h)),
            in_container,
            same,
          )
          (traverse-with_ancestors rest lineage h)
    | inr new ↦ traverse-new pt rest lineage h in_container new (traverse-with_ancestors rest)
  ]
]

-- The lineage of a process is that of its first ancestors inside of the container, of neighbours with one
-- path only the nearest, up to ten of them.
pub get_process_lineage-first_ten :
    (parents : List (Option Ancestor))
    → get_process_lineage (some (some parents)) ≡ take max_lineage (collapse none (inside parents))
unfolding get_process_lineage
get_process_lineage-first_ten parents = traverse-with_ancestors parents [] (omega arith)
