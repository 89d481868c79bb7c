-- ===== src/Procfs/Fields/Lines.antt =====
-- The lines and parts of a text (find and getline, as collector/lib/ProcfsScraper.cpp and
-- collector/lib/HostInfo.cpp use them).
use collector.Prelude.{
  ℕ, ◌≡◌, ap, ◌∙◌, sym, Bool, true, ◌&&◌, not, some, List, [], ◌∷◌, ◌++◌, arith, ◌==◌, length,
}
use mathlib.Core.List.{append-nil, append_assoc}
use collector.Procfs.Fields.{index_of, getlines_from}

abbrev pub lacks : ℕ → List ℕ → Bool
lacks c [] = true
lacks c (x ∷ str) = not (x == c) && lacks c str

pub index_of-append :
    (c : ℕ) (xs ys : List ℕ) → lacks c xs ≡ true → index_of c (xs ++ c ∷ ys) ≡ some (length xs)
unfolding index_of
index_of-append c [] ys h = ground arith
index_of-append c (x ∷ xs) ys h = ground (arith, index_of-append c xs ys)

pub getlines_from-append :
    (line l rest : List ℕ)
    → lacks b'\n' l ≡ true
    → getlines_from line (l ++ b'\n' ∷ rest) ≡ (line ++ l) ∷ getlines_from [] rest
unfolding getlines_from
getlines_from-append line [] rest h = ap (λ m. m ∷ getlines_from [] rest) (sym (append-nil line))
getlines_from-append line (c ∷ l) rest h =
    let further =
      getlines_from-append (line ++ c ∷ []) l rest (ground (arith, h))
      ∙ ap (λ m. m ∷ getlines_from [] rest) (append_assoc line (c ∷ []) l) in
    ground (arith, h, further)
