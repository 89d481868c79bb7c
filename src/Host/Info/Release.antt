-- ===== src/Host/Info/Release.antt =====
-- filterForKey (collector/lib/HostInfo.cpp) on a file of keys and quoted values.
use collector.Prelude.{
  ℕ, suc, ◌+◌, ◌-◌, ◌≡◌, refl, ap, ◌∙◌, true, false, List, [], ◌∷◌, ◌++◌, map, arith, if◌then◌else◌,
  length, length-append, take, drop, Bool-cases, inl, inr,
}
use collector.Prelude.Text.{text_eq, is_nil}
use collector.Procfs.Fields.{getlines, getlines_from}
use collector.Procfs.Fields.Lines.{lacks, index_of-append, getlines_from-append}
use collector.Procfs.Links.Laws.{last_char-append}
use collector.Host.Info.{Result, strip_quotes, filter_lines, filter_for_key}

-- "<key>="<value>""
abbrev pub print_entry : List ℕ × List ℕ → List ℕ
print_entry (key, value) = key ++ b'=' ∷ b'"' ∷ (value ++ b'"' ∷ [])

abbrev pub print_entries : List (List ℕ × List ℕ) → List ℕ
print_entries [] = []
print_entries (e ∷ entries) = print_entry e ++ b'\n' ∷ print_entries entries

abbrev pub AreEntries : List (List ℕ × List ℕ) → Type 0
AreEntries [] = Unit
AreEntries ((key, value) ∷ entries) =
    ((lacks b'=' key ≡ true) × (lacks b'\n' (print_entry (key, value)) ≡ true)) × AreEntries entries

-- The value of the first entry of a key, or the empty text.
abbrev pub value_of : List ℕ → List (List ℕ × List ℕ) → List ℕ
value_of name [] = []
value_of name ((key, value) ∷ entries) = if text_eq key name then value else value_of name entries

take-append : (xs ys : List ℕ) → take (length xs) (xs ++ ys) ≡ xs
take-append [] ys = refl
take-append (x ∷ xs) ys = ap (λ l. x ∷ l) (take-append xs ys)

drop_one_more : (xs ys : List ℕ) (c : ℕ) → drop (length xs + 1) (xs ++ c ∷ ys) ≡ ys
drop_one_more [] ys c = refl
drop_one_more (x ∷ xs) ys c =
    let e : suc (length xs) + 1 ≡ suc (length xs + 1) = omega arith in rw e (drop_one_more xs ys c)

is_nil-append : (xs : List ℕ) (c : ℕ) → is_nil (xs ++ c ∷ []) ≡ false
is_nil-append [] c = refl
is_nil-append (x ∷ xs) c = refl

strip_quotes-quoted :
    (value : List ℕ) → strip_quotes (b'"' ∷ (value ++ b'"' ∷ [])) ≡ Result.returns value
unfolding strip_quotes
strip_quotes-quoted value =
    let size : length (value ++ b'"' ∷ []) - 1 ≡ length value =
      omega (arith, length-append value (b'"' ∷ [])) in
    rw (is_nil-append value b'"', last_char-append value b'"', size, take-append value (b'"' ∷ []))
      refl

getlines-print_entries :
    (entries : List (List ℕ × List ℕ))
    → AreEntries entries
    → getlines (print_entries entries) ≡ map print_entry entries
unfolding getlines getlines_from
getlines-print_entries [] h = refl
getlines-print_entries (e ∷ entries) h =
    getlines_from-append [] (print_entry e) (print_entries entries) h.0.1
    ∙ ap (λ l. print_entry e ∷ l) (getlines-print_entries entries h.1)

filter_lines-entries :
    (name : List ℕ) (entries : List (List ℕ × List ℕ))
    → AreEntries entries
    → filter_lines (map print_entry entries) name ≡ Result.returns (value_of name entries)
unfolding filter_lines
filter_lines-entries name [] h = refl
filter_lines-entries name ((key, value) ∷ entries) h =
    let text = b'"' ∷ (value ++ b'"' ∷ []) in
    elim (Bool-cases (text_eq key name)) [
      | inl same ↦
          rw
            (
              filter_lines,
              index_of-append b'=' key text h.0.0,
              take-append key (b'=' ∷ text),
              same,
              drop_one_more key text b'=',
            )
            (strip_quotes-quoted value)
      | inr other ↦
          rw
            (
              filter_lines,
              index_of-append b'=' key text h.0.0,
              take-append key (b'=' ∷ text),
              other,
            )
            (filter_lines-entries name entries h.1)
    ]

-- In a file of keys without '=' and quoted values, an entry a line, the value of a key is that of its
-- first entry, without the quotes; there is no other outcome.
pub filter_for_key-print_entries :
    (name : List ℕ) (entries : List (List ℕ × List ℕ))
    → AreEntries entries
    → filter_for_key (print_entries entries) name ≡ Result.returns (value_of name entries)
unfolding filter_for_key
filter_for_key-print_entries name entries h =
    rw (getlines-print_entries entries h) (filter_lines-entries name entries h)
