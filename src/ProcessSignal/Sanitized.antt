-- ===== src/ProcessSignal/Sanitized.antt =====
-- SanitizedUTF8 (collector/lib/Utility.cpp). SpanStructurallyValid of the utf8_range library, the length
-- of the longest valid prefix of a text, is a parameter; what is relied on is that it is no longer than the
-- text and that the prefix is valid.
use collector.Prelude.{
  ℕ, zero, suc, ◌+◌, ◌≤◌, ◌≡◌, refl, ap, ◌∙◌, subst, true, Option, none, some, List, [], ◌∷◌, ◌++◌,
  arith, ◌==◌, if◌then◌else◌, length, take, drop, Bool-cases, inl, inr,
}

module _ (span : List ℕ → ℕ) where
  -- The loop, from the text that is left on: its valid prefix, and a '?' for the character after it. There
  -- are not more rounds than characters.
  unfoldable pub sanitize_from : ℕ → List ℕ → List ℕ
  sanitize_from zero str = str
  sanitize_from (suc fuel) str =
      let rest = sanitize_from fuel (drop (span str + 1) str) in
      if span str == length str then str else take (span str) str ++ b'?' ∷ rest

  -- A copy, if the text is not valid.
  unfoldable pub sanitized_utf8 : List ℕ → Option (List ℕ)
  sanitized_utf8 str =
      if span str == length str then none else some (sanitize_from (length str) str)

-- The value that is used: the copy, or the text itself.
abbrev pub sanitized_or : (List ℕ → ℕ) → List ℕ → List ℕ
sanitized_or span str = elim (sanitized_utf8 span str) [ none ↦ str | some s ↦ s ]

length-drop_one :
    (n : ℕ) (str : List ℕ) → n + 1 ≤ length str → length (drop (n + 1) str) + (n + 1) ≡ length str
length-drop_one n [] h = absurd (omega arith)
length-drop_one zero (c ∷ str) h = omega arith
length-drop_one (suc n) (c ∷ str) h =
    let e : suc n + 1 ≡ suc (n + 1) = omega arith in
    rw e (omega (arith, length-drop_one n str (omega arith)))

take-nil : (n : ℕ) → take {A = ℕ} n [] ≡ []
take-nil zero = refl
take-nil (suc n) = refl

take-all : (str : List ℕ) → take (length str) str ≡ str
take-all [] = refl
take-all (c ∷ str) = ap (λ s. c ∷ s) (take-all str)

-- What makes a text valid: the library's prefixes are, a question mark is, and so are texts one behind the
-- other.
pub record IsUtf8 (span : List ℕ → ℕ) (Valid : List ℕ → Type 0) : Type 0 where
  pub within : (str : List ℕ) → span str ≤ length str
  pub prefix : (str : List ℕ) → Valid (take (span str) str)
  pub mark : Valid (b'?' ∷ [])
  pub joined : (str other : List ℕ) → Valid str → Valid other → Valid (str ++ other)

module _ (span : List ℕ → ℕ) (Valid : List ℕ → Type 0) (utf8 : IsUtf8 span Valid) where
  whole : (str : List ℕ) → (span str == length str) ≡ true → Valid str
  whole str h =
      let e : span str ≡ length str = ground (arith, h) in
      subst Valid (ap (λ n. take n str) e ∙ take-all str) (utf8.prefix str)

  pub nil-Valid : Valid []
  nil-Valid = subst Valid (take-nil (span [])) (utf8.prefix [])

  sanitize_from-Valid :
      (fuel : ℕ) (str : List ℕ) → length str ≤ fuel → Valid (sanitize_from span fuel str)
  unfolding sanitize_from
  sanitize_from-Valid zero [] h = nil-Valid
  sanitize_from-Valid zero (c ∷ str) h = absurd (omega arith)
  sanitize_from-Valid (suc fuel) str h = elim (Bool-cases (span str == length str)) [
    | inl all ↦ rw all (whole str all)
    | inr part ↦
        let size = length-drop_one (span str) str (ground (arith, part, utf8.within str)) in
        rw part (
          utf8.joined (take (span str) str)
            (b'?' ∷ sanitize_from span fuel (drop (span str + 1) str)) (utf8.prefix str)
            (utf8.joined (b'?' ∷ []) (sanitize_from span fuel (drop (span str + 1) str)) utf8.mark
              (sanitize_from-Valid fuel (drop (span str + 1) str) (omega (arith, size, h)))))
  ]

  -- Whatever a text holds, what SanitizedUTF8 makes of it, or the text itself where it makes nothing, is
  -- valid.
  pub sanitized_or-Valid : (str : List ℕ) → Valid (sanitized_or span str)
  unfolding sanitized_utf8
  sanitized_or-Valid str = elim (Bool-cases (span str == length str)) [
    | inl all ↦ rw (sanitized_or, sanitized_utf8, all) (whole str all)
    | inr part ↦
        rw (sanitized_or, sanitized_utf8, part) (sanitize_from-Valid (length str) str (omega arith))
  ]
