-- ===== src/Procfs/Fields/Laws.antt =====
-- What the string helpers of collector/lib/ProcfsScraper.cpp do to fields with blanks between them.
use collector.Prelude.{
  ℕ, suc, ◌+◌, ◌-◌, ◌*◌, ◌^◌, ◌<◌, ◌≡◌, refl, ap, ◌∙◌, Bool, true, false, ◌&&◌, not, some, List, [],
  ◌∷◌, ◌++◌, arith, ◌==◌, length,
}
use collector.Procfs.Fields.{
  peek, isspace, isdigit, skip_word, skip_spaces, nextfield, rep_nextfield, strip_spaces,
  read_digits, signed_digits, strtoumax,
}

abbrev pub all_chars : (ℕ → Bool) → List ℕ → Bool
all_chars test [] = true
all_chars test (c ∷ str) = test c && all_chars test str

abbrev pub word_char : ℕ → Bool
word_char c = not (c == 0) && not (isspace c)

-- A word and a gap have one character or more.
pub record IsWord (w : List ℕ) : Type 0 where
  pub filled : word_char (peek w) ≡ true
  pub chars : all_chars word_char w ≡ true

pub record IsGap (b : List ℕ) : Type 0 where
  pub filled : isspace (peek b) ≡ true
  pub chars : all_chars isspace b ≡ true

pub peek-word : (w p : List ℕ) → word_char (peek w) ≡ true → peek (w ++ p) ≡ peek w
unfolding isspace
peek-word [] p h = ground arith
peek-word (c ∷ w) p h = refl

peek-gap : (b p : List ℕ) → isspace (peek b) ≡ true → peek (b ++ p) ≡ peek b
unfolding isspace
peek-gap [] p h = ground arith
peek-gap (c ∷ b) p h = refl

module _ (slack : ℕ) (room : 0 < slack) where
  skip_word-append :
      (w p : List ℕ) → all_chars word_char w ≡ true → skip_word slack (w ++ p) ≡ skip_word slack p
  unfolding skip_word isspace
  skip_word-append [] p h = refl
  skip_word-append (c ∷ w) p h = ground (arith, room, skip_word-append w p)

  skip_word-space : (p : List ℕ) → isspace (peek p) ≡ true → skip_word slack p ≡ p
  unfolding skip_word isspace
  skip_word-space [] h = refl
  skip_word-space (c ∷ p) h = ground arith

  skip_spaces-gap :
      (c : ℕ) (b p : List ℕ)
      → isspace c ≡ true
      → all_chars isspace b ≡ true
      → word_char (peek p) ≡ true
      → skip_spaces slack (c ∷ (b ++ p)) ≡ p
  unfolding skip_spaces isspace
  skip_spaces-gap c [] p h g f = ground (arith, room)
  skip_spaces-gap c (d ∷ b) p h g f = ground (arith, room, skip_spaces-gap d b p)

  skip_spaces-blank :
      (b p : List ℕ) → IsGap b → word_char (peek p) ≡ true → skip_spaces slack (b ++ p) ≡ p
  unfolding isspace
  skip_spaces-blank [] p gap f = absurd (ground (arith, gap.filled))
  skip_spaces-blank (c ∷ b) p gap f = ground (arith, gap.chars, skip_spaces-gap c b p)

  pub nextfield-gap :
      (w b p : List ℕ)
      → all_chars word_char w ≡ true
      → IsGap b
      → word_char (peek p) ≡ true
      → nextfield slack (w ++ (b ++ p)) ≡ some p
  unfolding nextfield isspace
  nextfield-gap w b p h gap f =
      rw
        (
          skip_word-append w (b ++ p) h,
          skip_word-space (b ++ p) (ap isspace (peek-gap b p gap.filled) ∙ gap.filled),
          skip_spaces-blank b p gap f,
        )
        (ground (arith, room, f))

-- Fields and the gaps before them, with a text behind.
abbrev pub print_fields : List (List ℕ × List ℕ) → List ℕ → List ℕ
print_fields [] tail = tail
print_fields ((gap, word) ∷ fields) tail = gap ++ (word ++ print_fields fields tail)

abbrev pub AreFields : List (List ℕ × List ℕ) → Type 0
AreFields [] = Unit
AreFields ((gap, word) ∷ fields) = (IsGap gap × IsWord word) × AreFields fields

-- The field after the given ones.
pub rep_nextfield-fields :
    (slack : ℕ)
    → 0 < slack
    → (w : List ℕ) (fields : List (List ℕ × List ℕ)) (b p : List ℕ) → all_chars word_char w ≡ true
    → AreFields fields
    → IsGap b
    → word_char (peek p) ≡ true
    → rep_nextfield slack (suc (length fields)) (w ++ print_fields fields (b ++ p)) ≡ some p
unfolding rep_nextfield
rep_nextfield-fields slack room w [] b p h fs gap f =
    rw (nextfield-gap slack room w b p h gap f) refl
rep_nextfield-fields slack room w ((c, v) ∷ fields) b p h ((c_gap, v_word), fs) gap f =
    rw
      (nextfield-gap slack room w c (v ++ print_fields fields (b ++ p)) h c_gap
        (ap word_char (peek-word v (print_fields fields (b ++ p)) v_word.filled) ∙ v_word.filled))
      (rep_nextfield-fields slack room v fields b p v_word.chars fs gap f)

-- The number that decimal digits stand for.
abbrev pub decimal_value : ℕ → List ℕ → ℕ
decimal_value value [] = value
decimal_value value (c ∷ ds) = decimal_value (value * 10 + (c - 48)) ds

pub read_digits-append :
    (ds rest : List ℕ) (value : ℕ)
    → all_chars isdigit ds ≡ true
    → isdigit (peek rest) ≡ false
    → read_digits value (ds ++ rest) ≡ (decimal_value value ds, rest)
unfolding read_digits isdigit
read_digits-append [] [] value h e = refl
read_digits-append [] (c ∷ rest) value h e = ground arith
read_digits-append (c ∷ ds) rest value h e =
    ground (arith, read_digits-append ds rest (value * 10 + (c - 48)))

pub record IsNumber (ds : List ℕ) : Type 0 where
  pub filled : isdigit (peek ds) ≡ true
  pub digits : all_chars isdigit ds ≡ true
  pub fits : decimal_value 0 ds < 2 ^ 64

pub digit-first : (ds rest : List ℕ) → isdigit (peek ds) ≡ true → isdigit (peek (ds ++ rest)) ≡ true
unfolding isdigit
digit-first [] rest h = ground arith
digit-first (c ∷ ds) rest h = h

strip_spaces-digit : (p : List ℕ) → isdigit (peek p) ≡ true → strip_spaces p ≡ p
unfolding strip_spaces isspace isdigit
strip_spaces-digit [] h = refl
strip_spaces-digit (c ∷ p) h = ground arith

pub strtoumax-number :
    (ds rest : List ℕ)
    → IsNumber ds
    → isdigit (peek rest) ≡ false
    → strtoumax (ds ++ rest) ≡ (decimal_value 0 ds, rest)
unfolding strtoumax signed_digits isdigit
strtoumax-number ds rest number e =
    let first = digit-first ds rest number.filled in
    rw (strip_spaces-digit (ds ++ rest) first)
      (ground (arith, first, read_digits-append ds rest 0 number.digits e, number.fits))
