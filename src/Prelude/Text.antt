-- ===== src/Prelude/Text.antt =====
-- Texts as the lists of their characters' codes, and back.
use Prim.Native.Char.{Char, char, code, IsScalar, nul}
use Prim.Native.String.{String}
use mathlib.Core.Logic.{dite}
use collector.Prelude.{
  ℕ, ◌<◌, ◌≡◌, refl, Bool, true, false, ◌&&◌, List, [], ◌∷◌, arith, dec_lt, ◌==◌,
}

abbrev pub codes : String → List ℕ
codes String.[] = []
codes (String.◌∷◌ c s) = code c ∷ codes s

small-IsScalar : (n : ℕ) → n < 55296 → IsScalar n
small-IsScalar n h = ground arith

-- Bytes are well below the bound.
unfoldable pub char_of : ℕ → Char
unfolding dec_lt small-IsScalar
char_of n = dite (dec_lt n 55296) (λ h. char n (small-IsScalar n h)) (λ _. nul)

unfoldable pub string_of : List ℕ → String
unfolding char_of
string_of [] = String.[]
string_of (c ∷ rest) = String.◌∷◌ (char_of c) (string_of rest)

-- a == b, on strings.
unfoldable pub text_eq : List ℕ → List ℕ → Bool
text_eq [] [] = true
text_eq (c ∷ str) (d ∷ other) = c == d && text_eq str other
text_eq _ _ = false

pub text_eq_refl : (str : List ℕ) → text_eq str str ≡ true
unfolding text_eq
text_eq_refl [] = refl
text_eq_refl (c ∷ str) = ground (arith, text_eq_refl str)

-- str.empty()
abbrev pub is_nil : List ℕ → Bool
is_nil [] = true
is_nil (c ∷ str) = false
