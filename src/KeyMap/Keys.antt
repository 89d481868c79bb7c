-- ===== src/KeyMap/Keys.antt =====
-- Key comparisons put together from those of the parts of a key.
use Prim.Native.String.{String}
use text.Mathlib.Text.{◌==◌ as str_eq}
use text.Mathlib.TextEquality.{eq_iff}
use text.Mathlib.TextPositions.{eq_refl}
use collector.Prelude.{ℕ, ◌≡◌, refl, Bool, true, false, ◌&&◌, not, xor, arith, ◌==◌}
use collector.KeyMap.{KeyEq}

pub nat_refl : (a : ℕ) → (a == a) ≡ true
nat_refl a = ground arith

pub nat_cong : (a b c : ℕ) → (a == b) ≡ true → (a == c) ≡ (b == c)
nat_cong a b c h = ground arith

abbrev pub nat_keys : KeyEq ℕ
nat_keys = record { same = ◌==◌; same_refl = nat_refl; same_cong = nat_cong }

pub str_cong : (a b c : String) → str_eq a b ≡ true → str_eq a c ≡ str_eq b c
str_cong a b c h = ground (arith, eq_iff a b)

pub str_refl : (a : String) → str_eq a a ≡ true
str_refl a = eq_refl a

abbrev pub string_keys : KeyEq String
string_keys = record { same = str_eq; same_refl = str_refl; same_cong = str_cong }

abbrev pub flag_eq : Bool → Bool → Bool
flag_eq a b = not (xor a b)

pub flag_refl : (a : Bool) → flag_eq a a ≡ true
flag_refl true = refl
flag_refl false = refl

pub flag_cong : (a b c : Bool) → flag_eq a b ≡ true → flag_eq a c ≡ flag_eq b c
flag_cong a b c h = ground arith

abbrev pub flag_keys : KeyEq Bool
flag_keys = record { same = flag_eq; same_refl = flag_refl; same_cong = flag_cong }

-- Keys compared by a part of them.
module _ {ℓ κ} {K : Type ℓ} {L : Type κ} (f : K → L) (E : KeyEq L) where
  abbrev pub on : KeyEq K
  on = record {
    same = λ a b. E.same (f a) (f b);
    same_refl = λ a. E.same_refl (f a);
    same_cong = λ a b c h. E.same_cong (f a) (f b) (f c) h;
  }

-- Keys of two parts.
module _ {ℓ κ} {A : Type ℓ} {B : Type κ} (E : KeyEq A) (F : KeyEq B) where
  unfoldable pub both : A × B → A × B → Bool
  both (a, b) (c, d) = E.same a c && F.same b d

  pub both_refl : (p : A × B) → both p p ≡ true
  unfolding both
  both_refl (a, b) = ground (arith, E.same_refl a, F.same_refl b)

  pub both_cong : (p q r : A × B) → both p q ≡ true → both p r ≡ both q r
  unfolding both
  both_cong (a, b) (c, d) (e, f) h = ground (arith, E.same_cong a c e, F.same_cong b d f)

  unfoldable pub pair_keys : KeyEq (A × B)
  unfolding both
  pair_keys = record { same = both; same_refl = both_refl; same_cong = both_cong }
