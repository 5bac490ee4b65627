-- ===== src/Common/Double.antt =====
-- `double` is no type of this language: it and its operations are a parameter. `of_int` and `to_int`
-- are the conversions from and to integer types, `lt` is `<`, `le` is `<=`, `sub` is `-`.
use babeltrader.Common.Int.{ℤ, ltb_ℤ, leb_ℤ, ◌-ℤ◌}
use mathlib.Core.Path.{◌≡◌}
use mathlib.Core.Bool.{Bool, true, false}
use native.Mathlib.Omega.{arith}

pub record Double : Type 1 where
  pub D : Type 0
  pub of_int : ℤ → D
  pub to_int : D → ℤ
  pub lt : D → D → Bool
  pub le : D → D → Bool
  pub sub : D → D → D

-- What IEEE 754 says of `<` between values that are numbers, as `is_number` tells them: it is
-- asymmetric, and its negation is transitive.
pub record Ordered (F : Double) : Type 1 where
  pub is_number : F.D → Type 0
  pub lt_asymm : (a b : F.D) → is_number a → is_number b → F.lt a b ≡ true → F.lt b a ≡ false
  pub le_trans :
      (a b c : F.D)
      → is_number a
      → is_number b
      → is_number c
      → F.lt b a ≡ false
      → F.lt c b ≡ false
      → F.lt c a ≡ false

-- Integers in the place of `double`, for tests.
abbrev pub whole_numbers : Double
whole_numbers = record {
  D = ℤ;
  of_int = λ a. a;
  to_int = λ a. a;
  lt = ltb_ℤ;
  le = leb_ℤ;
  sub = ◌-ℤ◌;
}

pub whole_lt_asymm : (a b : ℤ) → ltb_ℤ a b ≡ true → ltb_ℤ b a ≡ false
whole_lt_asymm a b h = ground arith

pub whole_le_trans : (a b c : ℤ) → ltb_ℤ b a ≡ false → ltb_ℤ c b ≡ false → ltb_ℤ c a ≡ false
whole_le_trans a b c h k = ground arith

abbrev pub whole_numbers_ordered : Ordered whole_numbers
whole_numbers_ordered = record {
  is_number = λ a. Unit;
  lt_asymm = λ a b _ _ h. whole_lt_asymm a b h;
  le_trans = λ a b c _ _ _ h k. whole_le_trans a b c h k;
}
