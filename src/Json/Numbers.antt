-- ===== src/Json/Numbers.antt =====
-- A NaN and an infinity are no JSON numbers: for one of these, a `Double` of the writer writes no value
-- and says so by what it returns, which the code does not use. `finite` tells the other doubles.
use babeltrader.Common.{
  Bool, true, ◌&&◌, ◌≡◌, refl, sym, ap, List, [], ◌∷◌, if◌then◌else◌, Bool-cases, inl, inr,
}
use mathlib.Core.Bool.{false≢true}
use mathlib.Core.Path.{subst}
use babeltrader.Json.{
  Event, start_object, end_object, start_array, end_array, key, string, int, int64, double, bool,
}
use babeltrader.Json.Grammar.{IsJson}

module _ {D : Type 0} (finite : D → Bool) where
  -- The calls that write something.
  unfoldable pub written : List (Event D) → List (Event D)
  written [] = []
  written (double x ∷ es) = let rest = written es in if finite x then double x ∷ rest else rest
  written (e ∷ es) = e ∷ written es

  abbrev pub all_finite : List (Event D) → Bool
  all_finite [] = true
  all_finite (double x ∷ es) = finite x && all_finite es
  all_finite (_ ∷ es) = all_finite es

  written-double :
      (x : D) (es : List (Event D))
      → finite x && all_finite es ≡ true
      → (finite x ≡ true) × (all_finite es ≡ true)
  written-double x es h = elim (Bool-cases (finite x)) [
    | inl e ↦ (e, (rw e at h))
    | inr e ↦ absurd (false≢true (rw e at h))
  ]

  written-all_finite : (es : List (Event D)) → all_finite es ≡ true → written es ≡ es
  unfolding written
  written-all_finite [] h = refl
  written-all_finite (double x ∷ es) h =
      let (e, r) = written-double x es h in
      rw e (ap (λ (t : List (Event D)). double x ∷ t) (written-all_finite es r))
  written-all_finite (start_object ∷ es) h =
      ap (λ (t : List (Event D)). start_object ∷ t) (written-all_finite es h)
  written-all_finite (end_object ∷ es) h =
      ap (λ (t : List (Event D)). end_object ∷ t) (written-all_finite es h)
  written-all_finite (start_array ∷ es) h =
      ap (λ (t : List (Event D)). start_array ∷ t) (written-all_finite es h)
  written-all_finite (end_array ∷ es) h =
      ap (λ (t : List (Event D)). end_array ∷ t) (written-all_finite es h)
  written-all_finite (key s ∷ es) h =
      ap (λ (t : List (Event D)). key s ∷ t) (written-all_finite es h)
  written-all_finite (string s ∷ es) h =
      ap (λ (t : List (Event D)). string s ∷ t) (written-all_finite es h)
  written-all_finite (int n ∷ es) h =
      ap (λ (t : List (Event D)). int n ∷ t) (written-all_finite es h)
  written-all_finite (int64 n ∷ es) h =
      ap (λ (t : List (Event D)). int64 n ∷ t) (written-all_finite es h)
  written-all_finite (bool b ∷ es) h =
      ap (λ (t : List (Event D)). bool b ∷ t) (written-all_finite es h)

  pub written-IsJson :
      (es : List (Event D)) → IsJson es → all_finite es ≡ true → IsJson (written es)
  written-IsJson es j h = subst (λ (t : List (Event D)). IsJson t) (sym (written-all_finite es h)) j
