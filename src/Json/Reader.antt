-- ===== src/Json/Reader.antt =====
-- What the services call of a parsed `rapidjson::Value`: a parameter, `V` being its type. `member` is
-- `operator[]` and `has_member` is `HasMember`. Both assert that the value is an object, and the first
-- also that it has the member, so that what they give elsewhere is not used.
use babeltrader.Common.{Bytes, Bool, true, false, List, [], ◌∷◌, ◌≡◌}
use babeltrader.Common.Int.{ℤ}
use babeltrader.Common.Double.{Double}
use babeltrader.Json.{Event, key, string, int, int64, double}

pub record Reader (F : Double) : Type 1 where
  pub V : Type 0
  pub has_member : V → Bytes → Bool
  pub member : V → Bytes → V
  pub is_object : V → Bool
  pub is_string : V → Bool
  pub get_string : V → Bytes
  pub is_int : V → Bool
  pub get_int : V → ℤ
  pub is_int64 : V → Bool
  pub get_int64 : V → ℤ
  pub is_double : V → Bool
  pub get_double : V → F.D

module _ (F : Double) (R : Reader F) where
  open F use {D}
  open R use {
    V, has_member, member, is_string, get_string, is_int, get_int, is_int64, get_int64, is_double,
    get_double,
  }

  -- What rapidjson says of a value that was written by one call of a writer and parsed again: a
  -- number that `Double` wrote is a double and no integer.
  abbrev pub Is : V → Event D → Type 0
  Is v (string s) = (is_string v ≡ true) × (get_string v ≡ s)
  Is v (int n) = (is_int v ≡ true) × (get_int v ≡ n)
  Is v (int64 n) = (is_int64 v ≡ true) × (get_int64 v ≡ n)
  Is v (double x) =
      (is_int v ≡ false) × (is_int64 v ≡ false) × (is_double v ≡ true) × (get_double v ≡ x)
  Is v _ = ⊥

  -- `v` is an object with the members that the calls have written.
  abbrev pub HasMembers : V → List (Event D) → Type 0
  HasMembers v [] = Unit {0}
  HasMembers v (key k ∷ e ∷ es) = ((has_member v k ≡ true) × Is (member v k) e) × HasMembers v es
  HasMembers v _ = ⊥
