-- ===== src/Common/StdMap.antt =====
-- `std::map<K, V>` as the list of its entries in key order. A key is compared by the instance
-- `Key K`; `lt` is the map's order, by which an insertion finds its place.
use Prim.Native.Nat.{ℕ}
use mathlib.Core.Path.{◌≡◌, refl, sym, ◌∙◌, subst}
use mathlib.Core.Logic.{◌↔◌, ◌≢◌, ◌⊎◌, inl, inr}
use mathlib.Core.Bool.{Bool, true, false}
use mathlib.Core.Option.{Option, none, some, some-injective}
use mathlib.Core.List.{List, [], ◌∷◌}
use native.Mathlib.Omega.{arith}
use babeltrader.Common.Tests.{ltb, ◌==◌, if◌then◌else◌, if_both, ==_iff, Bool-cases}
use babeltrader.Common.Text.{Bytes, bytes_eq, bytes_lt, bytes_eq_iff}

pub record Key {ℓ} (K : Type ℓ) : Type ℓ where
  pub beq : K → K → Bool
  pub lt : K → K → Bool
  pub beq_iff : (a b : K) → (beq a b ≡ true) ↔ (a ≡ b)

instance abbrev pub bytes_key : Key Bytes
bytes_key = record { beq = bytes_eq; lt = bytes_lt; beq_iff = bytes_eq_iff }

instance abbrev pub nat_key : Key ℕ
nat_key = record { beq = ◌==◌; lt = ltb; beq_iff = ==_iff }

abbrev pub StdMap {ℓ κ} : Type ℓ → Type κ → Type (ℓ ⊔ κ)
StdMap K V = List (K × V)

pub none-ne-some {ℓ} : {V : Type ℓ} (v : V) → none ≡ some v → ⊥
none-ne-some v e = cc

module _ {ℓ κ} {K : Type ℓ} {V : Type κ} ⦃key : Key K⦄ where
  -- `m.find(k)`, with `none` for `m.end()`.
  unfoldable pub lookup : K → StdMap K V → Option V
  lookup k [] = none
  lookup k ((j, v) ∷ m) = if key.beq j k then some v else lookup k m

  -- `m[k] = v`.
  unfoldable pub insert : K → V → StdMap K V → StdMap K V
  insert k v [] = (k, v) ∷ []
  insert k v ((j, w) ∷ m) =
      if key.beq j k
      then (k, v) ∷ m
      else (if key.lt k j then (k, v) ∷ (j, w) ∷ m else (j, w) ∷ insert k v m)

  -- `m.erase(k)`. The keys of a map are distinct, so that at most one entry goes.
  unfoldable pub erase : K → StdMap K V → StdMap K V
  erase k [] = []
  erase k ((j, w) ∷ m) = let rest = erase k m in if key.beq j k then rest else (j, w) ∷ rest

  pub lookup-insert :
      (k j : K) (v : V) (m : StdMap K V)
      → lookup j (insert k v m) ≡ (if key.beq k j then some v else lookup j m)
  unfolding lookup insert
  lookup-insert k j v [] = refl
  lookup-insert k j v ((i, w) ∷ m) =
      ground (arith, key.beq_iff k j, key.beq_iff i k, key.beq_iff i j, lookup-insert k j v m)

  pub lookup-erase :
      (k j : K) (m : StdMap K V) → lookup j (erase k m) ≡ (if key.beq k j then none else lookup j m)
  unfolding lookup erase
  lookup-erase k j [] = ground arith
  lookup-erase k j ((i, w) ∷ m) =
      ground (arith, key.beq_iff k j, key.beq_iff i k, key.beq_iff i j, lookup-erase k j m)

  -- A predicate of every value that is found.
  abbrev pub Every {κ'} : (V → Type κ') → StdMap K V → Type (ℓ ⊔ κ ⊔ κ')
  Every P m = (k : K) (v : V) → lookup k m ≡ some v → P v

  pub Every-insert {κ'} :
      (P : V → Type κ') (k : K) (v : V) (m : StdMap K V) → P v → Every P m → Every P (insert k v m)
  Every-insert P k v m p h j w e =
      if_both (λ o. o ≡ some w → P w) (key.beq k j) (λ e'. subst P (some-injective v w e') p)
        (h j w) (rw lookup-insert at e)

  pub Every-erase {κ'} :
      (P : V → Type κ') (k : K) (m : StdMap K V) → Every P m → Every P (erase k m)
  Every-erase P k m h j w e =
      if_both (λ o. o ≡ some w → P w) (key.beq k j) (λ e'. absurd (none-ne-some w e')) (h j w)
        (rw lookup-erase at e)

  pub lookup-insert_self : (k : K) (v : V) (m : StdMap K V) → lookup k (insert k v m) ≡ some v
  lookup-insert_self k v m = rw (lookup-insert, (key.beq_iff k k).1 refl)

  pub lookup-erase_self : (k : K) (m : StdMap K V) → lookup k (erase k m) ≡ none
  lookup-erase_self k m = rw (lookup-erase, (key.beq_iff k k).1 refl)

  pub lookup-insert_ne :
      (k j : K) (v : V) (m : StdMap K V) → k ≢ j → lookup j (insert k v m) ≡ lookup j m
  lookup-insert_ne k j v m h = rw lookup-insert (ground (arith, key.beq_iff k j))

  pub lookup-erase_ne : (k j : K) (m : StdMap K V) → k ≢ j → lookup j (erase k m) ≡ lookup j m
  lookup-erase_ne k j m h = rw lookup-erase (ground (arith, key.beq_iff k j))

  -- The key is in the map.
  abbrev pub Has : K → StdMap K V → Type κ
  Has k m = (v : V) × (lookup k m ≡ some v)

  pub Has-insert_self : (k : K) (v : V) (m : StdMap K V) → Has k (insert k v m)
  Has-insert_self k v m = (v, lookup-insert_self k v m)

  -- A key that is found in a map is in the map behind an insertion, and no other but the new one is.
  pub Has-insert : (k j : K) (v : V) (m : StdMap K V) → Has j m → Has j (insert k v m)
  Has-insert k j v m h =
      rw lookup-insert
        (if_both (λ (o : Option V). (w : V) × (o ≡ some w)) (key.beq k j) (v, refl) h)

  pub lookup-insert_inv :
      (k j : K) (v w : V) (m : StdMap K V)
      → lookup j (insert k v m) ≡ some w
      → (k ≡ j) ⊎ (lookup j m ≡ some w)
  lookup-insert_inv k j v w m h = elim (Bool-cases (key.beq k j)) [
    | inl e ↦ inl ((key.beq_iff k j).0 e)
    | inr e ↦ inr (sym (rw (lookup-insert, e) refl) ∙ h)
  ]

  pub lookup-erase_inv :
      (k j : K) (w : V) (m : StdMap K V)
      → lookup j (erase k m) ≡ some w
      → (key.beq k j ≡ false) × (lookup j m ≡ some w)
  lookup-erase_inv k j w m h = elim (Bool-cases (key.beq k j)) [
    | inl e ↦ absurd (none-ne-some w (sym (rw (lookup-erase, e) refl) ∙ h))
    | inr e ↦ (e, sym (rw (lookup-erase, e) refl) ∙ h)
  ]

  pub Has-erase : (k j : K) (m : StdMap K V) → key.beq k j ≡ false → Has j m → Has j (erase k m)
  Has-erase k j m e h = (h.0, rw (lookup-erase, e) h.1)
