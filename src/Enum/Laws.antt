-- ===== src/Enum/Laws.antt =====
-- Reading an enumerator back from its text (src/common/enum.cpp).
use mathlib.Core.Option.{some-injective}
use babeltrader.Common.{
  sym, ◌∙◌, ℕ, zero, suc, ◌+◌, ◌≤◌, ◌<◌, ◌||◌, ◌⊎◌, ◌≡◌, refl, ◌↔◌, Bytes, bytes_eq, bytes_eq_iff,
  Bool, true, false, ◌==◌, ◌&&◌, not, List, [], ◌∷◌, some, length, get_elem?, drop, strncmp_eq,
  arith, inl,
}
use babeltrader.Enum.{
  g_markets, g_exchanges, g_product_types, g_quote_info1, g_quote_info2, EnumTable, texts, get_enum,
  get_enum_from, get_enum_by_str, get_market_enum, get_exchange_enum, get_product_type_enum,
  get_quote_info1_enum, get_quote_info2_enum,
}

-- The test of the macro is equality of the texts.
same_text_iff :
    (g s : Bytes) → ((length g == length s && strncmp_eq (length s) s g) ≡ true) ↔ (g ≡ s)
same_text_iff [] [] = ground arith
same_text_iff [] (b ∷ s) = ground arith
same_text_iff (a ∷ g) [] = ground arith
same_text_iff (a ∷ g) (b ∷ s) = ground (arith, same_text_iff g s)

abbrev occurs : Bytes → List Bytes → Bool
occurs s [] = false
occurs s (g ∷ gs) = bytes_eq g s || occurs s gs

abbrev distinct : List Bytes → Bool
distinct [] = true
distinct (g ∷ gs) = not (occurs g gs) && distinct gs

occurs-get_elem? :
    (gs : List Bytes) (j : ℕ) (s : Bytes) → get_elem? gs j ≡ some s → occurs s gs ≡ true
occurs-get_elem? [] j s h = cc
occurs-get_elem? (g ∷ gs) zero s h = ground (arith, bytes_eq_iff g s)
occurs-get_elem? (g ∷ gs) (suc j) s h = ground (arith, occurs-get_elem? gs j s h)

-- The search returns nothing or an index that it has reached.
get_enum_from-range :
    (i : ℕ) (gs : List Bytes) (s : Bytes) → (get_enum_from i gs s ≡ 0) ⊎ (i ≤ get_enum_from i gs s)
unfolding get_enum_from
get_enum_from-range i [] s = inl refl
get_enum_from-range i (g ∷ gs) s = ground (arith, get_enum_from-range (suc i) gs s)

get_enum_from-found :
    (i : ℕ) (gs : List Bytes) (j : ℕ) (s : Bytes)
    → distinct gs ≡ true
    → get_elem? gs j ≡ some s
    → get_enum_from i gs s ≡ i + j
unfolding get_enum_from
get_enum_from-found i [] j s d h = cc
get_enum_from-found i (g ∷ gs) zero s d h = ground (arith, same_text_iff g s)
get_enum_from-found i (g ∷ gs) (suc j) s d h =
    ground (arith, same_text_iff g s, occurs-get_elem? gs j s h, get_enum_from-found (suc i) gs j s)

get_enum_from_sound :
    (i : ℕ) (gs : List Bytes) (j : ℕ) (s : Bytes)
    → 0 < i
    → get_enum_from i gs s ≡ i + j
    → get_elem? gs j ≡ some s
unfolding get_enum_from
get_enum_from_sound i [] j s p h = absurd (omega arith)
get_enum_from_sound i (g ∷ gs) zero s p h =
    ground (arith, same_text_iff g s, get_enum_from-range (suc i) gs s)
get_enum_from_sound i (g ∷ gs) (suc j) s p h =
    ground (arith, same_text_iff g s, get_enum_from_sound (suc i) gs j s)

get_enum_by_str_iff :
    (t : List Bytes) (i : ℕ) (s : Bytes)
    → distinct t ≡ true
    → (get_enum_by_str s ([] ∷ t) ≡ suc i) ↔ (get_elem? t i ≡ some s)
unfolding get_enum_by_str
get_enum_by_str_iff t i s d = (
  λ h. get_enum_from_sound 1 t i s (omega arith) (omega arith),
  λ h. omega (arith, get_enum_from-found 1 t i s d h),
)

-- For each of the five tables, the search returns the enumerator of index i + 1 exactly when the
-- table's entry there is the given text; for any other text it returns 0, the unknown enumerator.
pub get_enum_iff :
    (t : EnumTable) (i : ℕ) (s : Bytes)
    → (get_enum t s ≡ suc i) ↔ (get_elem? (texts t) (suc i) ≡ some s)
unfolding get_market_enum get_exchange_enum get_product_type_enum get_quote_info1_enum
    get_quote_info2_enum
get_enum_iff EnumTable.markets i s = get_enum_by_str_iff (drop 1 g_markets) i s refl
get_enum_iff EnumTable.exchanges i s = get_enum_by_str_iff (drop 1 g_exchanges) i s refl
get_enum_iff EnumTable.product_types i s = get_enum_by_str_iff (drop 1 g_product_types) i s refl
get_enum_iff EnumTable.quote_info1 i s = get_enum_by_str_iff (drop 1 g_quote_info1) i s refl
get_enum_iff EnumTable.quote_info2 i s = get_enum_by_str_iff (drop 1 g_quote_info2) i s refl

-- The first entry is the text of the unknown enumerator, which no search finds.
no_text-get_enum : (t : EnumTable) → (get_elem? (texts t) 0 ≡ some []) × (get_enum t [] ≡ 0)
unfolding get_market_enum get_exchange_enum get_product_type_enum get_quote_info1_enum
    get_quote_info2_enum get_enum_by_str get_enum_from
no_text-get_enum EnumTable.markets = (refl, refl)
no_text-get_enum EnumTable.exchanges = (refl, refl)
no_text-get_enum EnumTable.product_types = (refl, refl)
no_text-get_enum EnumTable.quote_info1 = (refl, refl)
no_text-get_enum EnumTable.quote_info2 = (refl, refl)

-- The text of an enumerator, the unknown one's too, gives the enumerator back.
pub get_enum-texts :
    (t : EnumTable) (i : ℕ) (s : Bytes) → get_elem? (texts t) i ≡ some s → get_enum t s ≡ i
get_enum-texts t zero s h =
    let same : [] ≡ s = some-injective [] s (sym (no_text-get_enum t).0 ∙ h) in
    rw (← same) (no_text-get_enum t).1
get_enum-texts t (suc i) s h = (get_enum_iff t i s).1 h
