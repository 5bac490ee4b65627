-- ===== src/CtpTrade/Orders.antt =====
-- The maps of orders (src/ctp-trade/ctp_trade_handler.cpp).
use babeltrader.Common.{
  ◌≡◌, refl, sym, ◌∙◌, Bytes, bytes_eq, bytes_eq_iff, Bool, false, ◌||◌, List, [], ◌∷◌, Option,
  none, some, if◌then◌else◌, Bool-cases, inl, inr, arith, if_both,
}
use babeltrader.Common.Int.{ℤ, pos, ◌-ℤ◌, eqb_ℤ, ltb_ℤ}
use babeltrader.Common.StdMap.{StdMap, none-ne-some, bytes_key, lookup, erase, lookup-erase}
use babeltrader.Structs.{OrderMapInfo}
use babeltrader.CtpTrade.{OrderMaps, is_stale, wait_del_keys, erase_keys, clear_order_info_map}

abbrev pub occurs : Bytes → List Bytes → Bool
occurs k [] = false
occurs k (j ∷ ks) = bytes_eq j k || occurs k ks

module _ {D : Type 0} where
  -- The keys of a map are distinct.
  abbrev pub IsMap : StdMap Bytes (OrderMapInfo D) → Type 0
  IsMap [] = Unit {0}
  IsMap ((k, v) ∷ m) = (lookup k m ≡ none) × IsMap m

  lookup-erase_keys :
      (k : Bytes) (ks : List Bytes) (m : StdMap Bytes (OrderMapInfo D))
      → lookup k (erase_keys ks m) ≡ (if occurs k ks then none else lookup k m)
  unfolding erase_keys
  lookup-erase_keys k [] m = refl
  lookup-erase_keys k (j ∷ ks) m =
      lookup-erase_keys k ks (erase j m) ∙ ground (arith, lookup-erase j k m)

  -- What is left of an entry.
  abbrev pub kept : ℤ → Option (OrderMapInfo D) → Option (OrderMapInfo D)
  kept now none = none
  kept now (some info) =
      if eqb_ℤ info.completed_ts (pos 0)
      then some info
      else (if ltb_ℤ (pos 60) (now -ℤ info.completed_ts) then none else some info)

  kept-is_stale :
      (now : ℤ) (info : OrderMapInfo D)
      → kept now (some info) ≡ (if is_stale now info then none else some info)
  kept-is_stale now info = elim (Bool-cases (eqb_ℤ info.completed_ts (pos 0))) [
    | inl e ↦ rw e refl
    | inr e ↦ rw e refl
  ]

  pub absent-wait_del_keys :
      (now : ℤ) (k : Bytes) (m : StdMap Bytes (OrderMapInfo D))
      → lookup k m ≡ none
      → occurs k (wait_del_keys now m) ≡ false
  unfolding wait_del_keys lookup
  absent-wait_del_keys now k [] h = refl
  absent-wait_del_keys now k ((j, info) ∷ m) h = elim (Bool-cases (bytes_eq j k)) [
    | inl e ↦ absurd (none-ne-some info (sym h ∙ rw e refl))
    | inr e ↦
        let rest = absent-wait_del_keys now k m (sym (rw e refl) ∙ h) in
        if_both (λ ks. occurs k ks ≡ false) (is_stale now info) (rw (e, rest) refl) rest
  ]

  left_over : ℤ → Bytes → StdMap Bytes (OrderMapInfo D) → Option (OrderMapInfo D)
  left_over now k m = if occurs k (wait_del_keys now m) then none else lookup k m

  left_over-kept :
      (now : ℤ) (k : Bytes) (m : StdMap Bytes (OrderMapInfo D))
      → IsMap m
      → left_over now k m ≡ kept now (lookup k m)
  unfolding left_over wait_del_keys lookup
  left_over-kept now k [] h = refl
  left_over-kept now k ((j, info) ∷ m) h = elim (Bool-cases (bytes_eq j k)) [
    | inl e ↦
        let same : j ≡ k = (bytes_eq_iff j k).0 e in
        let gone = absent-wait_del_keys now k m (rw (← same) h.0) in
        elim (Bool-cases (is_stale now info)) [
          | inl u ↦ rw (u, e, kept-is_stale now info, u) refl
          | inr u ↦ rw (u, e, gone, kept-is_stale now info, u) refl
        ]
    | inr e ↦
        let rest = left_over-kept now k m h.1 in
        elim (Bool-cases (is_stale now info)) [ inl u ↦ rw (u, e) rest | inr u ↦ rw (u, e) rest ]
  ]

  -- At the time `now`, `ClearOrderInfoMap` takes exactly those entries away whose order was completed
  -- more than 60 seconds before, and leaves the others as they are; the keys of the map are distinct.
  pub clear_order_info_map-kept :
      (now : ℤ) (k : Bytes) (s : OrderMaps D)
      → IsMap s.outside_order_maps
      → lookup k (clear_order_info_map now s).outside_order_maps
        ≡ kept now (lookup k s.outside_order_maps)
  unfolding clear_order_info_map left_over
  clear_order_info_map-kept now k s h =
      lookup-erase_keys k (wait_del_keys now s.outside_order_maps) s.outside_order_maps
      ∙ left_over-kept now k s.outside_order_maps h
