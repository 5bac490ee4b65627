-- ===== src/Kline/Keys.antt =====
-- Which instruments have a cache (src/common/kline_builder.cpp).
use babeltrader.Common.{◌≡◌, Bytes, bytes_eq, false, ◌⊎◌, inl, inr, Option-cases}
use babeltrader.Common.Int.{ℤ}
use babeltrader.Common.Double.{Double}
use babeltrader.Common.StdMap.{
  bytes_key, lookup, Has, Has-insert, Has-insert_self, Has-erase, lookup-insert_inv,
  lookup-erase_inv,
}
use babeltrader.Structs.{MarketData}
use babeltrader.Kline.{KlineCache, KlineBuilder, LocalTime, add, del, update_market_data}

module _ {D : Type 0} where
  pub Has-add :
      (uninit : KlineCache D) (k j : Bytes) (m : KlineBuilder D) → Has j m → Has j (add uninit k m)
  unfolding add
  Has-add uninit k j m h = elim (Option-cases (lookup k m)) [
    | inl e ↦ rw (e, add) (Has-insert k j _ m h)
    | inr (c, e) ↦ rw (e, add) h
  ]

  pub Has-add_self :
      (uninit : KlineCache D) (k : Bytes) (m : KlineBuilder D) → Has k (add uninit k m)
  unfolding add
  Has-add_self uninit k m = elim (Option-cases (lookup k m)) [
    | inl e ↦ rw (e, add) (Has-insert_self k _ m)
    | inr (c, e) ↦ rw (e, add) (c, e)
  ]

  pub add_inv :
      (uninit : KlineCache D) (k j : Bytes) (m : KlineBuilder D)
      → Has j (add uninit k m)
      → (k ≡ j) ⊎ Has j m
  unfolding add
  add_inv uninit k j m h = elim (Option-cases (lookup k m)) [
    | inl e ↦ elim (lookup-insert_inv k j _ h.0 m (rw (e, add) at h.1)) [
      | inl q ↦ inl q
      | inr q ↦ inr (h.0, q)
    ]
    | inr (c, e) ↦ inr (rw (e, add) at h)
  ]

  pub Has-del :
      (k j : Bytes) (m : KlineBuilder D) → bytes_eq k j ≡ false → Has j m → Has j (del k m)
  unfolding del
  Has-del k j m e h = Has-erase k j m e h

  pub del_inv :
      (k j : Bytes) (m : KlineBuilder D) → Has j (del k m) → (bytes_eq k j ≡ false) × Has j m
  unfolding del
  del_inv k j m h = let (e, q) = lookup-erase_inv k j h.0 m h.1 in (e, (h.0, q))

module _ (F : Double) (localtime : ℤ → LocalTime) where
  open F use {D}

  -- A tick takes no cache away and makes none.
  pub Has-update_market_data :
      (cur : ℤ) (k : Bytes) (md : MarketData D) (j : Bytes) (m : KlineBuilder D)
      → Has j m
      → Has j (update_market_data F localtime cur k md m).0
  unfolding update_market_data
  Has-update_market_data cur k md j m h = elim (Option-cases (lookup k m)) [
    | inl e ↦ rw (e, update_market_data) h
    | inr (c, e) ↦ rw (e, update_market_data) (Has-insert k j _ m h)
  ]

  pub update_market_data_inv :
      (cur : ℤ) (k : Bytes) (md : MarketData D) (j : Bytes) (m : KlineBuilder D)
      → Has j (update_market_data F localtime cur k md m).0
      → Has j m
  unfolding update_market_data
  update_market_data_inv cur k md j m h = elim (Option-cases (lookup k m)) [
    | inl e ↦ rw (e, update_market_data) at h
    | inr (c, e) ↦ elim (lookup-insert_inv k j _ h.0 m (rw (e, update_market_data) at h.1)) [
      | inl q ↦ rw (← q) (c, e)
      | inr q ↦ (h.0, q)
    ]
  ]
