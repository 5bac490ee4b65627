-- ===== src/CtpTrade/Trading/Meanwhile.antt =====
-- What becomes of an order that `CTPTradeHandler` keeps under its id at the exchange while it goes on
-- with others (src/ctp-trade/ctp_trade_handler.cpp): each step is one of the functions that change the
-- maps of orders, `RecordOrder`, `GetAndCleanRecordOrder`, `CacheOrderInfoMap`, `GetOrderInfoMap` and
-- `ClearOrderInfoMap`.
use babeltrader.Common.{
  ◌≡◌, ◌≢◌, refl, ◌∙◌, Bytes, bytes_eq, Bool, false, if◌then◌else◌, none, some, length, ltb, not,
  ◌&&◌, ◌||◌, ◌==◌, if_both, Option-cases, ◌⊎◌, inl, inr,
}
use babeltrader.Common.Int.{ℤ, pos}
use babeltrader.Common.StdMap.{bytes_key, lookup, insert, erase, lookup-erase, lookup-insert_ne}
use babeltrader.Structs.{Order, OrderStatusNotify, OrderMapInfo}
use babeltrader.CtpTrade.{
  OrderMaps, record_key, record_order, get_and_clean_record_order, is_over, cache_order_info_map,
  get_order_info_map, clear_order_info_map,
}
use babeltrader.CtpTrade.Orders.{IsMap, clear_order_info_map-kept}

-- What `GetOrderInfoMap` takes for the end of an order.
abbrev pub ends_order : {D : Type 0} → OrderStatusNotify D → Bool
ends_order st = st.order_submit_status == 3 || (st.order_status == 2 || st.order_status == 3)

module _ {D : Type 0} (print : ℤ → Bytes) (k id : Bytes) where
  -- From the maps `m`, while the handler goes on with orders that are not recorded at `k` and do not have
  -- the id `id`, and with notices that do not end the one that has it.
  pub data Meanwhile (m : OrderMaps D) : OrderMaps D → Type 0 where
    nothing : Meanwhile m m
    records :
        (t : OrderMaps D) (order : Order D) (user_id order_ref : Bytes) (front_id session_id : ℤ)
        → record_key print user_id order_ref front_id session_id ≢ k
        → Meanwhile m t
        → Meanwhile m (record_order print user_id order order_ref front_id session_id t)
    cleans :
        (t : OrderMaps D) (user_id order_ref : Bytes) (front_id session_id : ℤ)
        → Meanwhile m t
        → Meanwhile m (get_and_clean_record_order print user_id order_ref front_id session_id t).0
    caches :
        (t : OrderMaps D) (order : Order D) (status : OrderStatusNotify D)
        → order.outside_id ≢ id
        → Meanwhile m t
        → Meanwhile m (cache_order_info_map order status t)
    looks :
        (t : OrderMaps D) (now : ℤ) (order : Order D) (status : OrderStatusNotify D)
        → (order.outside_id ≢ id) ⊎ (ends_order status ≡ false)
        → Meanwhile m t
        → Meanwhile m (get_order_info_map now order status t).0
    clears :
        (t : OrderMaps D) (now : ℤ)
        → IsMap t.outside_order_maps
        → Meanwhile m t
        → Meanwhile m (clear_order_info_map now t)

  -- The order waits no more, and is kept under its id.
  abbrev pub Knows : Order D → OrderMaps D → Type 0
  Knows order m =
      (lookup k m.wait_deal_orders ≡ none)
      × (lookup id m.outside_order_maps ≡ some (record { completed_ts = pos 0; order = order }))

  Knows-cleans :
      (user_id order_ref : Bytes) (front_id session_id : ℤ) (order : Order D) (t : OrderMaps D)
      → Knows order t
      → Knows order (get_and_clean_record_order print user_id order_ref front_id session_id t).0
  unfolding get_and_clean_record_order
  Knows-cleans user_id order_ref front_id session_id order t h =
      let j = record_key print user_id order_ref front_id session_id in
      let erased : lookup k (erase j t.wait_deal_orders) ≡ none =
        lookup-erase j k t.wait_deal_orders ∙ if_both (λ o. o ≡ none) (bytes_eq j k) refl h.0 in
      elim (Option-cases (lookup j t.wait_deal_orders)) [
        | inl e ↦ rw (get_and_clean_record_order, e) h
        | inr e ↦ rw (get_and_clean_record_order, e.1) (erased, h.1)
      ]

  Knows-caches :
      (o : Order D) (status : OrderStatusNotify D) (order : Order D) (t : OrderMaps D)
      → o.outside_id ≢ id
      → Knows order t
      → Knows order (cache_order_info_map o status t)
  unfolding cache_order_info_map
  Knows-caches o status order t n h =
      if_both (Knows order) (ltb 0 (length o.outside_id) && not (is_over status))
        (h.0, lookup-insert_ne o.outside_id id _ t.outside_order_maps n ∙ h.1) h

  Knows-ends :
      (now : ℤ) (info : OrderMapInfo D) (o : Order D) (status : OrderStatusNotify D)
      (order : Order D) (t : OrderMaps D)
      → (o.outside_id ≢ id) ⊎ (ends_order status ≡ false)
      → Knows order t
      → Knows order (
          if ends_order status
          then record t {
            outside_order_maps =
                insert o.outside_id (record info { completed_ts = now }) t.outside_order_maps;
          }
          else t)
  Knows-ends now info o status order t (inl n) h =
      if_both (Knows order) (ends_order status)
        (h.0, lookup-insert_ne o.outside_id id _ t.outside_order_maps n ∙ h.1) h
  Knows-ends now info o status order t (inr e) h = rw e h

  Knows-looks :
      (now : ℤ) (o : Order D) (status : OrderStatusNotify D) (order : Order D) (t : OrderMaps D)
      → (o.outside_id ≢ id) ⊎ (ends_order status ≡ false)
      → Knows order t
      → Knows order (get_order_info_map now o status t).0
  unfolding get_order_info_map
  Knows-looks now o status order t n h =
      elim (Option-cases (lookup o.outside_id t.outside_order_maps)) [
        | inl e ↦ rw (get_order_info_map, e) h
        | inr e ↦ rw (get_order_info_map, e.1) (Knows-ends now e.0 o status order t n h)
      ]

  Knows-clears :
      (now : ℤ) (order : Order D) (t : OrderMaps D)
      → IsMap t.outside_order_maps
      → Knows order t
      → Knows order (clear_order_info_map now t)
  unfolding clear_order_info_map
  Knows-clears now order t distinct h =
      (h.0, clear_order_info_map-kept now id t distinct ∙ rw h.1 refl)

  pub Meanwhile-Knows :
      (m t : OrderMaps D) (order : Order D) → Knows order m → Meanwhile m t → Knows order t
  unfolding record_order
  Meanwhile-Knows m t order h nothing = h
  Meanwhile-Knows m t order h (records u o user_id order_ref front_id session_id n before) =
      let known = Meanwhile-Knows m u order h before in
      (lookup-insert_ne _ k o u.wait_deal_orders n ∙ known.0, known.1)
  Meanwhile-Knows m t order h (cleans u user_id order_ref front_id session_id before) =
      Knows-cleans user_id order_ref front_id session_id order u
        (Meanwhile-Knows m u order h before)
  Meanwhile-Knows m t order h (caches u o status n before) =
      Knows-caches o status order u n (Meanwhile-Knows m u order h before)
  Meanwhile-Knows m t order h (looks u now o status n before) =
      Knows-looks now o status order u n (Meanwhile-Knows m u order h before)
  Meanwhile-Knows m t order h (clears u now distinct before) =
      Knows-clears now order u distinct (Meanwhile-Knows m u order h before)
