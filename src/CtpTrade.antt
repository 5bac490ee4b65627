-- ===== src/CtpTrade.antt =====
-- src/ctp-trade/ctp_trade_handler.h and ctp_trade_handler.cpp. Here are the ids and the maps by which
-- `CTPTradeHandler` finds the order that an answer of the interface is about; its operations are in
-- the child modules.
pub mod Fields
pub mod Logs
pub mod Ids
pub mod Directions
pub mod Orders
pub mod Handler
pub mod Asked
pub mod Answered
pub mod Trading
pub mod Querying
pub mod Session
pub mod Running
mod Tests
use babeltrader.Common.{
  ℕ, Bytes, Bool, true, false, codes, not, ◌&&◌, ◌||◌, ◌==◌, leb, ltb, List, [], ◌∷◌, ◌++◌, Option,
  none, some, if◌then◌else◌, length, take,
}
use babeltrader.Common.Int.{ℤ, pos, ◌-ℤ◌, eqb_ℤ, ltb_ℤ}
use babeltrader.Common.StdMap.{StdMap, bytes_key, lookup, insert, erase}
use babeltrader.Structs.{Order, OrderStatusNotify, OrderMapInfo}

-- `ExtendCTPId`, into a buffer of 256 bytes.
unfoldable pub extend_ctp_id : Bytes → Bytes → Bytes → Bytes
extend_ctp_id investor_id trading_day ctp_id =
    if length ctp_id == 0
    then []
    else take 255 (investor_id ++ b'_' ∷ (trading_day ++ b'_' ∷ ctp_id))

-- The loop of `GetCTPIdFromExtend` from the back: the bytes behind the last `_`, and whether it has
-- met one.
unfoldable pub last_part : Bytes → Bytes × Bool
last_part [] = ([], false)
last_part (c ∷ s) =
    let (part, met) = last_part s in
    if met then (part, true) else (if c == b'_' then (part, true) else (c ∷ part, false))

-- `GetCTPIdFromExtend` into a zeroed array of `ctp_id_size` bytes; `none` is its `false`.
unfoldable pub get_ctp_id_from_extend : Bytes → ℕ → Option Bytes
get_ctp_id_from_extend ext_ctp_id ctp_id_size =
    let part = (last_part ext_ctp_id).0 in
    if length part == 0 || leb ctp_id_size (length part) then none else some part

-- The two maps of orders.
pub record OrderMaps (D : Type 0) : Type 0 where
  pub wait_deal_orders : StdMap Bytes (Order D)
  pub outside_order_maps : StdMap Bytes (OrderMapInfo D)

-- `snprintf(buf, 256, "%s_%s_%d#%d", …)`, with the text that `%d` gives as an argument.
abbrev pub record_key : (ℤ → Bytes) → Bytes → Bytes → ℤ → ℤ → Bytes
record_key print user_id order_ref front_id session_id =
    take 255 (user_id ++ b'_' ∷ (order_ref ++ b'_' ∷ (print front_id ++ b'#' ∷ print session_id)))

module _ {D : Type 0} where
  -- `RecordOrder`, for the configured user.
  unfoldable pub record_order :
      (ℤ → Bytes) → Bytes → Order D → Bytes → ℤ → ℤ → OrderMaps D → OrderMaps D
  record_order print user_id order order_ref front_id session_id s = record s {
    wait_deal_orders =
        insert (record_key print user_id order_ref front_id session_id) order s.wait_deal_orders;
  }

  unfoldable pub get_and_clean_record_order :
      (ℤ → Bytes) → Bytes → Bytes → ℤ → ℤ → OrderMaps D → OrderMaps D × Option (Order D)
  get_and_clean_record_order print user_id order_ref front_id session_id s =
      let k = record_key print user_id order_ref front_id session_id in
      elim (lookup k s.wait_deal_orders) [
        | none ↦ (s, none)
        | some order ↦ (record s { wait_deal_orders = erase k s.wait_deal_orders }, some order)
      ]

  -- The statuses behind which `CacheOrderInfoMap` keeps nothing: the submission is rejected (3), or the
  -- order is dealt (2), cancelled (3) or rejected (6).
  abbrev pub is_over : OrderStatusNotify D → Bool
  is_over st =
      st.order_submit_status == 3
      || (st.order_status == 2 || (st.order_status == 3 || st.order_status == 6))

  unfoldable pub cache_order_info_map : Order D → OrderStatusNotify D → OrderMaps D → OrderMaps D
  cache_order_info_map order st s =
      if ltb 0 (length order.outside_id) && not (is_over st)
      then record s {
        outside_order_maps =
            insert order.outside_id (record { completed_ts = pos 0; order = order })
              s.outside_order_maps;
      }
      else s

  abbrev pub with_ids : Order D → Order D → Order D
  with_ids from order = record order {
    user_id = from.user_id;
    order_id = from.order_id;
    client_order_id = from.client_order_id;
  }

  -- The first `GetOrderInfoMap`.
  unfoldable pub get_order_info : Order D → OrderMaps D → Order D
  get_order_info order s = elim (lookup order.outside_id s.outside_order_maps) [
    | none ↦ order
    | some info ↦ with_ids info.order order
  ]

  -- The second, at the time `now`.
  unfoldable pub get_order_info_map :
      ℤ → Order D → OrderStatusNotify D → OrderMaps D → OrderMaps D × Order D
  get_order_info_map now order st s = elim (lookup order.outside_id s.outside_order_maps) [
    | none ↦ (s, order)
    | some info ↦ (
      if st.order_submit_status == 3 || (st.order_status == 2 || st.order_status == 3)
          then record s {
            outside_order_maps =
                insert order.outside_id (record info { completed_ts = now }) s.outside_order_maps;
          }
          else s,
      with_ids info.order order,
    )
  ]

  -- The test of the loop of `ClearOrderInfoMap` at the time `now`.
  abbrev pub is_stale : ℤ → OrderMapInfo D → Bool
  is_stale now info =
      not (eqb_ℤ info.completed_ts (pos 0)) && ltb_ℤ (pos 60) (now -ℤ info.completed_ts)

  -- `wait_del_keys`.
  unfoldable pub wait_del_keys : ℤ → StdMap Bytes (OrderMapInfo D) → List Bytes
  wait_del_keys now [] = []
  wait_del_keys now ((k, info) ∷ m) =
      let rest = wait_del_keys now m in if is_stale now info then k ∷ rest else rest

  unfoldable pub erase_keys :
      List Bytes → StdMap Bytes (OrderMapInfo D) → StdMap Bytes (OrderMapInfo D)
  erase_keys [] m = m
  erase_keys (k ∷ ks) m = erase_keys ks (erase k m)

  unfoldable pub clear_order_info_map : ℤ → OrderMaps D → OrderMaps D
  clear_order_info_map now s = record s {
    outside_order_maps = erase_keys (wait_del_keys now s.outside_order_maps) s.outside_order_maps;
  }
