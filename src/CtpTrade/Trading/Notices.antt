-- ===== src/CtpTrade/Trading/Notices.antt =====
-- What `OnOrderStatus` and `OnOrderDeal` make of one notice (src/ctp-trade/ctp_trade_handler.cpp).
use babeltrader.Common.{
  ◌≡◌, refl, Bytes, true, false, [], ◌∷◌, length, some, none, ltb, ◌==◌, arith,
}
use babeltrader.Common.Int.{ℤ, pos}
use babeltrader.Common.Double.{Double}
use babeltrader.Common.StdMap.{bytes_key, lookup, erase, lookup-insert_self, lookup-erase_self}
use babeltrader.Structs.{Order, OrderStatusNotify, OrderMapInfo}
use babeltrader.TradeService.Messages.{confirm_order, order_status, order_deal}
use babeltrader.CtpTrade.{
  extend_ctp_id, OrderMaps, record_key, is_over, cache_order_info_map, with_ids, get_order_info,
  get_order_info_map,
}
use babeltrader.CtpTrade.Fields.Orders.{OrderField, TradeField}
use babeltrader.CtpTrade.Handler.{CtpTradeConf, Libc, CtpTradeHandler, broadcast}
use babeltrader.CtpTrade.Answered.{
  new_order, convert_rtn_order_ctp2common, rtn_order_status, convert_rtn_trade_ctp2common,
  rtn_trade_deal,
}
use babeltrader.CtpTrade.Trading.Meanwhile.{Knows}
use babeltrader.CtpTrade.Trading.Kept.{
  get_and_clean_record_order-found, get_and_clean_record_order-missing,
}
use babeltrader.CtpTrade.Trading.{on_order_status, on_order_deal}

extend_ctp_id-some :
    (investor_id trading_day c : Bytes)
    → (length c == 0) ≡ false
    → ltb 0 (length (extend_ctp_id investor_id trading_day c)) ≡ true
unfolding extend_ctp_id
extend_ctp_id-some [] trading_day c h = rw h (ground arith)
extend_ctp_id-some (x ∷ investor_id) trading_day c h = rw h (ground arith)

module _ (F : Double) (conf : CtpTradeConf) (libc : Libc) where
  open F use {D}

  -- A notice about an order that waits: it is confirmed and its status told, as the order that was
  -- recorded, which waits no more.
  pub on_order_status-recorded :
      (now : ℤ) (p : OrderField D) (s : CtpTradeHandler D) (order : Order D)
      → (length p.order_sys_id == 0) ≡ false
      → lookup
          (record_key libc.print p.user_id p.order_ref p.front_id p.session_id)
          s.order_maps.wait_deal_orders
        ≡ some order
      → let seen = convert_rtn_order_ctp2common F libc p order in
        let status = rtn_order_status F libc p in
        on_order_status F conf libc now p s ≡ (
          record s {
            order_maps = cache_order_info_map seen status (record s.order_maps {
              wait_deal_orders =
                  erase
                    (record_key libc.print p.user_id p.order_ref p.front_id p.session_id)
                    s.order_maps.wait_deal_orders;
            });
          },
          broadcast (confirm_order seen (pos 0))
              ∷ broadcast (order_status seen status (pos 0))
              ∷ [],
        )
  unfolding on_order_status
  on_order_status-recorded now p s order some_bytes waits =
      let found =
        get_and_clean_record_order-found libc.print p.user_id p.order_ref p.front_id p.session_id
          order s.order_maps waits in
      rw (some_bytes, found) refl

  -- A notice about an order that does not wait.
  pub on_order_status-known :
      (now : ℤ) (p : OrderField D) (s : CtpTradeHandler D)
      → (length p.order_sys_id == 0) ≡ false
      → lookup
          (record_key libc.print p.user_id p.order_ref p.front_id p.session_id)
          s.order_maps.wait_deal_orders
        ≡ none
      → let fresh = convert_rtn_order_ctp2common F libc p (new_order F libc) in
        let status = rtn_order_status F libc p in
        on_order_status F conf libc now p s ≡ (
          record s { order_maps = (get_order_info_map now fresh status s.order_maps).0 },
          broadcast
                (order_status (get_order_info_map now fresh status s.order_maps).1 status (pos 0))
              ∷ [],
        )
  unfolding on_order_status
  on_order_status-known now p s some_bytes waits =
      let found =
        get_and_clean_record_order-missing libc.print p.user_id p.order_ref p.front_id p.session_id
          s.order_maps waits in
      rw (some_bytes, found) refl

  pub on_order_deal-known :
      (t : TradeField D) (s : CtpTradeHandler D) (info : OrderMapInfo D)
      → lookup
          (extend_ctp_id t.investor_id t.trading_day t.order_sys_id)
          s.order_maps.outside_order_maps
        ≡ some info
      → (on_order_deal F conf libc t s).1
        ≡ broadcast (
            order_deal
              (with_ids info.order (convert_rtn_trade_ctp2common F libc t (new_order F libc)))
              (rtn_trade_deal F libc t))
          ∷ []
  unfolding on_order_deal get_order_info convert_rtn_trade_ctp2common
  on_order_deal-known t s info h = rw (h, get_order_info) refl

  pub get_order_info_map-known :
      (now : ℤ) (order : Order D) (status : OrderStatusNotify D) (m : OrderMaps D)
      (info : OrderMapInfo D)
      → lookup order.outside_id m.outside_order_maps ≡ some info
      → (get_order_info_map now order status m).1 ≡ with_ids info.order order
  unfolding get_order_info_map
  get_order_info_map-known now order status m info h = rw (h, get_order_info_map) refl

  -- A confirmed order that is not over waits no more and is kept.
  pub confirmed-Knows :
      (p : OrderField D) (order : Order D) (m : OrderMaps D)
      → (length p.order_sys_id == 0) ≡ false
      → is_over (rtn_order_status F libc p) ≡ false
      → let k = record_key libc.print p.user_id p.order_ref p.front_id p.session_id in
        let seen = convert_rtn_order_ctp2common F libc p order in
        Knows libc.print k (extend_ctp_id p.investor_id p.trading_day p.order_sys_id) seen (
          cache_order_info_map seen
            (rtn_order_status F libc p)
            (record m { wait_deal_orders = erase k m.wait_deal_orders }))
  unfolding cache_order_info_map convert_rtn_order_ctp2common rtn_order_status
  confirmed-Knows p order m some_bytes over =
      let long = extend_ctp_id-some p.investor_id p.trading_day p.order_sys_id some_bytes in
      rw (long, over) (lookup-erase_self _ m.wait_deal_orders, lookup-insert_self _ _ _)
