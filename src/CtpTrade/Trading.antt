-- ===== src/CtpTrade/Trading.antt =====
-- The orders of `CTPTradeHandler` from the client to the interface and back
-- (src/ctp-trade/ctp_trade_handler.cpp).
pub mod Kept
pub mod Meanwhile
pub mod Notices
pub mod Life
use babeltrader.Common.{
  ℕ, ◌+◌, Bytes, Bool, codes, List, [], ◌∷◌, ◌++◌, Option, none, some, if◌then◌else◌, length, leb,
  ◌==◌, ◌||◌, not, ◌&&◌,
}
use babeltrader.Common.Int.{ℤ, pos, eqb_ℤ}
use babeltrader.Common.Double.{Double}
use babeltrader.Structs.{Order}
use babeltrader.TradeService.Messages.{confirm_order, order_status, order_deal}
use babeltrader.CtpTrade.{
  OrderMaps, record_order, get_and_clean_record_order, cache_order_info_map, get_order_info,
  get_order_info_map, clear_order_info_map,
}
use babeltrader.CtpTrade.Logs.Texts
use babeltrader.CtpTrade.Fields.Requests.{InputOrderField, InputOrderActionField}
use babeltrader.CtpTrade.Fields.Orders.{OrderField, TradeField}
use babeltrader.CtpTrade.Fields.Session.{RspInfoField}
use babeltrader.CtpTrade.Handler.{
  CtpTradeConf, Libc, CtpTradeHandler, Block, trade_block_order_status, trade_block_order_deal,
  Call, log, req_order_insert, req_order_action, broadcast, Run, returns, throws,
}
use babeltrader.CtpTrade.Handler
use babeltrader.CtpTrade.Asked
use babeltrader.CtpTrade.Asked.{
  Made, made, refused, is_empty, convert_insert_order_common2ctp, convert_cancel_order_common2ctp,
}
use babeltrader.CtpTrade.Answered.{
  new_order, convert_insert_order_ctp2common, convert_rtn_order_ctp2common, rtn_order_status,
  convert_rtn_trade_ctp2common, rtn_trade_deal,
}

abbrev pub not_ready : {D : Type 0} → CtpTradeHandler D → Bool
not_ready s = not s.api || not s.api_ready

module _ (F : Double) (conf : CtpTradeConf) (libc : Libc) where
  open F use {D}

  abbrev pub sent_order : ℤ → Order D → InputOrderField D → CtpTradeHandler D → Run F
  sent_order ret order req s =
      let recorded =
        record_order libc.print conf.user_id order req.order_ref s.ctp_front_id s.ctp_session_id
          s.order_maps in
      let cleaned =
        (get_and_clean_record_order libc.print req.investor_id req.order_ref s.ctp_front_id
          s.ctp_session_id recorded).0 in
      let calls = log (Texts.order_insert req) ∷ req_order_insert req s.req_id ∷ [] in
      if eqb_ℤ ret (pos 0)
      then returns (record s { order_maps = recorded; req_id = s.req_id + 1 }) calls
      else throws (codes "failed in ReqOrderInsert, return " ++ libc.print ret)
          (record s { order_maps = cleaned; req_id = s.req_id + 1 }) calls

  abbrev pub insert_converted : ℤ → Order D → CtpTradeHandler D × Made (InputOrderField D) → Run F
  insert_converted ret order (s, refused text) = throws text s []
  insert_converted ret order (s, Asked.undefined) = Handler.undefined
  insert_converted ret order (s, made req) = sent_order ret order req s

  -- `InsertOrder`; `ret` is what `ReqOrderInsert` returns.
  unfoldable pub insert_order : ℤ → Order D → CtpTradeHandler D → Run F
  unfolding convert_insert_order_common2ctp
  insert_order ret order s =
      if not_ready s
      then throws (codes "trade api not ready yet") s []
      else insert_converted ret order (convert_insert_order_common2ctp F conf libc order s)

  abbrev pub cancel_converted : ℤ → CtpTradeHandler D × Made (InputOrderActionField D) → Run F
  cancel_converted ret (s, refused text) = throws text s []
  cancel_converted ret (s, Asked.undefined) = Handler.undefined
  cancel_converted ret (s, made req) =
      let after = record s { req_id = s.req_id + 1 } in
      let calls = log (Texts.order_action req) ∷ req_order_action req s.req_id ∷ [] in
      if eqb_ℤ ret (pos 0)
      then returns after calls
      else throws (codes "failed in ReqOrderAction, return " ++ libc.print ret) after calls

  unfoldable pub cancel_order : ℤ → Order D → CtpTradeHandler D → Run F
  unfolding convert_cancel_order_common2ctp
  cancel_order ret order s =
      if not_ready s
      then throws (codes "trade api not ready yet") s []
      else cancel_converted ret (convert_cancel_order_common2ctp F conf libc order s)

  -- The order that was recorded, or a new one.
  abbrev recorded_or_new : Option (Order D) → Order D
  recorded_or_new none = new_order F libc
  recorded_or_new (some order) = order

  -- At the time `now`, in seconds. Both pointers are used without a test.
  unfoldable pub on_rsp_order_insert :
      ℤ → Option (InputOrderField D) → Option RspInfoField → ℕ → CtpTradeHandler D → Run F
  unfolding get_and_clean_record_order convert_insert_order_ctp2common
  on_rsp_order_insert now none info n_request_id s = Handler.undefined
  on_rsp_order_insert now (some req) none n_request_id s = Handler.undefined
  on_rsp_order_insert now (some req) (some info) n_request_id s =
      let found =
        get_and_clean_record_order libc.print req.user_id req.order_ref s.ctp_front_id
          s.ctp_session_id s.order_maps in
      let order = convert_insert_order_ctp2common F libc now req (recorded_or_new found.1) in
      returns (record s { order_maps = found.0 })
        (log (Texts.rsp_order_insert req info (pos n_request_id))
          ∷ broadcast (confirm_order order info.error_id)
          ∷ [])

  unfoldable pub on_err_rtn_order_insert :
      Option (InputOrderField D) → Option RspInfoField → CtpTradeHandler D → Run F
  on_err_rtn_order_insert none info s = Handler.undefined
  on_err_rtn_order_insert (some req) none s = Handler.undefined
  on_err_rtn_order_insert (some req) (some info) s =
      returns s (log (Texts.err_rtn_order_insert req info) ∷ [])

  unfoldable pub on_rsp_order_action :
      Option (InputOrderActionField D) → Option RspInfoField → ℕ → CtpTradeHandler D → Run F
  on_rsp_order_action none info n_request_id s = Handler.undefined
  on_rsp_order_action (some req) none n_request_id s = Handler.undefined
  on_rsp_order_action (some req) (some info) n_request_id s =
      returns s (log (Texts.rsp_order_action req info (pos n_request_id)) ∷ [])

  unfoldable pub on_rtn_order : OrderField D → CtpTradeHandler D → Run F
  on_rtn_order p_order s =
      returns (record s { tunnel = s.tunnel ++ trade_block_order_status p_order ∷ [] })
        (log (Texts.rtn_order p_order) ∷ [])

  unfoldable pub on_rtn_trade : TradeField D → CtpTradeHandler D → Run F
  on_rtn_trade p_trade s =
      returns (record s { tunnel = s.tunnel ++ trade_block_order_deal p_trade ∷ [] })
        (log (Texts.rtn_trade p_trade) ∷ [])

  -- The part of `OnOrderStatus` behind `GetAndCleanRecordOrder`, with what that gave.
  abbrev pub noticed :
      ℤ
      → OrderField D
      → CtpTradeHandler D
      → OrderMaps D × Option (Order D)
      → CtpTradeHandler D × List (Call F)
  noticed now p_order s (maps, some recorded) =
      let order = convert_rtn_order_ctp2common F libc p_order recorded in
      let status = rtn_order_status F libc p_order in
      (
        record s { order_maps = cache_order_info_map order status maps },
        broadcast (confirm_order order (pos 0))
            ∷ broadcast (order_status order status (pos 0))
            ∷ [],
      )
  noticed now p_order s (maps, none) =
      let order = convert_rtn_order_ctp2common F libc p_order (new_order F libc) in
      let status = rtn_order_status F libc p_order in
      let known = get_order_info_map now order status maps in
      (record s { order_maps = known.0 }, broadcast (order_status known.1 status (pos 0)) ∷ [])

  -- `OnOrderStatus` on the order in a block, at the time `now`: what becomes of the state, and the
  -- calls.
  unfoldable pub on_order_status :
      ℤ → OrderField D → CtpTradeHandler D → CtpTradeHandler D × List (Call F)
  unfolding get_and_clean_record_order convert_rtn_order_ctp2common rtn_order_status
      cache_order_info_map get_order_info_map
  on_order_status now p_order s =
      if is_empty p_order.order_sys_id && p_order.order_status == b'a'
      then (s, [])
      else noticed now p_order s (
          get_and_clean_record_order libc.print p_order.user_id p_order.order_ref p_order.front_id
            p_order.session_id s.order_maps)

  unfoldable pub on_order_deal :
      TradeField D → CtpTradeHandler D → CtpTradeHandler D × List (Call F)
  unfolding convert_rtn_trade_ctp2common rtn_trade_deal get_order_info
  on_order_deal p_trade s =
      let order = convert_rtn_trade_ctp2common F libc p_trade (new_order F libc) in
      (
        s,
        broadcast (order_deal (get_order_info order s.order_maps) (rtn_trade_deal F libc p_trade))
            ∷ [],
      )

  abbrev pub on_block : ℤ → Block D → CtpTradeHandler D → CtpTradeHandler D × List (Call F)
  on_block now (trade_block_order_status p_order) s = on_order_status now p_order s
  on_block now (trade_block_order_deal p_trade) s = on_order_deal p_trade s

  -- The inner loop of `AsyncLoop`. `clock n` is the time when `n` blocks are still in the queue.
  unfoldable pub on_blocks :
      (ℕ → ℤ) → List (Block D) → CtpTradeHandler D → CtpTradeHandler D × List (Call F)
  on_blocks clock [] s = (s, [])
  on_blocks clock (block ∷ blocks) s =
      let first = on_block (clock (length (block ∷ blocks))) block s in
      let rest = on_blocks clock blocks first.0 in (rest.0, first.1 ++ rest.1)

  -- A turn of the outer loop, which reads all that is in the tunnel: the new `cnt` and state, and the
  -- calls.
  unfoldable pub async_turn :
      (ℕ → ℤ) → ℕ → CtpTradeHandler D → ℕ × (CtpTradeHandler D × List (Call F))
  unfolding on_blocks clear_order_info_map
  async_turn clock cnt s =
      let done = on_blocks clock s.tunnel (record s { tunnel = [] }) in
      let cleared = record done.0 {
        order_maps = clear_order_info_map (clock 0) done.0.order_maps;
      } in
      if leb 5 (cnt + 1) then (0, (cleared, done.1)) else (cnt + 1, done)
