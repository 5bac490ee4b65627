-- ===== src/CtpTrade/Running.antt =====
-- `CTPTradeHandler` as a whole (src/ctp-trade/ctp_trade_handler.cpp): the calls that reach it from the
-- clients, from the interface and from its own threads, in any order, each run to its end before the
-- next begins; a thread that logs in again takes two steps, one before its sleep and one behind it. The
-- code does not see to it that no two calls overlap: `req_id_`, `order_ref_`, `req_login_cnt_` and
-- `api_ready_` have no lock.
pub mod Invariant
pub mod Orders
pub mod Queries
pub mod Valid
use babeltrader.Common.{ℕ, ◌+◌, ◌≡◌, Bool, Bytes, List, [], ◌∷◌, Option}
use babeltrader.Common.Int.{ℤ}
use babeltrader.Common.Double.{Double}
use babeltrader.Structs.{
  Order, OrderQuery, TradeQuery, PositionQuery, TradeAccountQuery, ProductQuery, TradingDayQuery,
}
use babeltrader.CtpTrade.Fields.Requests.{InputOrderField, InputOrderActionField}
use babeltrader.CtpTrade.Fields.Orders.{OrderField, TradeField}
use babeltrader.CtpTrade.Fields.Session.{
  RspInfoField, RspAuthenticateField, RspUserLoginField, UserPasswordUpdateField,
}
use babeltrader.CtpTrade.Handler.{
  CtpTradeConf, Libc, CtpTradeHandler, Call, start_login_thread, Run, returns, throws, exits,
  undefined,
}
use babeltrader.CtpTrade.Trading.{
  insert_order, cancel_order, on_rsp_order_insert, on_err_rtn_order_insert, on_rsp_order_action,
  on_rtn_order, on_rtn_trade, async_turn,
}
use babeltrader.CtpTrade.Querying.{
  query_order, query_trade, query_position, query_position_detail, query_trade_account,
  query_product, query_trading_day,
}
use babeltrader.CtpTrade.Querying.Kinds.{RowKind, Row}
use babeltrader.CtpTrade.Querying.Rows.{on_rsp_qry}
use babeltrader.CtpTrade.Session.{
  new_handler, on_front_connected, on_front_disconnected, on_rsp_error, on_heart_beat_warning,
  on_rsp_user_password_update, on_rsp_authenticate, on_rsp_user_login, login_thread, login_again,
  on_rsp_user_logout, on_rsp_settlement_info_confirm, run_api,
}

-- A call, with its arguments and with what the calls that it makes return. A turn of `AsyncLoop` is
-- one.
pub data Input (D : Type 0) : Type 0 where
  in_run_api : Bytes → Input D
  in_insert_order : ℤ → Order D → Input D
  in_cancel_order : ℤ → Order D → Input D
  in_query_order : ℤ → ℕ → OrderQuery → Input D
  in_query_trade : ℤ → ℕ → TradeQuery → Input D
  in_query_position : ℤ → ℕ → PositionQuery → Input D
  in_query_position_detail : ℤ → ℕ → PositionQuery → Input D
  in_query_trade_account : ℤ → ℕ → TradeAccountQuery → Input D
  in_query_product : ℤ → ℕ → ProductQuery → Input D
  in_query_trading_day : ℕ → TradingDayQuery → Input D
  in_front_connected : Input D
  in_front_disconnected : ℤ → Input D
  in_rsp_error : Option RspInfoField → ℕ → Input D
  in_heart_beat_warning : ℤ → Input D
  in_rsp_user_password_update : Option UserPasswordUpdateField → Option RspInfoField → ℕ → Input D
  in_rsp_authenticate : Option RspAuthenticateField → Option RspInfoField → ℕ → Input D
  in_rsp_user_login : Option RspUserLoginField → Option RspInfoField → ℕ → Input D
  in_rsp_user_logout : Option RspInfoField → ℕ → Input D
  in_rsp_settlement_info_confirm : Input D
  in_rsp_order_insert : ℤ → Option (InputOrderField D) → Option RspInfoField → ℕ → Input D
  in_err_rtn_order_insert : Option (InputOrderField D) → Option RspInfoField → Input D
  in_rtn_order : OrderField D → Input D
  in_rtn_trade : TradeField D → Input D
  in_rsp_order_action : Option (InputOrderActionField D) → Option RspInfoField → ℕ → Input D
  in_rsp_qry : (k : RowKind) → Option (Row D k) → Option RspInfoField → ℕ → Bool → Input D
  in_async_loop : (ℕ → ℤ) → ℕ → Input D

-- The handler, and its threads that have been started: those that have not looked at the count of
-- attempts, and those that sleep.
pub record Program (D : Type 0) : Type 0 where
  pub handler : CtpTradeHandler D
  pub starting : ℕ
  pub sleeping : ℕ

module _ (F : Double) (conf : CtpTradeConf) (libc : Libc) where
  open F use {D}

  unfoldable pub run : Input D → CtpTradeHandler D → Run F
  unfolding insert_order cancel_order query_order query_trade query_position query_position_detail
      query_trade_account query_product query_trading_day on_front_connected on_front_disconnected
      on_rsp_error on_heart_beat_warning on_rsp_user_password_update on_rsp_authenticate
      on_rsp_user_login on_rsp_user_logout on_rsp_settlement_info_confirm on_rsp_order_insert
      on_err_rtn_order_insert on_rtn_order on_rtn_trade on_rsp_order_action run_api async_turn
  run (in_run_api version) s = run_api F conf version s
  run (in_insert_order ret order) s = insert_order F conf libc ret order s
  run (in_cancel_order ret order) s = cancel_order F conf libc ret order s
  run (in_query_order ret ws qry) s = query_order F conf libc ret ws qry s
  run (in_query_trade ret ws qry) s = query_trade F conf libc ret ws qry s
  run (in_query_position ret ws qry) s = query_position F conf libc ret ws qry s
  run (in_query_position_detail ret ws qry) s = query_position_detail F conf libc ret ws qry s
  run (in_query_trade_account ret ws qry) s = query_trade_account F conf libc ret ws qry s
  run (in_query_product ret ws qry) s = query_product F conf libc ret ws qry s
  run (in_query_trading_day ws qry) s = query_trading_day F conf libc ws qry s
  run in_front_connected s = on_front_connected F conf s
  run (in_front_disconnected reason) s = on_front_disconnected F conf reason s
  run (in_rsp_error info id) s = on_rsp_error F conf info id s
  run (in_heart_beat_warning lapse) s = on_heart_beat_warning F conf lapse s
  run (in_rsp_user_password_update field info id) s =
      on_rsp_user_password_update F conf field info id s
  run (in_rsp_authenticate field info id) s = on_rsp_authenticate F conf field info id s
  run (in_rsp_user_login field info id) s = on_rsp_user_login F conf field info id s
  run (in_rsp_user_logout info id) s = on_rsp_user_logout F conf info id s
  run in_rsp_settlement_info_confirm s = on_rsp_settlement_info_confirm F conf s
  run (in_rsp_order_insert now req info id) s = on_rsp_order_insert F conf libc now req info id s
  run (in_err_rtn_order_insert req info) s = on_err_rtn_order_insert F conf libc req info s
  run (in_rtn_order p) s = on_rtn_order F conf libc p s
  run (in_rtn_trade t) s = on_rtn_trade F conf libc t s
  run (in_rsp_order_action req info id) s = on_rsp_order_action F conf libc req info id s
  run (in_rsp_qry k row info id is_last) s = on_rsp_qry F conf libc k row info id is_last s
  run (in_async_loop clock cnt) s =
      let turn = async_turn F conf libc clock cnt s in returns turn.1.0 turn.1.1

  abbrev pub started : List (Call F) → ℕ
  started [] = 0
  started (start_login_thread ∷ calls) = started calls + 1
  started (_ ∷ calls) = started calls

  -- What any calls can lead to. Behind `exit` and behind a call that the language does not define there
  -- is nothing.
  pub data Reached : Program D → Type 0 where
    starts : Reached (record { handler = new_handler; starting = 0; sleeping = 0 })
    returned :
        (p : Program D) (t : CtpTradeHandler D) (i : Input D) (calls : List (Call F))
        → Reached p
        → run i p.handler ≡ returns t calls
        → Reached (record p { handler = t; starting = p.starting + started calls })
    thrown :
        (p : Program D) (t : CtpTradeHandler D) (i : Input D) (text : Bytes) (calls : List (Call F))
        → Reached p
        → run i p.handler ≡ throws text t calls
        → Reached (record p { handler = t; starting = p.starting + started calls })
    thread_sleeps :
        (p : Program D) (n : ℕ) (t : CtpTradeHandler D) (calls : List (Call F))
        → Reached p
        → p.starting ≡ n + 1
        → login_thread F conf p.handler ≡ returns t calls
        → Reached (record { handler = t; starting = n; sleeping = p.sleeping + 1 })
    thread_wakes :
        (p : Program D) (n : ℕ) (t : CtpTradeHandler D) (calls : List (Call F))
        → Reached p
        → p.sleeping ≡ n + 1
        → login_again F conf p.handler ≡ returns t calls
        → Reached (record { handler = t; starting = p.starting; sleeping = n })
