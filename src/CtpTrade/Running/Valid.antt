-- ===== src/CtpTrade/Running/Valid.antt =====
-- What holds of `CTPTradeHandler` at all times (src/ctp-trade/ctp_trade_handler.cpp).
use babeltrader.Common.{refl, none, some, if_both, not, ◌&&◌, ltb}
use babeltrader.Common.Double.{Double}
use babeltrader.Common.StdMap.{nat_key, lookup, none-ne-some}
use mathlib.Core.Bool.{true≢false}
use mathlib.Core.Path.{subst}
use babeltrader.QueryCache.{
  empty, cache_qry_order, cache_qry_trade, cache_qry_position, cache_qry_position_detail,
  cache_qry_trade_account, cache_qry_product, get_and_clear_cache_qry_order,
  get_and_clear_cache_qry_trade, get_and_clean_cache_qry_position,
  get_and_clean_cache_qry_position_detail, get_and_clean_cache_qry_trade_account,
  get_and_clean_cache_qry_product,
}
use babeltrader.CtpTrade.Handler.{CtpTradeConf, Libc, CtpTradeHandler}
use babeltrader.CtpTrade.Asked.{is_empty}
use babeltrader.CtpTrade.Trading.{
  not_ready, on_rsp_order_insert, on_err_rtn_order_insert, on_rsp_order_action, on_rtn_order,
  on_rtn_trade,
}
use babeltrader.CtpTrade.Querying.{
  query_order, query_trade, query_position, query_position_detail, query_trade_account,
  query_product, query_trading_day,
}
use babeltrader.CtpTrade.Session.{
  failed, new_handler, clear_connection_info, fill_connection_info, do_authenticate, do_login,
  do_settlement_confirm, on_front_connected, on_front_disconnected, on_rsp_error,
  on_heart_beat_warning, on_rsp_user_password_update, on_rsp_authenticate, on_rsp_user_login,
  login_thread, login_again, on_rsp_user_logout, on_rsp_settlement_info_confirm, run_api,
}
use babeltrader.CtpTrade.Running.{
  Input, run, Program, Reached, starts, returned, thrown, thread_sleeps, thread_wakes, in_run_api,
  in_insert_order, in_cancel_order, in_query_order, in_query_trade, in_query_position,
  in_query_position_detail, in_query_trade_account, in_query_product, in_query_trading_day,
  in_front_connected, in_front_disconnected, in_rsp_error, in_heart_beat_warning,
  in_rsp_user_password_update, in_rsp_authenticate, in_rsp_user_login, in_rsp_user_logout,
  in_rsp_settlement_info_confirm, in_rsp_order_insert, in_err_rtn_order_insert, in_rtn_order,
  in_rtn_trade, in_rsp_order_action, in_rsp_qry, in_async_loop,
}
use babeltrader.CtpTrade.Running.Invariant.{more-IsBelow, IsValid, IsValidRun, one_more}
use babeltrader.CtpTrade.Running.Orders.{
  insert_order-IsValid, cancel_order-IsValid, async_turn-IsValid,
}
use babeltrader.CtpTrade.Running.Queries.{asked-IsValid, on_rsp_qry-IsValid}

module _ (F : Double) (conf : CtpTradeConf) (libc : Libc) where
  open F use {D}

  idle-IsValid : (s : CtpTradeHandler D) → IsValid s → IsValid (clear_connection_info s)
  unfolding clear_connection_info
  idle-IsValid s v = (λ _. (refl, refl, refl, refl), v.1)

  run-IsValid :
      (i : Input D) (s : CtpTradeHandler D)
      → IsValid s
      → IsValidRun F conf libc (run F conf libc i s)
  unfolding run run_api query_order query_trade query_position query_position_detail
      query_trade_account query_product query_trading_day on_front_connected on_front_disconnected
      on_rsp_error on_heart_beat_warning on_rsp_user_password_update on_rsp_authenticate
      on_rsp_user_login on_rsp_user_logout on_rsp_settlement_info_confirm on_rsp_order_insert
      on_err_rtn_order_insert on_rtn_order on_rtn_trade on_rsp_order_action do_authenticate do_login
      do_settlement_confirm fill_connection_info cache_qry_order cache_qry_trade cache_qry_position
      cache_qry_position_detail cache_qry_trade_account cache_qry_product
      get_and_clear_cache_qry_order get_and_clear_cache_qry_trade get_and_clean_cache_qry_position
      get_and_clean_cache_qry_position_detail get_and_clean_cache_qry_trade_account
      get_and_clean_cache_qry_product
  run-IsValid (in_run_api version) s v = v
  run-IsValid (in_insert_order ret order) s v = insert_order-IsValid F conf libc ret order s v
  run-IsValid (in_cancel_order ret order) s v = cancel_order-IsValid F conf libc ret order s v
  run-IsValid (in_query_order ret ws qry) s v =
      if_both (IsValidRun F conf libc) (not_ready s) v
        (asked-IsValid F conf libc ret _ _ ws _ _ s v refl refl)
  run-IsValid (in_query_trade ret ws qry) s v =
      if_both (IsValidRun F conf libc) (not_ready s) v
        (asked-IsValid F conf libc ret _ _ ws _ _ s v refl refl)
  run-IsValid (in_query_position ret ws qry) s v =
      if_both (IsValidRun F conf libc) (not_ready s) v
        (asked-IsValid F conf libc ret _ _ ws _ _ s v refl refl)
  run-IsValid (in_query_position_detail ret ws qry) s v =
      if_both (IsValidRun F conf libc) (not_ready s) v
        (asked-IsValid F conf libc ret _ _ ws _ _ s v refl refl)
  run-IsValid (in_query_trade_account ret ws qry) s v =
      if_both (IsValidRun F conf libc) (not_ready s) v
        (asked-IsValid F conf libc ret _ _ ws _ _ s v refl refl)
  run-IsValid (in_query_product ret ws qry) s v = if_both (IsValidRun F conf libc) (not_ready s) v (
      if_both (IsValidRun F conf libc) (not (is_empty qry.symbol) && is_empty qry.contract)
        (asked-IsValid F conf libc ret _ _ ws _ _ s v refl refl)
        (asked-IsValid F conf libc ret _ _ ws _ _ s v refl refl))
  run-IsValid (in_query_trading_day ws qry) s v = v
  run-IsValid in_front_connected s v = one_more F conf libc s v
  run-IsValid (in_front_disconnected reason) s v = idle-IsValid s v
  run-IsValid (in_rsp_error none id) s v = tt
  run-IsValid (in_rsp_error (some info) id) s v = v
  run-IsValid (in_heart_beat_warning lapse) s v = v
  run-IsValid (in_rsp_user_password_update none info id) s v = tt
  run-IsValid (in_rsp_user_password_update (some field) none id) s v = tt
  run-IsValid (in_rsp_user_password_update (some field) (some info) id) s v = v
  run-IsValid (in_rsp_authenticate none info id) s v = tt
  run-IsValid (in_rsp_authenticate (some field) none id) s v = tt
  run-IsValid (in_rsp_authenticate (some field) (some info) id) s v =
      if_both (IsValidRun F conf libc) (failed (some info)) tt (one_more F conf libc s v)
  run-IsValid (in_rsp_user_login none info id) s v = tt
  run-IsValid (in_rsp_user_login (some field) none id) s v = tt
  run-IsValid (in_rsp_user_login (some field) (some info) id) s v =
      if_both (IsValidRun F conf libc) (failed (some info)) v
        (λ e. absurd (true≢false e), more-IsBelow s.req_id s.qry_cache.qry_ws_cache v.1)
  run-IsValid (in_rsp_user_logout none id) s v = tt
  run-IsValid (in_rsp_user_logout (some info) id) s v = idle-IsValid s v
  run-IsValid in_rsp_settlement_info_confirm s v = v
  run-IsValid (in_rsp_order_insert now none info id) s v = tt
  run-IsValid (in_rsp_order_insert now (some req) none id) s v = tt
  run-IsValid (in_rsp_order_insert now (some req) (some info) id) s v = v
  run-IsValid (in_err_rtn_order_insert none info) s v = tt
  run-IsValid (in_err_rtn_order_insert (some req) none) s v = tt
  run-IsValid (in_err_rtn_order_insert (some req) (some info)) s v = v
  run-IsValid (in_rtn_order p) s v = v
  run-IsValid (in_rtn_trade t) s v = v
  run-IsValid (in_rsp_order_action none info id) s v = tt
  run-IsValid (in_rsp_order_action (some req) none id) s v = tt
  run-IsValid (in_rsp_order_action (some req) (some info) id) s v = v
  run-IsValid (in_rsp_qry k row info id is_last) s v =
      on_rsp_qry-IsValid F conf libc k row info id is_last s v
  run-IsValid (in_async_loop clock cnt) s v = async_turn-IsValid F conf libc clock cnt s v

  login_thread-IsValid :
      (s : CtpTradeHandler D) → IsValid s → IsValidRun F conf libc (login_thread F conf s)
  unfolding login_thread
  login_thread-IsValid s v = if_both (IsValidRun F conf libc) (ltb s.req_login_cnt 3) v tt

  login_again-IsValid :
      (s : CtpTradeHandler D) → IsValid s → IsValidRun F conf libc (login_again F conf s)
  unfolding login_again do_login
  login_again-IsValid s v = one_more F conf libc s v

  -- After any calls of which none begins before another has ended, in any order, from the clients, from
  -- the interface and from the handler's own threads, any number of which may sleep: without a
  -- connection the handler remembers nothing of one, and no client waits at the number of a request
  -- that is still to come, so that no query is cached in the place of another.
  pub Reached-IsValid : (p : Program D) → Reached F conf libc p → IsValid p.handler
  unfolding new_handler empty lookup
  Reached-IsValid p starts = (λ _. (refl, refl, refl, refl), λ id ws e. absurd (none-ne-some ws e))
  Reached-IsValid _ (returned p t i calls r e) =
      subst (IsValidRun F conf libc) e (run-IsValid i p.handler (Reached-IsValid p r))
  Reached-IsValid _ (thrown p t i text calls r e) =
      subst (IsValidRun F conf libc) e (run-IsValid i p.handler (Reached-IsValid p r))
  Reached-IsValid _ (thread_sleeps p n t calls r w e) =
      subst (IsValidRun F conf libc) e (login_thread-IsValid p.handler (Reached-IsValid p r))
  Reached-IsValid _ (thread_wakes p n t calls r w e) =
      subst (IsValidRun F conf libc) e (login_again-IsValid p.handler (Reached-IsValid p r))
