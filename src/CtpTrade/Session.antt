-- ===== src/CtpTrade/Session.antt =====
-- The connection of `CTPTradeHandler` (src/ctp-trade/ctp_trade_handler.cpp): authentication, login, and
-- what it remembers of them.
pub mod Retries
use babeltrader.Common.{
  ℕ, ◌+◌, Bytes, Bool, true, false, codes, [], ◌∷◌, ◌++◌, Option, none, some, if◌then◌else◌, take,
  ltb, not,
}
use babeltrader.Common.Int.{ℤ, pos, eqb_ℤ}
use babeltrader.Common.Double.{Double}
use babeltrader.QueryCache.{empty}
use babeltrader.CtpTrade.Logs.Texts
use babeltrader.CtpTrade.Fields.Session.{
  RspInfoField, RspAuthenticateField, RspUserLoginField, UserPasswordUpdateField,
}
use babeltrader.CtpTrade.Handler.{
  CtpTradeConf, CtpTradeHandler, Call, log, note, req_authenticate, req_user_login,
  req_settlement_info_confirm, start_login_thread, Run, returns, exits, undefined,
}

module _ {D : Type 0} where
  -- The constructor.
  unfoldable pub new_handler : CtpTradeHandler D
  unfolding empty
  new_handler = record {
    api = false;
    api_ready = false;
    req_login_cnt = 0;
    req_id = 1;
    order_ref = 1;
    order_action_ref = 1;
    ctp_tradeing_day = [];
    ctp_login_time = [];
    ctp_front_id = pos 0;
    ctp_session_id = pos 0;
    order_maps = record { wait_deal_orders = []; outside_order_maps = [] };
    tunnel = [];
    qry_cache = empty;
    rsp_qry_order_caches = [];
    rsp_qry_trade_caches = [];
    rsp_qry_position_caches = [];
    rsp_qry_position_detail_caches = [];
    rsp_qry_trade_account_caches = [];
    rsp_qry_product_caches = [];
    rsp_qry_instrument_caches = [];
  }

  unfoldable pub fill_connection_info :
      Bytes → Bytes → ℤ → ℤ → CtpTradeHandler D → CtpTradeHandler D
  fill_connection_info tradeing_day login_time front_id session_id s = record s {
    ctp_tradeing_day = tradeing_day;
    ctp_login_time = login_time;
    ctp_front_id = front_id;
    ctp_session_id = session_id;
    req_login_cnt = 0;
    api_ready = true;
  }

  unfoldable pub clear_connection_info : CtpTradeHandler D → CtpTradeHandler D
  clear_connection_info s = record s {
    api_ready = false;
    ctp_tradeing_day = [];
    ctp_login_time = [];
    ctp_front_id = pos 0;
    ctp_session_id = pos 0;
  }

abbrev pub failed : Option RspInfoField → Bool
failed none = false
failed (some info) = not (eqb_ℤ info.error_id (pos 0))

module _ (F : Double) (conf : CtpTradeConf) where
  open F use {D}

  unfoldable pub do_authenticate : CtpTradeHandler D → CtpTradeHandler D × Call F
  do_authenticate s = (
    record s { req_id = s.req_id + 1 },
    req_authenticate
        (record {
          broker_id = take 10 conf.broker_id;
          user_id = take 15 conf.user_id;
          auth_code = take 16 conf.auth_code;
          app_id = take 32 conf.app_id;
        })
        s.req_id,
  )

  unfoldable pub do_login : CtpTradeHandler D → CtpTradeHandler D × Call F
  do_login s = (
    record s { req_id = s.req_id + 1 },
    req_user_login
        (record {
          broker_id = take 10 conf.broker_id;
          user_id = take 15 conf.user_id;
          password = take 40 conf.password;
        })
        s.req_id,
  )

  unfoldable pub do_settlement_confirm : CtpTradeHandler D → CtpTradeHandler D × Call F
  do_settlement_confirm s = (
    record s { req_id = s.req_id + 1 },
    req_settlement_info_confirm
        (record {
          broker_id = take 10 conf.broker_id;
          investor_id = take 12 conf.user_id;
          confirm_date = [];
          confirm_time = [];
          settlement_id = pos 0;
          account_id = [];
          currency_id = [];
        })
        s.req_id,
  )

  unfoldable pub on_front_connected : CtpTradeHandler D → Run F
  unfolding do_authenticate
  on_front_connected s =
      let asked = do_authenticate s in returns asked.0 (log Texts.front_connected ∷ asked.1 ∷ [])

  unfoldable pub on_front_disconnected : ℤ → CtpTradeHandler D → Run F
  unfolding clear_connection_info
  on_front_disconnected reason s =
      returns (clear_connection_info s) (log (Texts.front_disconnected reason) ∷ [])

  -- The logs use the pointer to the error without a test.
  unfoldable pub on_rsp_error : Option RspInfoField → ℕ → CtpTradeHandler D → Run F
  on_rsp_error none n_request_id s = undefined
  on_rsp_error (some info) n_request_id s =
      returns s (log (Texts.rsperror info (pos n_request_id)) ∷ [])

  unfoldable pub on_heart_beat_warning : ℤ → CtpTradeHandler D → Run F
  on_heart_beat_warning n_time_lapse s = returns s (log (Texts.heartbeat_warning n_time_lapse) ∷ [])

  unfoldable pub on_rsp_user_password_update :
      Option UserPasswordUpdateField → Option RspInfoField → ℕ → CtpTradeHandler D → Run F
  on_rsp_user_password_update none info n_request_id s = undefined
  on_rsp_user_password_update (some field) none n_request_id s = undefined
  on_rsp_user_password_update (some field) (some info) n_request_id s =
      returns s (log (Texts.password_update field info (pos n_request_id)) ∷ [])

  -- `exits` is `exit(1)`.
  unfoldable pub on_rsp_authenticate :
      Option RspAuthenticateField → Option RspInfoField → ℕ → CtpTradeHandler D → Run F
  unfolding do_login
  on_rsp_authenticate none info n_request_id s = undefined
  on_rsp_authenticate (some field) none n_request_id s = undefined
  on_rsp_authenticate (some field) (some info) n_request_id s =
      let call = log (Texts.authenticate field info (pos n_request_id)) in
      let asked = do_login s in
      if failed (some info)
      then exits (call ∷ note (codes "failed auth! exit!!!") ∷ [])
      else returns asked.0 (call ∷ asked.1 ∷ [])

  unfoldable pub on_rsp_user_login :
      Option RspUserLoginField → Option RspInfoField → ℕ → CtpTradeHandler D → Run F
  unfolding fill_connection_info do_settlement_confirm
  on_rsp_user_login none info n_request_id s = undefined
  on_rsp_user_login (some field) none n_request_id s = undefined
  on_rsp_user_login (some field) (some info) n_request_id s =
      let call = log (Texts.rsp_user_login field info (pos n_request_id)) in
      let filled =
        fill_connection_info field.trading_day field.login_time field.front_id field.session_id s in
      let asked = do_settlement_confirm filled in
      if failed (some info)
      then returns s (call ∷ start_login_thread ∷ [])
      else returns asked.0 (call ∷ asked.1 ∷ [])

  -- The thread up to its sleep of a minute, or to its end with the program.
  unfoldable pub login_thread : CtpTradeHandler D → Run F
  login_thread s =
      if ltb s.req_login_cnt 3
      then returns s (note (codes "failed login trade service, sleep!") ∷ [])
      else exits (note (codes "failed login trade service! exit!!!") ∷ [])

  -- The thread behind its sleep.
  unfoldable pub login_again : CtpTradeHandler D → Run F
  unfolding do_login
  login_again s =
      let asked = do_login (record s { req_login_cnt = s.req_login_cnt + 1 }) in
      returns asked.0 (note (codes "try to login trade service again") ∷ asked.1 ∷ [])

  unfoldable pub on_rsp_user_logout : Option RspInfoField → ℕ → CtpTradeHandler D → Run F
  unfolding clear_connection_info
  on_rsp_user_logout none n_request_id s = undefined
  on_rsp_user_logout (some info) n_request_id s =
      returns (clear_connection_info s) (log (Texts.rsp_user_logout info (pos n_request_id)) ∷ [])

  unfoldable pub on_rsp_settlement_info_confirm : CtpTradeHandler D → Run F
  on_rsp_settlement_info_confirm s = returns s []

  -- `RunAPI` sets `api_` and logs the version that the interface gives; what it calls of the interface
  -- then is left out.
  unfoldable pub run_api : Bytes → CtpTradeHandler D → Run F
  run_api version s =
      returns (record s { api = true }) (note (codes "CTP trade API version:" ++ version) ∷ [])
