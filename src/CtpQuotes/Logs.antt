-- ===== src/CtpQuotes/Logs.antt =====
-- What `CTPQuoteHandler` logs (src/ctp-quotes/ctp_quote_handler.cpp), as calls of the writer.
use babeltrader.Common.{Bytes, List, [], ◌∷◌, ◌++◌, codes, Bool, true, ◌≡◌, refl}
use babeltrader.Common.Int.{ℤ}
use babeltrader.Common.Double.{Double}
use babeltrader.Json.{Event, key, string, int, double}
use babeltrader.Json.Grammar.{IsJson}
use babeltrader.Json.Numbers.{written, all_finite, written-IsJson}
use babeltrader.CtpTrade.Logs.{message, data_object, error_members}
use babeltrader.CtpTrade.Fields.Session.{RspInfoField, RspUserLoginField}
use babeltrader.CtpQuotes.Depth.{DepthMarketData}

module _ (F : Double) where
  open F use {D, of_int}

  abbrev answered : ℤ → RspInfoField → List (Event D) → List (Event D)
  answered n_request_id info rest =
      key (codes "req_id") ∷ int n_request_id ∷ (error_members info ++ rest)

  unfoldable pub output_front_connected : List (Event D)
  output_front_connected = message "connected" []

  unfoldable pub output_front_disconnected : ℤ → List (Event D)
  output_front_disconnected reason =
      message "disconnected" (data_object (key (codes "reason") ∷ int reason ∷ []))

  unfoldable pub output_rsp_user_login : RspUserLoginField → RspInfoField → ℤ → List (Event D)
  output_rsp_user_login rsp_user_login info n_request_id = message "login" (
      answered n_request_id info (
        data_object (
          key (codes "TradingDay")
          ∷ string rsp_user_login.trading_day
          ∷ key (codes "LoginTime")
          ∷ string rsp_user_login.login_time
          ∷ key (codes "BrokerID")
          ∷ string rsp_user_login.broker_id
          ∷ key (codes "UserID")
          ∷ string rsp_user_login.user_id
          ∷ key (codes "SystemName")
          ∷ string rsp_user_login.system_name
          ∷ key (codes "FrontID")
          ∷ int rsp_user_login.front_id
          ∷ key (codes "SessionID")
          ∷ int rsp_user_login.session_id
          ∷ key (codes "MaxOrderRef")
          ∷ string rsp_user_login.max_order_ref
          ∷ key (codes "SHFETime")
          ∷ string rsp_user_login.shfe_time
          ∷ key (codes "DCETime")
          ∷ string rsp_user_login.dce_time
          ∷ key (codes "CZCETime")
          ∷ string rsp_user_login.czce_time
          ∷ key (codes "FFEXTime")
          ∷ string rsp_user_login.ffex_time
          ∷ key (codes "INETime")
          ∷ string rsp_user_login.ine_time
          ∷ [])))

  unfoldable pub output_rsp_user_logout : RspInfoField → ℤ → List (Event D)
  output_rsp_user_logout info n_request_id = message "logout" (answered n_request_id info [])

  abbrev instrument_object : Bytes → List (Event D)
  instrument_object instrument = data_object (key (codes "InstrumentID") ∷ string instrument ∷ [])

  unfoldable pub output_rsp_sub_market_data : Bytes → RspInfoField → ℤ → List (Event D)
  output_rsp_sub_market_data instrument info n_request_id =
      message "rspsubmarketdata" (answered n_request_id info (instrument_object instrument))

  unfoldable pub output_rsp_unsub_market_data : Bytes → RspInfoField → ℤ → List (Event D)
  output_rsp_unsub_market_data instrument info n_request_id =
      message "rspunsubmarketdata" (answered n_request_id info (instrument_object instrument))

  -- `OnHeartBeatWarning` and `OnRspError` do nothing but log.
  unfoldable pub on_heart_beat_warning : ℤ → List (Event D)
  on_heart_beat_warning n_time_lapse =
      message "heartbeat_warning" (key (codes "time_elapse") ∷ int n_time_lapse ∷ [])

  unfoldable pub on_rsp_error : RspInfoField → ℤ → List (Event D)
  on_rsp_error info n_request_id = message "on_error" (answered n_request_id info [])

  -- Only a build with `ENABLE_PERFORMANCE_TEST` names it. `Volume` is an `int`.
  unfoldable pub output_market_data : DepthMarketData D → List (Event D)
  output_market_data market_data = message "marketdata" (
      data_object (
        key (codes "TradingDay")
        ∷ string market_data.trading_day
        ∷ key (codes "InstrumentID")
        ∷ string market_data.instrument_id
        ∷ key (codes "ExchangeID")
        ∷ string market_data.exchange_id
        ∷ key (codes "ExchangeInstID")
        ∷ string market_data.exchange_inst_id
        ∷ key (codes "LastPrice")
        ∷ double market_data.last_price
        ∷ key (codes "PreSettlementPrice")
        ∷ double market_data.pre_settlement_price
        ∷ key (codes "PreClosePrice")
        ∷ double market_data.pre_close_price
        ∷ key (codes "PreOpenInterest")
        ∷ double market_data.pre_open_interest
        ∷ key (codes "OpenPrice")
        ∷ double market_data.open_price
        ∷ key (codes "HighestPrice")
        ∷ double market_data.highest_price
        ∷ key (codes "LowestPrice")
        ∷ double market_data.lowest_price
        ∷ key (codes "Volume")
        ∷ double (of_int market_data.volume)
        ∷ key (codes "Turnover")
        ∷ double market_data.turnover
        ∷ key (codes "OpenInterest")
        ∷ double market_data.open_interest
        ∷ key (codes "ClosePrice")
        ∷ double market_data.close_price
        ∷ key (codes "SettlementPrice")
        ∷ double market_data.settlement_price
        ∷ key (codes "UpperLimitPrice")
        ∷ double market_data.upper_limit_price
        ∷ key (codes "LowerLimitPrice")
        ∷ double market_data.lower_limit_price
        ∷ key (codes "PreDelta")
        ∷ double market_data.pre_delta
        ∷ key (codes "CurrDelta")
        ∷ double market_data.curr_delta
        ∷ key (codes "UpdateTime")
        ∷ string market_data.update_time
        ∷ key (codes "UpdateMillisec")
        ∷ int market_data.update_millisec
        ∷ key (codes "BidPrice1")
        ∷ double market_data.bid_price1
        ∷ key (codes "BidVolume1")
        ∷ int market_data.bid_volume1
        ∷ key (codes "AskPrice1")
        ∷ double market_data.ask_price1
        ∷ key (codes "AskVolume1")
        ∷ int market_data.ask_volume1
        ∷ key (codes "BidPrice2")
        ∷ double market_data.bid_price2
        ∷ key (codes "BidVolume2")
        ∷ int market_data.bid_volume2
        ∷ key (codes "AskPrice2")
        ∷ double market_data.ask_price2
        ∷ key (codes "AskVolume2")
        ∷ int market_data.ask_volume2
        ∷ key (codes "BidPrice3")
        ∷ double market_data.bid_price3
        ∷ key (codes "BidVolume3")
        ∷ int market_data.bid_volume3
        ∷ key (codes "AskPrice3")
        ∷ double market_data.ask_price3
        ∷ key (codes "AskVolume3")
        ∷ int market_data.ask_volume3
        ∷ key (codes "BidPrice4")
        ∷ double market_data.bid_price4
        ∷ key (codes "BidVolume4")
        ∷ int market_data.bid_volume4
        ∷ key (codes "AskPrice4")
        ∷ double market_data.ask_price4
        ∷ key (codes "AskVolume4")
        ∷ int market_data.ask_volume4
        ∷ key (codes "BidPrice5")
        ∷ double market_data.bid_price5
        ∷ key (codes "BidVolume5")
        ∷ int market_data.bid_volume5
        ∷ key (codes "AskPrice5")
        ∷ double market_data.ask_price5
        ∷ key (codes "AskVolume5")
        ∷ int market_data.ask_volume5
        ∷ key (codes "AveragePrice")
        ∷ double market_data.average_price
        ∷ key (codes "ActionDay")
        ∷ string market_data.action_day
        ∷ []))

  -- What these functions log. An ignored tick is logged by `on_rtn_depth_market_data` of CtpQuotes, and
  -- the rest are plain texts.
  pub data Heard : Type 0 where
    connected : Heard
    disconnected heart_beat : ℤ → Heard
    logged_in : RspUserLoginField → RspInfoField → ℤ → Heard
    logged_out failed : RspInfoField → ℤ → Heard
    subscribed unsubscribed : Bytes → RspInfoField → ℤ → Heard
    received : DepthMarketData D → Heard

  unfoldable pub heard_text : Heard → List (Event D)
  unfolding output_front_connected output_front_disconnected on_heart_beat_warning
      output_rsp_user_login output_rsp_user_logout on_rsp_error output_rsp_sub_market_data
      output_rsp_unsub_market_data output_market_data
  heard_text connected = output_front_connected
  heard_text (disconnected reason) = output_front_disconnected reason
  heard_text (heart_beat n_time_lapse) = on_heart_beat_warning n_time_lapse
  heard_text (logged_in login info n) = output_rsp_user_login login info n
  heard_text (logged_out info n) = output_rsp_user_logout info n
  heard_text (failed info n) = on_rsp_error info n
  heard_text (subscribed instrument info n) = output_rsp_sub_market_data instrument info n
  heard_text (unsubscribed instrument info n) = output_rsp_unsub_market_data instrument info n
  heard_text (received market_data) = output_market_data market_data

  heard_text-spells : (h : Heard) → IsJson (heard_text h)
  unfolding heard_text
  heard_text-spells connected = refl
  heard_text-spells (disconnected reason) = refl
  heard_text-spells (heart_beat n_time_lapse) = refl
  heard_text-spells (logged_in login info n) = refl
  heard_text-spells (logged_out info n) = refl
  heard_text-spells (failed info n) = refl
  heard_text-spells (subscribed instrument info n) = refl
  heard_text-spells (unsubscribed instrument info n) = refl
  heard_text-spells (received market_data) = refl

  -- What the `Output…` functions, `OnHeartBeatWarning` and `OnRspError` of the quotes handler log has the
  -- structure of one JSON text if all the doubles in it are numbers, neither NaN nor infinite: brackets
  -- match, a key and a value alternate, and no key of an object comes twice. The texts in it are bytes
  -- in whatever encoding they came.
  pub heard_text-IsJson :
      (finite : D → Bool) (h : Heard)
      → all_finite finite (heard_text h) ≡ true
      → IsJson (written finite (heard_text h))
  heard_text-IsJson finite h e = written-IsJson finite (heard_text h) (heard_text-spells h) e
