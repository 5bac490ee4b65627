-- ===== src/CtpTrade/Handler.antt =====
-- The state of `CTPTradeHandler` (src/ctp-trade/ctp_trade_handler.h), its configuration
-- (src/ctp-trade/conf.h), and what a call of one of its functions comes to. The interface behind
-- `api_` is not modelled: the calls of it are part of the result, and what it answers is an argument.
-- Its counters are numbers that do not wrap around, so that the model is that of a run in which no
-- `int` overflows. A mutex makes no difference to a call that runs alone.
use babeltrader.Common.{ℕ, Bytes, Bool, List}
use babeltrader.Common.Int.{ℤ}
use babeltrader.Common.Double.{Double}
use babeltrader.Common.StdMap.{StdMap}
use babeltrader.Utils.{Tm}
use babeltrader.QueryCache.{QueryCache}
use babeltrader.TradeService.Messages.{Message}
use babeltrader.CtpTrade.{OrderMaps}
use babeltrader.CtpTrade.Logs.Texts.{Log}
use babeltrader.CtpTrade.Fields.Requests.{
  InputOrderField, InputOrderActionField, QryOrderField, QryTradeField, QryInvestorPositionField,
  QryInvestorPositionDetailField, QryTradingAccountField, QryProductField, QryInstrumentField,
}
use babeltrader.CtpTrade.Fields.Orders.{OrderField, TradeField}
use babeltrader.CtpTrade.Fields.Positions.{InvestorPositionField, InvestorPositionDetailField}
use babeltrader.CtpTrade.Fields.Accounts.{TradingAccountField, ProductField, InstrumentField}
use babeltrader.CtpTrade.Fields.Session.{
  ReqAuthenticateField, ReqUserLoginField, SettlementInfoConfirmField,
}

-- The members of `CTPTradeConf` that the handler sends on.
pub record CtpTradeConf : Type 0 where
  pub broker_id : Bytes
  pub user_id : Bytes
  pub password : Bytes
  pub app_id : Bytes
  pub auth_code : Bytes

-- The C library: the text that `%d` gives, `atoi` on texts of digits, and `mktime`.
pub record Libc : Type 0 where
  pub print : ℤ → Bytes
  pub atoi : Bytes → ℕ
  pub mktime : Tm → ℤ

-- A `TradeBlock` with what was copied into it.
pub data Block (D : Type 0) : Type 0 where
  trade_block_order_status : OrderField D → Block D
  trade_block_order_deal : TradeField D → Block D

-- `api` tells that `api_` is set; `tunnel` holds the blocks that are written and not yet read.
pub record CtpTradeHandler (D : Type 0) : Type 0 where
  pub api : Bool
  pub api_ready : Bool
  pub req_login_cnt : ℕ
  pub req_id : ℕ
  pub order_ref : ℕ
  pub order_action_ref : ℕ
  pub ctp_tradeing_day : Bytes
  pub ctp_login_time : Bytes
  pub ctp_front_id : ℤ
  pub ctp_session_id : ℤ
  pub order_maps : OrderMaps D
  pub tunnel : List (Block D)
  pub qry_cache : QueryCache
  pub rsp_qry_order_caches : StdMap ℕ (List (OrderField D))
  pub rsp_qry_trade_caches : StdMap ℕ (List (TradeField D))
  pub rsp_qry_position_caches : StdMap ℕ (List (InvestorPositionField D))
  pub rsp_qry_position_detail_caches : StdMap ℕ (List (InvestorPositionDetailField D))
  pub rsp_qry_trade_account_caches : StdMap ℕ (List (TradingAccountField D))
  pub rsp_qry_product_caches : StdMap ℕ (List (ProductField D))
  pub rsp_qry_instrument_caches : StdMap ℕ (List (InstrumentField D))

module _ (F : Double) where
  open F use {D}

  -- What the handler calls: the log, with what a writer wrote or with a plain text, the interface with
  -- the number of the request, and `TradeService`, which writes to all clients or to the one that asked.
  -- The thread of `OnRspUserLogin` does what `login_thread` does, and behind its sleep what
  -- `login_again` does.
  pub data Call : Type 0 where
    log : Log D → Call
    note : Bytes → Call
    req_authenticate : ReqAuthenticateField → ℕ → Call
    req_user_login : ReqUserLoginField → ℕ → Call
    req_settlement_info_confirm : SettlementInfoConfirmField → ℕ → Call
    req_order_insert : InputOrderField D → ℕ → Call
    req_order_action : InputOrderActionField D → ℕ → Call
    req_qry_order : QryOrderField → ℕ → Call
    req_qry_trade : QryTradeField → ℕ → Call
    req_qry_investor_position : QryInvestorPositionField → ℕ → Call
    req_qry_investor_position_detail : QryInvestorPositionDetailField → ℕ → Call
    req_qry_trading_account : QryTradingAccountField → ℕ → Call
    req_qry_product : QryProductField → ℕ → Call
    req_qry_instrument : QryInstrumentField → ℕ → Call
    broadcast : Message F → Call
    respond : ℕ → Message F → Call
    start_login_thread : Call

  -- What a function comes to: it returns, it throws, or it ends the program; or what it does is not
  -- defined by the language, as the use of a null pointer is.
  pub data Run : Type 0 where
    returns : CtpTradeHandler D → List Call → Run
    throws : Bytes → CtpTradeHandler D → List Call → Run
    exits : List Call → Run
    undefined : Run
