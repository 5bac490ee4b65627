-- ===== src/CtpTrade/Querying.antt =====
-- The queries that `CTPTradeHandler` sends (src/ctp-trade/ctp_trade_handler.cpp). A client's socket is
-- a number, which stands for a pointer that is not null.
pub mod Answers
pub mod Kinds
pub mod Rows
use babeltrader.Common.{
  ℕ, ◌+◌, Bytes, Bool, String, codes, List, [], ◌∷◌, ◌++◌, Option, none, some, if◌then◌else◌,
  length, take, not, ◌&&◌,
}
use mathlib.Core.List.{map}
use babeltrader.Common.Int.{ℤ, pos, eqb_ℤ}
use babeltrader.Common.Double.{Double}
use babeltrader.Common.StdMap.{StdMap, nat_key, lookup, insert, erase}
use babeltrader.Structs.{
  OrderQuery, TradeQuery, PositionQuery, TradeAccountQuery, ProductQuery, TradingDayQuery,
}
use babeltrader.QueryCache.{
  QueryCache, Fetched, cache_qry_order, get_and_clear_cache_qry_order, cache_qry_trade,
  get_and_clear_cache_qry_trade, cache_qry_position, get_and_clean_cache_qry_position,
  cache_qry_position_detail, get_and_clean_cache_qry_position_detail, cache_qry_trade_account,
  get_and_clean_cache_qry_trade_account, cache_qry_product, get_and_clean_cache_qry_product,
}
use babeltrader.TradeService.Messages.{
  Message, orders, trades, positions_type1, position_details_type1, trade_accounts_type1,
  products_type1, trading_day,
}
use babeltrader.CtpTrade.Logs.Texts
use babeltrader.CtpTrade.Fields.Orders.{OrderField, TradeField}
use babeltrader.CtpTrade.Fields.Positions.{InvestorPositionField, InvestorPositionDetailField}
use babeltrader.CtpTrade.Fields.Accounts.{TradingAccountField, ProductField, InstrumentField}
use babeltrader.CtpTrade.Fields.Session.{RspInfoField}
use babeltrader.CtpTrade.Handler.{
  CtpTradeConf, Libc, CtpTradeHandler, Call, log, req_qry_order, req_qry_trade,
  req_qry_investor_position, req_qry_investor_position_detail, req_qry_trading_account,
  req_qry_product, req_qry_instrument, respond, Run, returns, throws, undefined,
}
use babeltrader.CtpTrade.Asked.{
  is_empty, convert_query_order_common2ctp, convert_query_trade_common2ctp,
  convert_query_position_common2ctp, convert_query_position_detail_common2ctp,
  convert_query_trade_account_common2ctp, product_request, instrument_request,
}
use babeltrader.CtpTrade.Answered.{
  new_order, convert_rtn_order_ctp2common, rtn_order_status, convert_rtn_trade_ctp2common,
  rtn_trade_deal,
}
use babeltrader.CtpTrade.Answered.Positions.{
  convert_position_ctp2common, convert_position_detail_ctp2common, convert_trade_account_ctp2common,
  convert_product_ctp2common, convert_instrument_ctp2common,
}
use babeltrader.CtpTrade.Trading.{not_ready}

module _ (F : Double) where
  open F use {D}

  -- How a query goes on behind the conversion: the calls, the cache with the query, the cache without
  -- it again, and what `Req…` returned.
  unfoldable pub asked :
      (ℤ → Bytes) → ℤ → String → List (Call F) → QueryCache → QueryCache → CtpTradeHandler D → Run F
  asked print ret text calls cached cleared s =
      if eqb_ℤ ret (pos 0)
      then returns (record s { qry_cache = cached; req_id = s.req_id + 1 }) calls
      else throws (codes text ++ print ret)
          (record s { qry_cache = cleared; req_id = s.req_id + 1 }) calls

module _ (F : Double) (conf : CtpTradeConf) (libc : Libc) where
  open F use {D, to_int}

  -- `ret` is what the call of the interface returns.
  unfoldable pub query_order : ℤ → ℕ → OrderQuery → CtpTradeHandler D → Run F
  unfolding convert_query_order_common2ctp cache_qry_order get_and_clear_cache_qry_order
  query_order ret ws qry s =
      let req = convert_query_order_common2ctp conf qry in
      let cached = cache_qry_order s.req_id ws qry s.qry_cache in
      if not_ready s
      then throws (codes "trade api not ready yet") s []
      else asked F libc.print ret "failed in ReqQryOrder, return "
          (log (Texts.order_query req) ∷ req_qry_order req s.req_id ∷ []) cached
          (get_and_clear_cache_qry_order s.req_id cached).0 s

  unfoldable pub query_trade : ℤ → ℕ → TradeQuery → CtpTradeHandler D → Run F
  unfolding convert_query_trade_common2ctp cache_qry_trade get_and_clear_cache_qry_trade
  query_trade ret ws qry s =
      let req = convert_query_trade_common2ctp conf qry in
      let cached = cache_qry_trade s.req_id ws qry s.qry_cache in
      if not_ready s
      then throws (codes "trade api not ready yet") s []
      else asked F libc.print ret "failed in ReqQryTrade, return "
          (log (Texts.trade_query req) ∷ req_qry_trade req s.req_id ∷ []) cached
          (get_and_clear_cache_qry_trade s.req_id cached).0 s

  unfoldable pub query_position : ℤ → ℕ → PositionQuery → CtpTradeHandler D → Run F
  unfolding convert_query_position_common2ctp cache_qry_position get_and_clean_cache_qry_position
  query_position ret ws qry s =
      let req = convert_query_position_common2ctp conf qry in
      let cached = cache_qry_position s.req_id ws qry s.qry_cache in
      if not_ready s
      then throws (codes "trade api not ready yet") s []
      else asked F libc.print ret "failed in ReqQryInvestorPosition, return "
          (log (Texts.position_query req) ∷ req_qry_investor_position req s.req_id ∷ []) cached
          (get_and_clean_cache_qry_position s.req_id cached).0 s

  unfoldable pub query_position_detail : ℤ → ℕ → PositionQuery → CtpTradeHandler D → Run F
  unfolding convert_query_position_detail_common2ctp cache_qry_position_detail
      get_and_clean_cache_qry_position_detail
  query_position_detail ret ws qry s =
      let req = convert_query_position_detail_common2ctp conf qry in
      let cached = cache_qry_position_detail s.req_id ws qry s.qry_cache in
      if not_ready s
      then throws (codes "trade api not ready yet") s []
      else asked F libc.print ret "failed in ReqQryInvestorPositionDetail, return "
          (log (Texts.position_detail_query req)
            ∷ req_qry_investor_position_detail req s.req_id
            ∷ [])
          cached (get_and_clean_cache_qry_position_detail s.req_id cached).0 s

  unfoldable pub query_trade_account : ℤ → ℕ → TradeAccountQuery → CtpTradeHandler D → Run F
  unfolding convert_query_trade_account_common2ctp cache_qry_trade_account
      get_and_clean_cache_qry_trade_account
  query_trade_account ret ws qry s =
      let req = convert_query_trade_account_common2ctp conf qry in
      let cached = cache_qry_trade_account s.req_id ws qry s.qry_cache in
      if not_ready s
      then throws (codes "trade api not ready yet") s []
      else asked F libc.print ret "failed in ReqQryTradingAccount, return "
          (log (Texts.trade_account_query req) ∷ req_qry_trading_account req s.req_id ∷ []) cached
          (get_and_clean_cache_qry_trade_account s.req_id cached).0 s

  unfoldable pub query_product : ℤ → ℕ → ProductQuery → CtpTradeHandler D → Run F
  unfolding product_request instrument_request cache_qry_product get_and_clean_cache_qry_product
  query_product ret ws qry s =
      let cached = cache_qry_product s.req_id ws qry s.qry_cache in
      let cleared = (get_and_clean_cache_qry_product s.req_id cached).0 in
      if not_ready s
      then throws (codes "trade api not ready yet") s []
      else (if not (is_empty qry.symbol) && is_empty qry.contract
          then asked F libc.print ret "failed in ReqQryProduct, return "
              (log (Texts.product_query (product_request qry))
                ∷ req_qry_product (product_request qry) s.req_id
                ∷ [])
              cached cleared s
          else asked F libc.print ret "failed in ReqQryInstrument, return "
              (log (Texts.instrument_query (instrument_request qry))
                ∷ req_qry_instrument (instrument_request qry) s.req_id
                ∷ [])
              cached cleared s)

  -- The trading day passes through 16 zero bytes.
  unfoldable pub query_trading_day : ℕ → TradingDayQuery → CtpTradeHandler D → Run F
  query_trading_day ws qry s =
      returns s
        (respond ws (trading_day qry.qry_id (codes "ctp") (take 15 s.ctp_tradeing_day)) ∷ [])
