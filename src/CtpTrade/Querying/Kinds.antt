-- ===== src/CtpTrade/Querying/Kinds.antt =====
-- The kinds of rows that answer the queries of `CTPTradeHandler`, with the vectors in which it keeps
-- them (src/ctp-trade/ctp_trade_handler.h). `Wanted` is what a client has asked for.
use babeltrader.Common.{ℕ, ◌≡◌, refl, List}
use babeltrader.Common.StdMap.{StdMap, nat_key}
use babeltrader.Structs.{OrderQuery, TradeQuery, PositionQuery, TradeAccountQuery, ProductQuery}
use babeltrader.QueryCache.{QueryCache}
use babeltrader.CtpTrade.Fields.Orders.{OrderField, TradeField}
use babeltrader.CtpTrade.Fields.Positions.{InvestorPositionField, InvestorPositionDetailField}
use babeltrader.CtpTrade.Fields.Accounts.{TradingAccountField, ProductField, InstrumentField}
use babeltrader.CtpTrade.Handler.{CtpTradeHandler}

pub data RowKind : Type 0 where
  order_rows trade_rows position_rows position_detail_rows trade_account_rows product_rows
        instrument_rows :
      RowKind

abbrev pub Row : Type 0 → RowKind → Type 0
Row D order_rows = OrderField D
Row D trade_rows = TradeField D
Row D position_rows = InvestorPositionField D
Row D position_detail_rows = InvestorPositionDetailField D
Row D trade_account_rows = TradingAccountField D
Row D product_rows = ProductField D
Row D instrument_rows = InstrumentField D

abbrev pub Wanted : RowKind → Type 0
Wanted order_rows = OrderQuery
Wanted trade_rows = TradeQuery
Wanted position_rows = PositionQuery
Wanted position_detail_rows = PositionQuery
Wanted trade_account_rows = TradeAccountQuery
Wanted product_rows = ProductQuery
Wanted instrument_rows = ProductQuery

abbrev pub wanted : (k : RowKind) → QueryCache → StdMap ℕ (Wanted k)
wanted order_rows c = c.qry_order_cache
wanted trade_rows c = c.qry_trade_cache
wanted position_rows c = c.qry_position_cache
wanted position_detail_rows c = c.qry_position_detail_cache
wanted trade_account_rows c = c.qry_trade_account_cache
wanted product_rows c = c.qry_product_cache
wanted instrument_rows c = c.qry_product_cache

module _ {D : Type 0} where
  abbrev pub rows_of : (k : RowKind) → CtpTradeHandler D → StdMap ℕ (List (Row D k))
  rows_of order_rows s = s.rsp_qry_order_caches
  rows_of trade_rows s = s.rsp_qry_trade_caches
  rows_of position_rows s = s.rsp_qry_position_caches
  rows_of position_detail_rows s = s.rsp_qry_position_detail_caches
  rows_of trade_account_rows s = s.rsp_qry_trade_account_caches
  rows_of product_rows s = s.rsp_qry_product_caches
  rows_of instrument_rows s = s.rsp_qry_instrument_caches

  abbrev pub store :
      (k : RowKind) → StdMap ℕ (List (Row D k)) → CtpTradeHandler D → CtpTradeHandler D
  store order_rows caches s = record s { rsp_qry_order_caches = caches }
  store trade_rows caches s = record s { rsp_qry_trade_caches = caches }
  store position_rows caches s = record s { rsp_qry_position_caches = caches }
  store position_detail_rows caches s = record s { rsp_qry_position_detail_caches = caches }
  store trade_account_rows caches s = record s { rsp_qry_trade_account_caches = caches }
  store product_rows caches s = record s { rsp_qry_product_caches = caches }
  store instrument_rows caches s = record s { rsp_qry_instrument_caches = caches }

  pub rows_of-store :
      (k : RowKind) (m : StdMap ℕ (List (Row D k))) (s : CtpTradeHandler D)
      → rows_of k (store k m s) ≡ m
  rows_of-store order_rows m s = refl
  rows_of-store trade_rows m s = refl
  rows_of-store position_rows m s = refl
  rows_of-store position_detail_rows m s = refl
  rows_of-store trade_account_rows m s = refl
  rows_of-store product_rows m s = refl
  rows_of-store instrument_rows m s = refl

  pub store_qry_cache :
      (k : RowKind) (m : StdMap ℕ (List (Row D k))) (s : CtpTradeHandler D)
      → (store k m s).qry_cache ≡ s.qry_cache
  store_qry_cache order_rows m s = refl
  store_qry_cache trade_rows m s = refl
  store_qry_cache position_rows m s = refl
  store_qry_cache position_detail_rows m s = refl
  store_qry_cache trade_account_rows m s = refl
  store_qry_cache product_rows m s = refl
  store_qry_cache instrument_rows m s = refl
