-- ===== src/CtpTrade/Logs/Rows.antt =====
-- What src/ctp-trade/ctp_trade_handler.cpp logs of the rows that answer a query; `none` is a null
-- pointer.
use babeltrader.Common.{List, Option, Bool}
use babeltrader.Common.Int.{ℤ}
use babeltrader.Json.{Event}
use babeltrader.CtpTrade.Logs.{row_message, optional}
use babeltrader.CtpTrade.Fields.Orders.{OrderField, TradeField}
use babeltrader.CtpTrade.Fields.Positions.{InvestorPositionField, InvestorPositionDetailField}
use babeltrader.CtpTrade.Fields.Accounts.{TradingAccountField, ProductField, InstrumentField}
use babeltrader.CtpTrade.Fields.Session.{RspInfoField}
use babeltrader.CtpTrade.Logs.Orders.{serialize_ctp_order, serialize_ctp_trade}
use babeltrader.CtpTrade.Logs.Positions.{serialize_ctp_position, serialize_ctp_position_detail}
use babeltrader.CtpTrade.Logs.Accounts.{
  serialize_ctp_trading_account, serialize_ctp_product, serialize_ctp_instrument,
}

module _ {D : Type 0} where
  unfoldable pub output_rsp_order_query :
      Option (OrderField D) → Option RspInfoField → ℤ → Bool → List (Event D)
  output_rsp_order_query order info n_request_id is_last =
      row_message "ctp_rspqryorder" info n_request_id is_last (optional serialize_ctp_order order)

  unfoldable pub output_rsp_trade_query :
      Option (TradeField D) → Option RspInfoField → ℤ → Bool → List (Event D)
  output_rsp_trade_query trade info n_request_id is_last =
      row_message "ctp_rspqryorder" info n_request_id is_last (optional serialize_ctp_trade trade)

  unfoldable pub output_rsp_position_query :
      Option (InvestorPositionField D) → Option RspInfoField → ℤ → Bool → List (Event D)
  output_rsp_position_query investor_position info n_request_id is_last =
      row_message "ctp_rspqryposition" info n_request_id is_last
        (optional serialize_ctp_position investor_position)

  unfoldable pub output_rsp_position_detail_query :
      Option (InvestorPositionDetailField D) → Option RspInfoField → ℤ → Bool → List (Event D)
  output_rsp_position_detail_query investor_position_detail info n_request_id is_last =
      row_message "ctp_rspqrypositiondetail" info n_request_id is_last
        (optional serialize_ctp_position_detail investor_position_detail)

  unfoldable pub output_rsp_trading_account_query :
      Option (TradingAccountField D) → Option RspInfoField → ℤ → Bool → List (Event D)
  output_rsp_trading_account_query trading_account info n_request_id is_last =
      row_message "ctp_rspqrytradingaccount" info n_request_id is_last
        (optional serialize_ctp_trading_account trading_account)

  unfoldable pub output_rsp_product_query :
      Option (ProductField D) → Option RspInfoField → ℤ → Bool → List (Event D)
  output_rsp_product_query product info n_request_id is_last =
      row_message "ctp_rspqryproduct" info n_request_id is_last
        (optional serialize_ctp_product product)

  unfoldable pub output_rsp_instrument_query :
      (D → ℤ) → Option (InstrumentField D) → Option RspInfoField → ℤ → Bool → List (Event D)
  output_rsp_instrument_query to_int instrument info n_request_id is_last =
      row_message "ctp_rspqryinstrument" info n_request_id is_last
        (optional (serialize_ctp_instrument to_int) instrument)
