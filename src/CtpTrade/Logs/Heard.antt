-- ===== src/CtpTrade/Logs/Heard.antt =====
-- What src/ctp-trade/ctp_trade_handler.cpp logs of orders and trades that it hears of.
use babeltrader.Common.{List, ◌∷◌, ◌++◌, codes}
use babeltrader.Common.Int.{ℤ}
use babeltrader.Json.{Event, key, int}
use babeltrader.CtpTrade.Logs.{message, data_object, error_members}
use babeltrader.CtpTrade.Fields.Requests.{InputOrderField, InputOrderActionField}
use babeltrader.CtpTrade.Fields.Orders.{OrderField, TradeField}
use babeltrader.CtpTrade.Fields.Session.{RspInfoField}
use babeltrader.CtpTrade.Logs.Requests.{serialize_ctp_input_order, serialize_ctp_action_order}
use babeltrader.CtpTrade.Logs.Orders.{serialize_ctp_order, serialize_ctp_trade}

module _ {D : Type 0} where
  unfoldable pub output_rsp_order_insert : InputOrderField D → RspInfoField → ℤ → List (Event D)
  output_rsp_order_insert input_order info n_request_id = message "ctp_rsporderinsert" (
      key (codes "req_id")
      ∷ int n_request_id
      ∷ (error_members info ++ (data_object (serialize_ctp_input_order input_order))))

  unfoldable pub output_err_rtn_order_insert : InputOrderField D → RspInfoField → List (Event D)
  output_err_rtn_order_insert input_order info =
      message "ctp_errrtnorderinsert"
        (error_members info ++ (data_object (serialize_ctp_input_order input_order)))

  unfoldable pub output_rtn_order : OrderField D → List (Event D)
  output_rtn_order order = message "ctp_rtnorder" (data_object (serialize_ctp_order order))

  unfoldable pub output_rtn_trade : TradeField D → List (Event D)
  output_rtn_trade trade = message "ctp_rtntrade" (data_object (serialize_ctp_trade trade))

  unfoldable pub output_rsp_order_action :
      InputOrderActionField D → RspInfoField → ℤ → List (Event D)
  output_rsp_order_action input_order_action info n_request_id = message "ctp_rsporderaction" (
      key (codes "req_id")
      ∷ int n_request_id
      ∷ (error_members info ++ (data_object (serialize_ctp_action_order input_order_action))))
