-- ===== src/TradeService/Handlers.antt =====
-- The handlers of requests (src/common/trade_service.cpp), as far as the virtual function that each
-- calls: that call is the value.
use babeltrader.Common.{codes, not, ◌&&◌}
use babeltrader.Common.Double.{Double}
use babeltrader.Common.Raise.{Result, ok, raise_if, ◌>>=◌, ◌>>◌}
use babeltrader.Structs.{
  Order, OrderQuery, TradeQuery, PositionQuery, TradeAccountQuery, ProductQuery, TradingDayQuery,
}
use babeltrader.Json.Reader.{Reader}
use babeltrader.Converter.Requests.{
  convert_order_json2common, convert_order_query_json2common, convert_trade_query_json2common,
  convert_position_query_json2common, convert_product_query_json2common,
  convert_trade_account_json2common, convert_trading_day_json2common,
}

-- The virtual functions of `TradeService`, with their arguments but the client.
pub data Request (D : Type 0) : Type 0 where
  insert_order : Order D → Request D
  cancel_order : Order D → Request D
  query_order : OrderQuery → Request D
  query_trade : TradeQuery → Request D
  query_position : PositionQuery → Request D
  query_position_detail : PositionQuery → Request D
  query_trade_account : TradeAccountQuery → Request D
  query_product : ProductQuery → Request D
  query_trading_day : TradingDayQuery → Request D

module _ (F : Double) (R : Reader F) where
  open F use {D}
  open R use {V, has_member, member, is_object}

  -- How each of them begins.
  unfoldable pub checked_data : V → Result V
  checked_data doc =
      raise_if (not (has_member doc (codes "data") && is_object (member doc (codes "data"))))
        "field \"data\" need object"
      >> ok (member doc (codes "data"))

  unfoldable pub on_req_insert_order : V → Result (Request D)
  on_req_insert_order doc =
      checked_data doc >>= λ data_. ok (insert_order (convert_order_json2common F R data_))

  unfoldable pub on_req_cancel_order : V → Result (Request D)
  on_req_cancel_order doc =
      checked_data doc >>= λ data_. ok (cancel_order (convert_order_json2common F R data_))

  unfoldable pub on_req_query_order : V → Result (Request D)
  on_req_query_order doc =
      checked_data doc >>= λ data_. ok (query_order (convert_order_query_json2common F R data_))

  unfoldable pub on_req_query_trade : V → Result (Request D)
  on_req_query_trade doc =
      checked_data doc >>= λ data_. ok (query_trade (convert_trade_query_json2common F R data_))

  unfoldable pub on_req_query_position : V → Result (Request D)
  on_req_query_position doc = checked_data doc >>= λ data_.
      ok (query_position (convert_position_query_json2common F R data_))

  unfoldable pub on_req_query_position_detail : V → Result (Request D)
  on_req_query_position_detail doc = checked_data doc >>= λ data_.
      ok (query_position_detail (convert_position_query_json2common F R data_))

  unfoldable pub on_req_query_trade_account : V → Result (Request D)
  on_req_query_trade_account doc = checked_data doc >>= λ data_.
      ok (query_trade_account (convert_trade_account_json2common F R data_))

  unfoldable pub on_req_query_product : V → Result (Request D)
  on_req_query_product doc =
      checked_data doc >>= λ data_. ok (query_product (convert_product_query_json2common F R data_))

  unfoldable pub on_req_query_trading_day : V → Result (Request D)
  on_req_query_trading_day doc = checked_data doc >>= λ data_.
      ok (query_trading_day (convert_trading_day_json2common F R data_))
