-- ===== src/Converter/Requests.antt =====
-- Reading requests (src/common/converter.cpp). A struct starts with empty texts, and an order with
-- zeros; a member that is missing or of another type leaves them.
use babeltrader.Common.{Bytes, String, codes, [], ◌&&◌, if◌then◌else◌}
use babeltrader.Common.Int.{ℤ, pos}
use babeltrader.Common.Double.{Double}
use babeltrader.Structs.{
  Order, OrderQuery, TradeQuery, PositionQuery, TradeAccountQuery, ProductQuery, TradingDayQuery,
}
use babeltrader.Json.Reader.{Reader}

module _ (F : Double) (R : Reader F) where
  open F use {D, of_int}
  open R use {
    V, has_member, member, is_string, get_string, is_int, get_int, is_int64, get_int64, is_double,
    get_double,
  }

  unfoldable pub text_member : V → String → Bytes
  text_member msg k =
      if has_member msg (codes k) && is_string (member msg (codes k))
      then get_string (member msg (codes k))
      else []

  unfoldable pub number_member : V → String → D
  number_member msg k =
      let x = member msg (codes k) in
      if has_member msg (codes k)
      then (if is_int x
          then of_int (get_int x)
          else (if is_double x then get_double x else of_int (pos 0)))
      else of_int (pos 0)

  unfoldable pub int64_member : V → String → ℤ
  int64_member msg k =
      if has_member msg (codes k) && is_int64 (member msg (codes k))
      then get_int64 (member msg (codes k))
      else pos 0

  unfoldable pub convert_order_json2common : V → Order D
  convert_order_json2common msg = record {
    user_id = text_member msg "user_id";
    order_id = text_member msg "order_id";
    outside_user_id = [];
    outside_id = text_member msg "outside_id";
    client_order_id = text_member msg "client_order_id";
    market = text_member msg "market";
    exchange = text_member msg "exchange";
    type = text_member msg "type";
    symbol = text_member msg "symbol";
    contract = text_member msg "contract";
    contract_id = text_member msg "contract_id";
    order_type = text_member msg "order_type";
    order_flag1 = text_member msg "order_flag1";
    dir = text_member msg "dir";
    price = number_member msg "price";
    amount = number_member msg "amount";
    total_price = number_member msg "total_price";
    ts = int64_member msg "ts";
  }

  unfoldable pub convert_order_query_json2common : V → OrderQuery
  convert_order_query_json2common msg = record {
    qry_id = text_member msg "qry_id";
    user_id = text_member msg "user_id";
    outside_id = text_member msg "outside_id";
    market = text_member msg "market";
    exchange = text_member msg "exchange";
    type = text_member msg "type";
    symbol = text_member msg "symbol";
    contract = text_member msg "contract";
    contract_id = text_member msg "contract_id";
  }

  unfoldable pub convert_trade_query_json2common : V → TradeQuery
  convert_trade_query_json2common msg = record {
    qry_id = text_member msg "qry_id";
    user_id = text_member msg "user_id";
    trade_id = text_member msg "trade_id";
    market = text_member msg "market";
    exchange = text_member msg "exchange";
    type = text_member msg "type";
    symbol = text_member msg "symbol";
    contract = text_member msg "contract";
    contract_id = text_member msg "contract_id";
  }

  unfoldable pub convert_position_query_json2common : V → PositionQuery
  convert_position_query_json2common msg = record {
    qry_id = text_member msg "qry_id";
    user_id = text_member msg "user_id";
    market = text_member msg "market";
    exchange = text_member msg "exchange";
    type = text_member msg "type";
    symbol = text_member msg "symbol";
    contract = text_member msg "contract";
    contract_id = text_member msg "contract_id";
  }

  unfoldable pub convert_product_query_json2common : V → ProductQuery
  convert_product_query_json2common msg = record {
    qry_id = text_member msg "qry_id";
    market = text_member msg "market";
    exchange = text_member msg "exchange";
    symbol = text_member msg "symbol";
    contract = text_member msg "contract";
  }

  unfoldable pub convert_trade_account_json2common : V → TradeAccountQuery
  convert_trade_account_json2common msg = record {
    qry_id = text_member msg "qry_id";
    user_id = [];
    market = text_member msg "market";
    currency_id = text_member msg "currency_id";
  }

  unfoldable pub convert_trading_day_json2common : V → TradingDayQuery
  convert_trading_day_json2common msg = record {
    qry_id = text_member msg "qry_id";
    market = text_member msg "market";
  }
