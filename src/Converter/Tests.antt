-- ===== src/Converter/Tests.antt =====
-- Instances of the laws of Converter, on objects that the writers have written.
use babeltrader.Common.{◌≡◌, refl, codes, []}
use babeltrader.Common.Int.{ℤ, pos}
use babeltrader.Common.Double.{whole_numbers}
use babeltrader.Structs.{Order, OrderQuery, TradeAccountQuery}
use babeltrader.Json.Members.{members}
use babeltrader.Converter.Orders.{serialize_order}
use babeltrader.Converter.Queries.{serialize_order_query, serialize_trade_account_query}
use babeltrader.Converter.Requests.{convert_order_json2common, convert_trade_account_json2common}
use babeltrader.Converter.RoundTrip.{
  order-round_trip, orders, query_text, read_like, query-round_trip, trade_account_query-round_trip,
}

abbrev an_order : Order ℤ
an_order = record {
  user_id = codes "u1";
  order_id = codes "7";
  outside_user_id = [];
  outside_id = codes "9";
  client_order_id = [];
  market = codes "ctp";
  exchange = codes "SHFE";
  type = [];
  symbol = codes "rb";
  contract = codes "1905";
  contract_id = [];
  order_type = codes "limit";
  order_flag1 = [];
  dir = codes "open_long";
  price = pos 3500;
  amount = pos 2;
  total_price = pos 7000;
  ts = pos 1546300800000;
}

order-round_trip_example :
    convert_order_json2common whole_numbers members (serialize_order whole_numbers an_order)
    ≡ record an_order { outside_user_id = []; amount = pos 2; ts = pos 0 }
unfolding serialize_order
order-round_trip_example =
    order-round_trip whole_numbers members (serialize_order whole_numbers an_order) an_order (
      (refl, (refl, refl)),
      (
        (refl, (refl, refl)),
        (
          (refl, (refl, refl)),
          (
            (refl, (refl, refl)),
            (
              (refl, (refl, refl)),
              (
                (refl, (refl, refl)),
                (
                  (refl, (refl, refl)),
                  (
                    (refl, (refl, refl)),
                    (
                      (refl, (refl, refl)),
                      (
                        (refl, (refl, refl)),
                        (
                          (refl, (refl, refl)),
                          (
                            (refl, (refl, refl)),
                            (
                              (refl, (refl, refl)),
                              (
                                (refl, (refl, refl)),
                                (
                                  (refl, (refl, refl, refl, refl)),
                                  (
                                    (refl, (refl, refl)),
                                    (
                                      (refl, (refl, refl, refl, refl)),
                                      ((refl, (refl, refl, refl, refl)), tt),
                                    ),
                                  ),
                                ),
                              ),
                            ),
                          ),
                        ),
                      ),
                    ),
                  ),
                ),
              ),
            ),
          ),
        ),
      ),
    )

abbrev an_order_query : OrderQuery
an_order_query = record {
  qry_id = codes "q1";
  user_id = codes "u1";
  outside_id = [];
  market = codes "ctp";
  exchange = [];
  type = [];
  symbol = codes "rb";
  contract = codes "1905";
  contract_id = [];
}

query-round_trip_example :
    read_like whole_numbers members
      (orders an_order_query)
      (query_text whole_numbers members (orders an_order_query))
    ≡ orders an_order_query
unfolding query_text serialize_order_query
query-round_trip_example =
    query-round_trip whole_numbers members
      (query_text whole_numbers members (orders an_order_query)) (orders an_order_query)
      (
        (refl, (refl, refl)),
        (
          (refl, (refl, refl)),
          (
            (refl, (refl, refl)),
            (
              (refl, (refl, refl)),
              (
                (refl, (refl, refl)),
                (
                  (refl, (refl, refl)),
                  ((refl, (refl, refl)), ((refl, (refl, refl)), ((refl, (refl, refl)), tt))),
                ),
              ),
            ),
          ),
        ),
      )

abbrev a_trade_account_query : TradeAccountQuery
a_trade_account_query = record {
  qry_id = codes "q1";
  user_id = codes "u1";
  market = codes "ctp";
  currency_id = [];
}

trade_account_query-round_trip_example :
    convert_trade_account_json2common whole_numbers members
      (serialize_trade_account_query whole_numbers a_trade_account_query)
    ≡ record a_trade_account_query { user_id = [] }
unfolding serialize_trade_account_query
trade_account_query-round_trip_example =
    trade_account_query-round_trip whole_numbers members
      (serialize_trade_account_query whole_numbers a_trade_account_query) a_trade_account_query
      (
        (refl, (refl, refl)),
        ((refl, (refl, refl)), ((refl, (refl, refl)), ((refl, (refl, refl)), tt))),
      )
