-- ===== src/Converter/Queries.antt =====
-- The writers that give a query back with its answer (src/common/converter.cpp).
use babeltrader.Common.{List, [], ◌∷◌, codes}
use babeltrader.Common.Double.{Double}
use babeltrader.Structs.{OrderQuery, TradeQuery, PositionQuery, TradeAccountQuery, ProductQuery}
use babeltrader.Json.{Event, key, string}

module _ (F : Double) where
  open F use {D}

  unfoldable pub serialize_order_query : OrderQuery → List (Event D)
  serialize_order_query order_query =
      key (codes "qry_id")
      ∷ string order_query.qry_id
      ∷ key (codes "user_id")
      ∷ string order_query.user_id
      ∷ key (codes "outside_id")
      ∷ string order_query.outside_id
      ∷ key (codes "market")
      ∷ string order_query.market
      ∷ key (codes "exchange")
      ∷ string order_query.exchange
      ∷ key (codes "type")
      ∷ string order_query.type
      ∷ key (codes "symbol")
      ∷ string order_query.symbol
      ∷ key (codes "contract")
      ∷ string order_query.contract
      ∷ key (codes "contract_id")
      ∷ string order_query.contract_id
      ∷ []

  unfoldable pub serialize_trade_query : TradeQuery → List (Event D)
  serialize_trade_query trade_query =
      key (codes "qry_id")
      ∷ string trade_query.qry_id
      ∷ key (codes "user_id")
      ∷ string trade_query.user_id
      ∷ key (codes "trade_id")
      ∷ string trade_query.trade_id
      ∷ key (codes "market")
      ∷ string trade_query.market
      ∷ key (codes "exchange")
      ∷ string trade_query.exchange
      ∷ key (codes "type")
      ∷ string trade_query.type
      ∷ key (codes "symbol")
      ∷ string trade_query.symbol
      ∷ key (codes "contract")
      ∷ string trade_query.contract
      ∷ key (codes "contract_id")
      ∷ string trade_query.contract_id
      ∷ []

  unfoldable pub serialize_position_query : PositionQuery → List (Event D)
  serialize_position_query position_query =
      key (codes "qry_id")
      ∷ string position_query.qry_id
      ∷ key (codes "user_id")
      ∷ string position_query.user_id
      ∷ key (codes "market")
      ∷ string position_query.market
      ∷ key (codes "exchange")
      ∷ string position_query.exchange
      ∷ key (codes "type")
      ∷ string position_query.type
      ∷ key (codes "symbol")
      ∷ string position_query.symbol
      ∷ key (codes "contract")
      ∷ string position_query.contract
      ∷ key (codes "contract_id")
      ∷ string position_query.contract_id
      ∷ []

  unfoldable pub serialize_trade_account_query : TradeAccountQuery → List (Event D)
  serialize_trade_account_query tradeaccount_query =
      key (codes "qry_id")
      ∷ string tradeaccount_query.qry_id
      ∷ key (codes "user_id")
      ∷ string tradeaccount_query.user_id
      ∷ key (codes "market")
      ∷ string tradeaccount_query.market
      ∷ key (codes "currency_id")
      ∷ string tradeaccount_query.currency_id
      ∷ []

  unfoldable pub serialize_product_query : ProductQuery → List (Event D)
  serialize_product_query product_query =
      key (codes "qry_id")
      ∷ string product_query.qry_id
      ∷ key (codes "market")
      ∷ string product_query.market
      ∷ key (codes "exchange")
      ∷ string product_query.exchange
      ∷ key (codes "symbol")
      ∷ string product_query.symbol
      ∷ key (codes "contract")
      ∷ string product_query.contract
      ∷ []
