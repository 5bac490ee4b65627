-- ===== src/Converter/Orders.antt =====
-- The writers of orders and of what happens to them (src/common/converter.cpp).
use babeltrader.Common.{List, [], ◌∷◌, codes}
use babeltrader.Common.Int.{pos}
use babeltrader.Common.Double.{Double}
use babeltrader.Structs.{Order, OrderStatusNotify, OrderDealNotify}
use babeltrader.Json.{Event, key, string, int, int64, double}

module _ (F : Double) where
  open F use {D, of_int, to_int}

  unfoldable pub serialize_order : Order D → List (Event D)
  serialize_order order =
      key (codes "user_id")
      ∷ string order.user_id
      ∷ key (codes "order_id")
      ∷ string order.order_id
      ∷ key (codes "outside_user_id")
      ∷ string order.outside_user_id
      ∷ key (codes "outside_id")
      ∷ string order.outside_id
      ∷ key (codes "client_order_id")
      ∷ string order.client_order_id
      ∷ key (codes "market")
      ∷ string order.market
      ∷ key (codes "exchange")
      ∷ string order.exchange
      ∷ key (codes "type")
      ∷ string order.type
      ∷ key (codes "symbol")
      ∷ string order.symbol
      ∷ key (codes "contract")
      ∷ string order.contract
      ∷ key (codes "contract_id")
      ∷ string order.contract_id
      ∷ key (codes "order_type")
      ∷ string order.order_type
      ∷ key (codes "order_flag1")
      ∷ string order.order_flag1
      ∷ key (codes "dir")
      ∷ string order.dir
      ∷ key (codes "price")
      ∷ double order.price
      ∷ key (codes "amount")
      ∷ int (to_int order.amount)
      ∷ key (codes "total_price")
      ∷ double order.total_price
      ∷ key (codes "ts")
      ∷ double (of_int order.ts)
      ∷ []

  unfoldable pub serialize_order_status : OrderStatusNotify D → List (Event D)
  serialize_order_status order_status =
      key (codes "status")
      ∷ int (pos order_status.order_status)
      ∷ key (codes "submit_status")
      ∷ int (pos order_status.order_submit_status)
      ∷ key (codes "amount")
      ∷ int (to_int order_status.amount)
      ∷ key (codes "dealed_amount")
      ∷ int (to_int order_status.dealed_amount)
      ∷ []

  unfoldable pub serialize_order_deal : OrderDealNotify D → List (Event D)
  serialize_order_deal order_deal =
      key (codes "price")
      ∷ double order_deal.price
      ∷ key (codes "amount")
      ∷ int (to_int order_deal.amount)
      ∷ key (codes "trading_day")
      ∷ string order_deal.trading_day
      ∷ key (codes "trade_id")
      ∷ string order_deal.trade_id
      ∷ key (codes "ts")
      ∷ int64 order_deal.ts
      ∷ []
