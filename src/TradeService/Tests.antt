-- ===== src/TradeService/Tests.antt =====
-- Instances of the laws of TradeService, with whole numbers for prices.
use babeltrader.Common.{refl, codes, [], ◌∷◌}
use babeltrader.Common.Int.{ℤ, pos}
use babeltrader.Common.Double.{whole_numbers}
use babeltrader.Structs.{Order, OrderStatusNotify, OrderQuery}
use babeltrader.TradeService.Messages.{orders}
use babeltrader.TradeService.Texts.{SpellsJson, written-IsJson}

abbrev an_order : Order ℤ
an_order = record {
  user_id = codes "u1";
  order_id = codes "7";
  outside_user_id = [];
  outside_id = codes "9";
  client_order_id = [];
  market = codes "ctp";
  exchange = codes "SHFE";
  type = [];
  symbol = codes "rb";
  contract = codes "1905";
  contract_id = [];
  order_type = codes "limit";
  order_flag1 = [];
  dir = codes "open_long";
  price = pos 3500;
  amount = pos 2;
  total_price = pos 7000;
  ts = pos 1546300800000;
}

abbrev its_status : OrderStatusNotify ℤ
its_status = record {
  order_status = 1;
  order_submit_status = 0;
  amount = pos 2;
  dealed_amount = pos 0;
}

abbrev its_query : OrderQuery
its_query = record {
  qry_id = codes "q1";
  user_id = [];
  outside_id = [];
  market = codes "ctp";
  exchange = [];
  type = [];
  symbol = [];
  contract = [];
  contract_id = [];
}

written-IsJson_example :
    SpellsJson whole_numbers
      (orders its_query (an_order ∷ an_order ∷ []) (its_status ∷ its_status ∷ []) (pos 0))
written-IsJson_example =
    written-IsJson whole_numbers
      (orders its_query (an_order ∷ an_order ∷ []) (its_status ∷ its_status ∷ []) (pos 0)) refl
