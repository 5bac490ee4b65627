-- ===== src/TradeService/Messages.antt =====
-- What `TradeService` writes to the clients (src/common/trade_service.cpp): each function gives the
-- calls of the writer, in their order. The `Broadcast…` send them to every client, the `Rsp…` to one.
-- `orders[i]` and its companion come from two vectors: `none` is a read behind the end of the second.
use babeltrader.Common.{Bytes, List, [], ◌∷◌, ◌++◌, Option, none, some, codes, String}
use mathlib.Core.Option
use babeltrader.Common.Int.{ℤ, pos}
use babeltrader.Common.Double.{Double}
use babeltrader.Structs.{
  Order, OrderStatusNotify, OrderDealNotify, OrderQuery, TradeQuery, PositionQuery,
  TradeAccountQuery, ProductQuery, PositionSummaryType1, PositionSummaryType2, PositionDetailType1,
  TradeAccountType1, TradeAccountType2, ProductType1,
}
use babeltrader.Json.{Event, start_object, end_object, start_array, end_array, key, string, int}
use babeltrader.Json.Grammar.{entries}
use babeltrader.Converter.Orders.{serialize_order, serialize_order_status, serialize_order_deal}
use babeltrader.Converter.Queries.{
  serialize_order_query, serialize_trade_query, serialize_position_query,
  serialize_trade_account_query, serialize_product_query,
}
use babeltrader.Converter.Accounts.{
  serialize_position_summary_type1, serialize_position_summary_type2,
  serialize_position_detail_type1, serialize_trade_account_type1, serialize_trade_account_type2,
  serialize_product_type1,
}

module _ (F : Double) where
  open F use {D}

  -- How every message begins: its name and the error of the trading interface.
  abbrev pub header : String → ℤ → List (Event D)
  header name error_id =
      start_object
      ∷ key (codes "msg")
      ∷ string (codes name)
      ∷ key (codes "error_id")
      ∷ int error_id
      ∷ key (codes "data")
      ∷ start_object
      ∷ []

  abbrev pub footer : List (Event D)
  footer = end_object ∷ end_object ∷ []

  -- `order` as an object of the data.
  abbrev pub order_member : Order D → List (Event D)
  order_member order =
      key (codes "order") ∷ start_object ∷ (serialize_order F order ++ end_object ∷ [])

  unfoldable pub broadcast_confirm_order : Order D → ℤ → List (Event D)
  broadcast_confirm_order order error_id =
      header "confirmorder" error_id ++ (serialize_order F order ++ footer)

  unfoldable pub broadcast_order_status : Order D → OrderStatusNotify D → ℤ → List (Event D)
  broadcast_order_status order status error_id =
      header "orderstatus" error_id
      ++ (serialize_order_status F status ++ (order_member order ++ footer))

  unfoldable pub broadcast_order_deal : Order D → OrderDealNotify D → List (Event D)
  broadcast_order_deal order deal =
      header "orderdeal" (pos 0) ++ (serialize_order_deal F deal ++ (order_member order ++ footer))

  abbrev pub object : List (Event D) → List (Event D)
  object members = start_object ∷ (members ++ end_object ∷ [])

  -- The end of an answer that closes with an array.
  abbrev pub closing : List (Event D)
  closing = end_array ∷ end_object ∷ end_object ∷ []

  -- The loop over two vectors by the index of the first.
  unfoldable pub pair_up : {A : Type 0} → List (Order D) → List A → Option (List (Order D × A))
  pair_up [] xs = some []
  pair_up (order ∷ orders) [] = none
  pair_up (order ∷ orders) (x ∷ xs) = Option.map (λ ps. (order, x) ∷ ps) (pair_up orders xs)

  -- An entry of the answers about orders and trades.
  abbrev pub status_entry : Order D × OrderStatusNotify D → List (Event D)
  status_entry (order, status) = object (serialize_order_status F status ++ order_member order)

  abbrev pub deal_entry : Order D × OrderDealNotify D → List (Event D)
  deal_entry (order, deal) = object (serialize_order_deal F deal ++ order_member order)

  unfoldable pub rsp_order_qry :
      OrderQuery → List (Order D) → List (OrderStatusNotify D) → ℤ → Option (List (Event D))
  unfolding pair_up
  rsp_order_qry qry orders order_status error_id =
      Option.map
        (λ ps.
          (header "rsp_qryorder" error_id
            ++ (serialize_order_query F qry ++ (key (codes "data") ∷ start_array ∷ [])))
          ++ (entries status_entry ps ++ closing))
        (pair_up orders order_status)

  unfoldable pub rsp_trade_qry :
      TradeQuery → List (Order D) → List (OrderDealNotify D) → ℤ → Option (List (Event D))
  unfolding pair_up
  rsp_trade_qry qry orders order_deal error_id =
      Option.map
        (λ ps.
          (header "rsp_qrytrade" error_id
            ++ (serialize_trade_query F qry ++ (key (codes "data") ∷ start_array ∷ [])))
          ++ (entries deal_entry ps ++ closing))
        (pair_up orders order_deal)

  -- The beginning of the answers about positions, accounts and products, which name the layout of
  -- their entries.
  abbrev pub listing : String → ℤ → List (Event D) → String → String → List (Event D)
  listing name error_id query layout_key layout =
      header name error_id
      ++ (query
          ++ (key (codes layout_key)
              ∷ string (codes layout)
              ∷ key (codes "data")
              ∷ start_array
              ∷ []))

  unfoldable pub rsp_position_qry_type1 :
      PositionQuery → List (PositionSummaryType1 D) → ℤ → List (Event D)
  rsp_position_qry_type1 qry rows error_id =
      listing "rsp_qryposition" error_id (serialize_position_query F qry) "position_summary_type"
        "type1"
      ++ (entries
            (λ (row : PositionSummaryType1 D). object (serialize_position_summary_type1 F row)) rows
          ++ closing)

  unfoldable pub rsp_position_detail_qry_type1 :
      PositionQuery → List (PositionDetailType1 D) → ℤ → List (Event D)
  rsp_position_detail_qry_type1 qry rows error_id =
      listing "rsp_qrypositiondetail" error_id (serialize_position_query F qry)
        "position_detail_type" "type1"
      ++ (entries (λ (row : PositionDetailType1 D). object (serialize_position_detail_type1 F row))
            rows
          ++ closing)

  unfoldable pub rsp_trade_account_qry_type1 :
      TradeAccountQuery → List (TradeAccountType1 D) → ℤ → List (Event D)
  rsp_trade_account_qry_type1 qry rows error_id =
      listing "rsp_qrytradeaccount" error_id (serialize_trade_account_query F qry)
        "trade_account_type" "type1"
      ++ (entries (λ (row : TradeAccountType1 D). object (serialize_trade_account_type1 F row)) rows
          ++ closing)

  unfoldable pub rsp_product_qry_type1 : ProductQuery → List (ProductType1 D) → ℤ → List (Event D)
  rsp_product_qry_type1 qry rows error_id =
      listing "rsp_qryproduct" error_id (serialize_product_query F qry) "product_type" "type1"
      ++ (entries (λ (row : ProductType1 D). object (serialize_product_type1 F row)) rows
          ++ closing)

  unfoldable pub rsp_position_qry_type2 :
      PositionQuery → List (PositionSummaryType2 D) → ℤ → List (Event D)
  rsp_position_qry_type2 qry rows error_id =
      listing "rsp_qryposition" error_id (serialize_position_query F qry) "position_summary_type"
        "type2"
      ++ (entries
            (λ (row : PositionSummaryType2 D). object (serialize_position_summary_type2 F row)) rows
          ++ closing)

  unfoldable pub rsp_trade_account_qry_type2 :
      TradeAccountQuery → List (TradeAccountType2 D) → ℤ → List (Event D)
  rsp_trade_account_qry_type2 qry rows error_id =
      listing "rsp_qrytradeaccount" error_id (serialize_trade_account_query F qry)
        "trade_account_type" "type2"
      ++ (entries (λ (row : TradeAccountType2 D). object (serialize_trade_account_type2 F row)) rows
          ++ closing)

  unfoldable pub rsp_trading_day_qry : Bytes → Bytes → Bytes → List (Event D)
  rsp_trading_day_qry qry_id market trading_day =
      header "rsp_qrytradingday" (pos 0)
      ++ (key (codes "qry_id")
          ∷ string qry_id
          ∷ key (codes "market")
          ∷ string market
          ∷ key (codes "trading_day")
          ∷ string trading_day
          ∷ footer)

  -- The messages with what they are made of.
  pub data Message : Type 0 where
    confirm_order : Order D → ℤ → Message
    order_status : Order D → OrderStatusNotify D → ℤ → Message
    order_deal : Order D → OrderDealNotify D → Message
    orders : OrderQuery → List (Order D) → List (OrderStatusNotify D) → ℤ → Message
    trades : TradeQuery → List (Order D) → List (OrderDealNotify D) → ℤ → Message
    positions_type1 : PositionQuery → List (PositionSummaryType1 D) → ℤ → Message
    position_details_type1 : PositionQuery → List (PositionDetailType1 D) → ℤ → Message
    trade_accounts_type1 : TradeAccountQuery → List (TradeAccountType1 D) → ℤ → Message
    products_type1 : ProductQuery → List (ProductType1 D) → ℤ → Message
    positions_type2 : PositionQuery → List (PositionSummaryType2 D) → ℤ → Message
    trade_accounts_type2 : TradeAccountQuery → List (TradeAccountType2 D) → ℤ → Message
    trading_day : Bytes → Bytes → Bytes → Message

  unfoldable pub written : Message → Option (List (Event D))
  unfolding broadcast_confirm_order broadcast_order_status broadcast_order_deal rsp_order_qry
      rsp_trade_qry rsp_position_qry_type1 rsp_position_detail_qry_type1 rsp_trade_account_qry_type1
      rsp_product_qry_type1 rsp_position_qry_type2 rsp_trade_account_qry_type2 rsp_trading_day_qry
  written (confirm_order order error_id) = some (broadcast_confirm_order order error_id)
  written (order_status order status error_id) = some (broadcast_order_status order status error_id)
  written (order_deal order deal) = some (broadcast_order_deal order deal)
  written (orders qry os ss error_id) = rsp_order_qry qry os ss error_id
  written (trades qry os ds error_id) = rsp_trade_qry qry os ds error_id
  written (positions_type1 qry rows error_id) = some (rsp_position_qry_type1 qry rows error_id)
  written (position_details_type1 qry rows error_id) =
      some (rsp_position_detail_qry_type1 qry rows error_id)
  written (trade_accounts_type1 qry rows error_id) =
      some (rsp_trade_account_qry_type1 qry rows error_id)
  written (products_type1 qry rows error_id) = some (rsp_product_qry_type1 qry rows error_id)
  written (positions_type2 qry rows error_id) = some (rsp_position_qry_type2 qry rows error_id)
  written (trade_accounts_type2 qry rows error_id) =
      some (rsp_trade_account_qry_type2 qry rows error_id)
  written (trading_day qry_id market day) = some (rsp_trading_day_qry qry_id market day)
