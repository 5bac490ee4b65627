-- ===== src/Converter/RoundTrip.antt =====
-- A request read back from what the service writes of it (src/common/converter.cpp).
use babeltrader.Common.{◌≡◌, refl, ap, true, List, String, codes, Bytes, []}
use babeltrader.Common.Int.{ℤ, pos}
use babeltrader.Common.Double.{Double}
use babeltrader.Structs.{
  Order, OrderQuery, TradeQuery, PositionQuery, TradeAccountQuery, ProductQuery,
}
use babeltrader.Json.{Event, string, int, double}
use babeltrader.Json.Reader.{Reader, Is, HasMembers}
use babeltrader.Converter.Orders.{serialize_order}
use babeltrader.Converter.Queries.{
  serialize_order_query, serialize_trade_query, serialize_position_query,
  serialize_trade_account_query, serialize_product_query,
}
use babeltrader.Converter.Requests.{
  text_member, number_member, int64_member, convert_order_json2common,
  convert_order_query_json2common, convert_trade_query_json2common,
  convert_position_query_json2common, convert_product_query_json2common,
  convert_trade_account_json2common,
}

-- What a client asks for, less the account.
pub data Query : Type 0 where
  orders : OrderQuery → Query
  trades : TradeQuery → Query
  positions : PositionQuery → Query
  products : ProductQuery → Query

module _ (F : Double) (R : Reader F) where
  open F use {D, of_int, to_int}
  open R use {V, has_member, member}

  abbrev IsMember : V → String → Event D → Type 0
  IsMember msg k e = (has_member msg (codes k) ≡ true) × Is F R (member msg (codes k)) e

  text_member-string :
      (msg : V) (k : String) (s : Bytes) → IsMember msg k (string s) → text_member F R msg k ≡ s
  unfolding text_member
  text_member-string msg k s h = rw (h.0, h.1.0) h.1.1

  number_member-double :
      (msg : V) (k : String) (x : D) → IsMember msg k (double x) → number_member F R msg k ≡ x
  unfolding number_member
  number_member-double msg k x h = rw (h.0, h.1.0, h.1.2) h.1.3

  number_member-int :
      (msg : V) (k : String) (n : ℤ) → IsMember msg k (int n) → number_member F R msg k ≡ of_int n
  unfolding number_member
  number_member-int msg k n h = rw (h.0, h.1.0, h.1.1) refl

  int64_member-double :
      (msg : V) (k : String) (x : D) → IsMember msg k (double x) → int64_member F R msg k ≡ pos 0
  unfolding int64_member
  int64_member-double msg k x h = rw (h.0, h.1.1) refl

  -- An order that is read back from the members that the service writes of it is the order, but for
  -- three fields: the user id outside is empty, the amount is cut to a whole number, and the time is 0,
  -- since it is written as a double and read only if it is an integer.
  pub order-round_trip :
      (msg : V) (order : Order D)
      → HasMembers F R msg (serialize_order F order)
      → convert_order_json2common F R msg
        ≡ record order { outside_user_id = []; amount = of_int (to_int order.amount); ts = pos 0 }
  unfolding serialize_order convert_order_json2common
  order-round_trip msg order h =
      rw
        (
          text_member-string msg "user_id" order.user_id h.0,
          text_member-string msg "order_id" order.order_id h.1.0,
          text_member-string msg "outside_id" order.outside_id h.1.1.1.0,
          text_member-string msg "client_order_id" order.client_order_id h.1.1.1.1.0,
          text_member-string msg "market" order.market h.1.1.1.1.1.0,
          text_member-string msg "exchange" order.exchange h.1.1.1.1.1.1.0,
          text_member-string msg "type" order.type h.1.1.1.1.1.1.1.0,
          text_member-string msg "symbol" order.symbol h.1.1.1.1.1.1.1.1.0,
          text_member-string msg "contract" order.contract h.1.1.1.1.1.1.1.1.1.0,
          text_member-string msg "contract_id" order.contract_id h.1.1.1.1.1.1.1.1.1.1.0,
          text_member-string msg "order_type" order.order_type h.1.1.1.1.1.1.1.1.1.1.1.0,
          text_member-string msg "order_flag1" order.order_flag1 h.1.1.1.1.1.1.1.1.1.1.1.1.0,
          text_member-string msg "dir" order.dir h.1.1.1.1.1.1.1.1.1.1.1.1.1.0,
          number_member-double msg "price" order.price h.1.1.1.1.1.1.1.1.1.1.1.1.1.1.0,
          number_member-int msg "amount" (to_int order.amount) h.1.1.1.1.1.1.1.1.1.1.1.1.1.1.1.0,
          number_member-double msg "total_price" order.total_price
              h.1.1.1.1.1.1.1.1.1.1.1.1.1.1.1.1.0,
          int64_member-double msg "ts" (of_int order.ts) h.1.1.1.1.1.1.1.1.1.1.1.1.1.1.1.1.1.0,
        )
        refl

  -- A query for orders is read back as it was written.
  order_query-round_trip :
      (msg : V) (qry : OrderQuery)
      → HasMembers F R msg (serialize_order_query F qry)
      → convert_order_query_json2common F R msg ≡ qry
  unfolding serialize_order_query convert_order_query_json2common
  order_query-round_trip msg qry h =
      rw
        (
          text_member-string msg "qry_id" qry.qry_id h.0,
          text_member-string msg "user_id" qry.user_id h.1.0,
          text_member-string msg "outside_id" qry.outside_id h.1.1.0,
          text_member-string msg "market" qry.market h.1.1.1.0,
          text_member-string msg "exchange" qry.exchange h.1.1.1.1.0,
          text_member-string msg "type" qry.type h.1.1.1.1.1.0,
          text_member-string msg "symbol" qry.symbol h.1.1.1.1.1.1.0,
          text_member-string msg "contract" qry.contract h.1.1.1.1.1.1.1.0,
          text_member-string msg "contract_id" qry.contract_id h.1.1.1.1.1.1.1.1.0,
        )
        refl

  -- A query for trades is read back as it was written.
  trade_query-round_trip :
      (msg : V) (qry : TradeQuery)
      → HasMembers F R msg (serialize_trade_query F qry)
      → convert_trade_query_json2common F R msg ≡ qry
  unfolding serialize_trade_query convert_trade_query_json2common
  trade_query-round_trip msg qry h =
      rw
        (
          text_member-string msg "qry_id" qry.qry_id h.0,
          text_member-string msg "user_id" qry.user_id h.1.0,
          text_member-string msg "trade_id" qry.trade_id h.1.1.0,
          text_member-string msg "market" qry.market h.1.1.1.0,
          text_member-string msg "exchange" qry.exchange h.1.1.1.1.0,
          text_member-string msg "type" qry.type h.1.1.1.1.1.0,
          text_member-string msg "symbol" qry.symbol h.1.1.1.1.1.1.0,
          text_member-string msg "contract" qry.contract h.1.1.1.1.1.1.1.0,
          text_member-string msg "contract_id" qry.contract_id h.1.1.1.1.1.1.1.1.0,
        )
        refl

  -- A query for positions is read back as it was written.
  position_query-round_trip :
      (msg : V) (qry : PositionQuery)
      → HasMembers F R msg (serialize_position_query F qry)
      → convert_position_query_json2common F R msg ≡ qry
  unfolding serialize_position_query convert_position_query_json2common
  position_query-round_trip msg qry h =
      rw
        (
          text_member-string msg "qry_id" qry.qry_id h.0,
          text_member-string msg "user_id" qry.user_id h.1.0,
          text_member-string msg "market" qry.market h.1.1.0,
          text_member-string msg "exchange" qry.exchange h.1.1.1.0,
          text_member-string msg "type" qry.type h.1.1.1.1.0,
          text_member-string msg "symbol" qry.symbol h.1.1.1.1.1.0,
          text_member-string msg "contract" qry.contract h.1.1.1.1.1.1.0,
          text_member-string msg "contract_id" qry.contract_id h.1.1.1.1.1.1.1.0,
        )
        refl

  -- A query for products is read back as it was written.
  product_query-round_trip :
      (msg : V) (qry : ProductQuery)
      → HasMembers F R msg (serialize_product_query F qry)
      → convert_product_query_json2common F R msg ≡ qry
  unfolding serialize_product_query convert_product_query_json2common
  product_query-round_trip msg qry h =
      rw
        (
          text_member-string msg "qry_id" qry.qry_id h.0,
          text_member-string msg "market" qry.market h.1.0,
          text_member-string msg "exchange" qry.exchange h.1.1.0,
          text_member-string msg "symbol" qry.symbol h.1.1.1.0,
          text_member-string msg "contract" qry.contract h.1.1.1.1.0,
        )
        refl

  -- A query for a trade account is read back as it was written, but for its user id, which is empty.
  pub trade_account_query-round_trip :
      (msg : V) (qry : TradeAccountQuery)
      → HasMembers F R msg (serialize_trade_account_query F qry)
      → convert_trade_account_json2common F R msg ≡ record qry { user_id = [] }
  unfolding serialize_trade_account_query convert_trade_account_json2common
  trade_account_query-round_trip msg qry h =
      rw
        (
          text_member-string msg "qry_id" qry.qry_id h.0,
          text_member-string msg "market" qry.market h.1.1.0,
          text_member-string msg "currency_id" qry.currency_id h.1.1.1.0,
        )
        refl

  unfoldable pub query_text : Query → List (Event D)
  unfolding serialize_order_query serialize_trade_query serialize_position_query
      serialize_product_query
  query_text (orders qry) = serialize_order_query F qry
  query_text (trades qry) = serialize_trade_query F qry
  query_text (positions qry) = serialize_position_query F qry
  query_text (products qry) = serialize_product_query F qry

  -- The message read as a query of the same kind.
  unfoldable pub read_like : Query → V → Query
  unfolding convert_order_query_json2common convert_trade_query_json2common
      convert_position_query_json2common convert_product_query_json2common
  read_like (orders _) msg = orders (convert_order_query_json2common F R msg)
  read_like (trades _) msg = trades (convert_trade_query_json2common F R msg)
  read_like (positions _) msg = positions (convert_position_query_json2common F R msg)
  read_like (products _) msg = products (convert_product_query_json2common F R msg)

  -- A query for orders, for trades, for positions or for products is read back as it was written, every
  -- field of it, from a message that has the members that were written.
  pub query-round_trip :
      (msg : V) (q : Query) → HasMembers F R msg (query_text q) → read_like q msg ≡ q
  unfolding query_text read_like
  query-round_trip msg (orders qry) h = ap orders (order_query-round_trip msg qry h)
  query-round_trip msg (trades qry) h = ap trades (trade_query-round_trip msg qry h)
  query-round_trip msg (positions qry) h = ap positions (position_query-round_trip msg qry h)
  query-round_trip msg (products qry) h = ap products (product_query-round_trip msg qry h)
