-- ===== src/QueryCache.antt =====
-- src/common/query_cache.h and query_cache.cpp: `QueryCache`, which keeps for each request in flight
-- the client that waits for the answer and what it asked. A call runs under the mutex as a whole, so
-- that it is one step. A client's socket is a number; request numbers do not wrap around. A `Get…`
-- writes to the places that it is given: the parts of `Fetched` are what it would write to `*ws` and
-- to the query, `none` where it leaves them as they were.
pub mod Laws
mod Tests
use babeltrader.Common.{ℕ, Option, List, []}
use babeltrader.Common.StdMap.{StdMap, nat_key, lookup, insert, erase}
use babeltrader.Structs.{OrderQuery, TradeQuery, PositionQuery, TradeAccountQuery, ProductQuery}

pub record QueryCache : Type 0 where
  pub qry_ws_cache : StdMap ℕ ℕ
  pub qry_order_cache : StdMap ℕ OrderQuery
  pub qry_trade_cache : StdMap ℕ TradeQuery
  pub qry_position_cache : StdMap ℕ PositionQuery
  pub qry_position_detail_cache : StdMap ℕ PositionQuery
  pub qry_trade_account_cache : StdMap ℕ TradeAccountQuery
  pub qry_product_cache : StdMap ℕ ProductQuery

unfoldable pub empty : QueryCache
empty = record {
  qry_ws_cache = [];
  qry_order_cache = [];
  qry_trade_cache = [];
  qry_position_cache = [];
  qry_position_detail_cache = [];
  qry_trade_account_cache = [];
  qry_product_cache = [];
}

abbrev pub Fetched : Type 0 → Type 0
Fetched Q = Option ℕ × Option Q

unfoldable pub cache_qry_order : ℕ → ℕ → OrderQuery → QueryCache → QueryCache
cache_qry_order req_id ws qry c = record c {
  qry_ws_cache = insert req_id ws c.qry_ws_cache;
  qry_order_cache = insert req_id qry c.qry_order_cache;
}

unfoldable pub get_and_clear_cache_qry_order : ℕ → QueryCache → QueryCache × Fetched OrderQuery
get_and_clear_cache_qry_order req_id c = (
  record c {
    qry_ws_cache = erase req_id c.qry_ws_cache;
    qry_order_cache = erase req_id c.qry_order_cache;
  },
  (lookup req_id c.qry_ws_cache, lookup req_id c.qry_order_cache),
)

unfoldable pub cache_qry_trade : ℕ → ℕ → TradeQuery → QueryCache → QueryCache
cache_qry_trade req_id ws qry c = record c {
  qry_ws_cache = insert req_id ws c.qry_ws_cache;
  qry_trade_cache = insert req_id qry c.qry_trade_cache;
}

unfoldable pub get_and_clear_cache_qry_trade : ℕ → QueryCache → QueryCache × Fetched TradeQuery
get_and_clear_cache_qry_trade req_id c = (
  record c {
    qry_ws_cache = erase req_id c.qry_ws_cache;
    qry_trade_cache = erase req_id c.qry_trade_cache;
  },
  (lookup req_id c.qry_ws_cache, lookup req_id c.qry_trade_cache),
)

unfoldable pub cache_qry_position : ℕ → ℕ → PositionQuery → QueryCache → QueryCache
cache_qry_position req_id ws qry c = record c {
  qry_ws_cache = insert req_id ws c.qry_ws_cache;
  qry_position_cache = insert req_id qry c.qry_position_cache;
}

unfoldable pub get_and_clean_cache_qry_position :
    ℕ → QueryCache → QueryCache × Fetched PositionQuery
get_and_clean_cache_qry_position req_id c = (
  record c {
    qry_ws_cache = erase req_id c.qry_ws_cache;
    qry_position_cache = erase req_id c.qry_position_cache;
  },
  (lookup req_id c.qry_ws_cache, lookup req_id c.qry_position_cache),
)

unfoldable pub cache_qry_position_detail : ℕ → ℕ → PositionQuery → QueryCache → QueryCache
cache_qry_position_detail req_id ws qry c = record c {
  qry_ws_cache = insert req_id ws c.qry_ws_cache;
  qry_position_detail_cache = insert req_id qry c.qry_position_detail_cache;
}

unfoldable pub get_and_clean_cache_qry_position_detail :
    ℕ → QueryCache → QueryCache × Fetched PositionQuery
get_and_clean_cache_qry_position_detail req_id c = (
  record c {
    qry_ws_cache = erase req_id c.qry_ws_cache;
    qry_position_detail_cache = erase req_id c.qry_position_detail_cache;
  },
  (lookup req_id c.qry_ws_cache, lookup req_id c.qry_position_detail_cache),
)

unfoldable pub cache_qry_trade_account : ℕ → ℕ → TradeAccountQuery → QueryCache → QueryCache
cache_qry_trade_account req_id ws qry c = record c {
  qry_ws_cache = insert req_id ws c.qry_ws_cache;
  qry_trade_account_cache = insert req_id qry c.qry_trade_account_cache;
}

unfoldable pub get_and_clean_cache_qry_trade_account :
    ℕ → QueryCache → QueryCache × Fetched TradeAccountQuery
get_and_clean_cache_qry_trade_account req_id c = (
  record c {
    qry_ws_cache = erase req_id c.qry_ws_cache;
    qry_trade_account_cache = erase req_id c.qry_trade_account_cache;
  },
  (lookup req_id c.qry_ws_cache, lookup req_id c.qry_trade_account_cache),
)

unfoldable pub cache_qry_product : ℕ → ℕ → ProductQuery → QueryCache → QueryCache
cache_qry_product req_id ws qry c = record c {
  qry_ws_cache = insert req_id ws c.qry_ws_cache;
  qry_product_cache = insert req_id qry c.qry_product_cache;
}

unfoldable pub get_and_clean_cache_qry_product : ℕ → QueryCache → QueryCache × Fetched ProductQuery
get_and_clean_cache_qry_product req_id c = (
  record c {
    qry_ws_cache = erase req_id c.qry_ws_cache;
    qry_product_cache = erase req_id c.qry_product_cache;
  },
  (lookup req_id c.qry_ws_cache, lookup req_id c.qry_product_cache),
)

-- The six kinds of queries, for what is said of all.
pub data Kind : Type 0 where
  orders trades positions position_details trade_accounts products : Kind

abbrev pub Query : Kind → Type 0
Query orders = OrderQuery
Query trades = TradeQuery
Query positions = PositionQuery
Query position_details = PositionQuery
Query trade_accounts = TradeAccountQuery
Query products = ProductQuery

abbrev pub cache_of : (k : Kind) → QueryCache → StdMap ℕ (Query k)
cache_of orders c = c.qry_order_cache
cache_of trades c = c.qry_trade_cache
cache_of positions c = c.qry_position_cache
cache_of position_details c = c.qry_position_detail_cache
cache_of trade_accounts c = c.qry_trade_account_cache
cache_of products c = c.qry_product_cache

abbrev pub cache_qry : (k : Kind) → ℕ → ℕ → Query k → QueryCache → QueryCache
cache_qry orders = cache_qry_order
cache_qry trades = cache_qry_trade
cache_qry positions = cache_qry_position
cache_qry position_details = cache_qry_position_detail
cache_qry trade_accounts = cache_qry_trade_account
cache_qry products = cache_qry_product

abbrev pub get_cache_qry : (k : Kind) → ℕ → QueryCache → QueryCache × Fetched (Query k)
get_cache_qry orders = get_and_clear_cache_qry_order
get_cache_qry trades = get_and_clear_cache_qry_trade
get_cache_qry positions = get_and_clean_cache_qry_position
get_cache_qry position_details = get_and_clean_cache_qry_position_detail
get_cache_qry trade_accounts = get_and_clean_cache_qry_trade_account
get_cache_qry products = get_and_clean_cache_qry_product
