-- ===== src/Enum.antt =====
-- src/common/enum.h and enum.cpp: the texts of the enumerations and the way back from a text.
-- An enumerator is its number, as the source stores it in a `uint8_t`; `EnumTable` names the tables
-- that have a `get…Enum` function.
pub mod Laws
mod Tests
use babeltrader.Common.{
  ℕ, suc, Bytes, codes, List, [], ◌∷◌, ◌==◌, ◌&&◌, if◌then◌else◌, length, drop, strncmp_eq,
}

abbrev pub g_markets : List Bytes
g_markets = [] ∷ codes "ctp" ∷ codes "ib" ∷ codes "xtp" ∷ codes "okex" ∷ codes "bitmex" ∷ []

abbrev pub g_exchanges : List Bytes
g_exchanges =
    []
    ∷ codes "SHFE"
    ∷ codes "CZCE"
    ∷ codes "DCE"
    ∷ codes "CFFEX"
    ∷ codes "INE"
    ∷ codes "SSE"
    ∷ codes "SZSE"
    ∷ codes "CME"
    ∷ codes "CBOT"
    ∷ codes "NYMEX"
    ∷ codes "COMEX"
    ∷ codes "CBOE"
    ∷ codes "okex"
    ∷ codes "bitmex"
    ∷ []

abbrev pub g_product_types : List Bytes
g_product_types =
    [] ∷ codes "future" ∷ codes "option" ∷ codes "spot" ∷ codes "etf" ∷ codes "ipo" ∷ []

abbrev pub g_quote_info1 : List Bytes
g_quote_info1 =
    []
    ∷ codes "marketdata"
    ∷ codes "kline"
    ∷ codes "orderbook"
    ∷ codes "level2"
    ∷ codes "depth"
    ∷ codes "ticker"
    ∷ []

abbrev pub g_quote_info2 : List Bytes
g_quote_info2 = [] ∷ codes "1h" ∷ codes "1m" ∷ []

abbrev pub g_order_type : List Bytes
g_order_type = [] ∷ codes "limit" ∷ codes "market" ∷ codes "best" ∷ []

abbrev pub g_order_flag1 : List Bytes
g_order_flag1 =
    [] ∷ codes "speculation" ∷ codes "arbitrage" ∷ codes "hedge" ∷ codes "marketmaker" ∷ []

abbrev pub g_order_action : List Bytes
g_order_action =
    []
    ∷ codes "open"
    ∷ codes "close"
    ∷ codes "closetoday"
    ∷ codes "closehistory"
    ∷ codes "forceclose"
    ∷ codes "buy"
    ∷ codes "sell"
    ∷ codes "borrow"
    ∷ codes "lend"
    ∷ []

abbrev pub g_order_dir : List Bytes
g_order_dir = [] ∷ codes "net" ∷ codes "long" ∷ codes "short" ∷ []

abbrev pub g_orderbookl2_action : List Bytes
g_orderbookl2_action = [] ∷ codes "entrust" ∷ codes "trade" ∷ []

abbrev pub g_orderbookl2_trade_flag : List Bytes
g_orderbookl2_trade_flag = [] ∷ codes "buy" ∷ codes "sell" ∷ codes "cancel" ∷ codes "deal" ∷ []

-- The enumerators that the code names, by their numbers.
abbrev pub market_unknown : ℕ
market_unknown = 0

abbrev pub market_ctp : ℕ
market_ctp = 1

abbrev pub exchange_unknown : ℕ
exchange_unknown = 0

abbrev pub product_type_unknown : ℕ
product_type_unknown = 0

abbrev pub product_type_future : ℕ
product_type_future = 1

abbrev pub info1_unknown : ℕ
info1_unknown = 0

abbrev pub info1_market_data : ℕ
info1_market_data = 1

abbrev pub info1_kline : ℕ
info1_kline = 2

abbrev pub info2_unknown : ℕ
info2_unknown = 0

abbrev pub info2_one_min : ℕ
info2_one_min = 2

-- The body of the macro `GET_ENUM_BY_STR` from index `i` on, over the entries left.
get_enum_from : ℕ → List Bytes → Bytes → ℕ
get_enum_from i [] str = 0
get_enum_from i (g ∷ gs) str =
    let rest = get_enum_from (suc i) gs str in
    if length g == length str && strncmp_eq (length str) str g then i else rest

-- The macro: the search starts behind the text of the unknown enumerator, and ends there too.
unfoldable pub get_enum_by_str : Bytes → List Bytes → ℕ
unfolding get_enum_from
get_enum_by_str str table = get_enum_from 1 (drop 1 table) str

unfoldable pub get_market_enum : Bytes → ℕ
unfolding get_enum_by_str
get_market_enum market = get_enum_by_str market g_markets

unfoldable pub get_exchange_enum : Bytes → ℕ
unfolding get_enum_by_str
get_exchange_enum exchange = get_enum_by_str exchange g_exchanges

unfoldable pub get_product_type_enum : Bytes → ℕ
unfolding get_enum_by_str
get_product_type_enum product_type = get_enum_by_str product_type g_product_types

unfoldable pub get_quote_info1_enum : Bytes → ℕ
unfolding get_enum_by_str
get_quote_info1_enum quote_info1 = get_enum_by_str quote_info1 g_quote_info1

unfoldable pub get_quote_info2_enum : Bytes → ℕ
unfolding get_enum_by_str
get_quote_info2_enum quote_info2 = get_enum_by_str quote_info2 g_quote_info2

-- The tables with a search function, and the two together.
pub data EnumTable : Type 0 where
  markets exchanges product_types quote_info1 quote_info2 : EnumTable

abbrev pub texts : EnumTable → List Bytes
texts EnumTable.markets = g_markets
texts EnumTable.exchanges = g_exchanges
texts EnumTable.product_types = g_product_types
texts EnumTable.quote_info1 = g_quote_info1
texts EnumTable.quote_info2 = g_quote_info2

abbrev pub get_enum : EnumTable → Bytes → ℕ
get_enum EnumTable.markets = get_market_enum
get_enum EnumTable.exchanges = get_exchange_enum
get_enum EnumTable.product_types = get_product_type_enum
get_enum EnumTable.quote_info1 = get_quote_info1_enum
get_enum EnumTable.quote_info2 = get_quote_info2_enum
