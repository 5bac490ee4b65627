-- ===== src/Converter/Quotes.antt =====
-- The writers of quotes (src/common/converter.cpp), in a build without `ENABLE_PERFORMANCE_TEST`.
-- An index behind the end of a table of texts or of an array of levels is `none`.
use babeltrader.Common.{
  ℕ, zero, suc, Bytes, String, codes, List, [], ◌∷◌, ◌++◌, Option, none, some, get_elem?,
  if◌then◌else◌, ◌==◌,
}
use mathlib.Core.Option
use babeltrader.Common.Double.{Double}
use babeltrader.Structs.{
  Quote, PriceVol, MarketData, OrderBook, OrderBookLevel2, OrderBookLevel2Entrust,
  OrderBookLevel2Trade, Kline,
}
use babeltrader.Enum.{
  g_markets, g_exchanges, g_product_types, g_quote_info1, g_quote_info2, g_order_dir, g_order_type,
  g_orderbookl2_action, g_orderbookl2_trade_flag,
}
use babeltrader.Json.{
  Event, start_object, end_object, start_array, end_array, key, string, int, int64, double,
}

-- Parts one after the other; a part that reads out of bounds spoils the whole.
unfoldable pub joined {ℓ} : {A : Type ℓ} → List (Option (List A)) → Option (List A)
joined [] = some []
joined (none ∷ ps) = none
joined (some xs ∷ ps) = Option.map (λ ys. xs ++ ys) (joined ps)

-- `writer.Key(k); writer.String(table[i]);`
unfoldable pub named : {D : Type 0} → String → List Bytes → ℕ → Option (List (Event D))
named k table i = Option.map (λ t. key (codes k) ∷ string t ∷ []) (get_elem? table i)

module _ (F : Double) where
  open F use {D}

  -- The last key is written by `writer.String("data")`.
  unfoldable pub serialize_quote_begin : Quote → Option (List (Event D))
  serialize_quote_begin quote = joined (
      some (
        start_object
        ∷ key (codes "msg")
        ∷ string (codes "quote")
        ∷ key (codes "data")
        ∷ start_object
        ∷ [])
      ∷ named "market" g_markets quote.market
      ∷ named "exchange" g_exchanges quote.exchange
      ∷ named "type" g_product_types quote.type
      ∷ some (
          key (codes "symbol")
          ∷ string quote.symbol
          ∷ key (codes "contract")
          ∷ string quote.contract
          ∷ key (codes "contract_id")
          ∷ string quote.contract_id
          ∷ [])
      ∷ named "info1" g_quote_info1 quote.info1
      ∷ named "info2" g_quote_info2 quote.info2
      ∷ some (string (codes "data") ∷ start_object ∷ [])
      ∷ [])

  unfoldable pub serialize_quote_end : List (Event D)
  serialize_quote_end = end_object ∷ end_object ∷ end_object ∷ []

  abbrev pub level : PriceVol D → List (Event D)
  level p = start_array ∷ double p.price ∷ int p.vol ∷ end_array ∷ []

  -- The loop over the first `n` levels.
  unfoldable pub levels : ℕ → List (PriceVol D) → Option (List (Event D))
  levels zero ps = some []
  levels (suc n) [] = none
  levels (suc n) (p ∷ ps) = Option.map (λ es. level p ++ es) (levels n ps)

  unfoldable pub serialize_market_data : MarketData D → Option (List (Event D))
  serialize_market_data md = joined (
      some (
        key (codes "ts")
        ∷ int64 md.ts
        ∷ key (codes "last")
        ∷ double md.last
        ∷ key (codes "bids")
        ∷ start_array
        ∷ [])
      ∷ levels md.bid_ask_len md.bids
      ∷ some (end_array ∷ key (codes "asks") ∷ start_array ∷ [])
      ∷ levels md.bid_ask_len md.asks
      ∷ some (
          end_array
          ∷ key (codes "vol")
          ∷ double md.vol
          ∷ key (codes "turnover")
          ∷ double md.turnover
          ∷ key (codes "avg_price")
          ∷ double md.avg_price
          ∷ key (codes "pre_settlement")
          ∷ double md.pre_settlement
          ∷ key (codes "pre_close")
          ∷ double md.pre_close
          ∷ key (codes "pre_open_interest")
          ∷ double md.pre_open_interest
          ∷ key (codes "settlement")
          ∷ double md.settlement
          ∷ key (codes "close")
          ∷ double md.close
          ∷ key (codes "open_interest")
          ∷ double md.open_interest
          ∷ key (codes "upper_limit")
          ∷ double md.upper_limit
          ∷ key (codes "lower_limit")
          ∷ double md.lower_limit
          ∷ key (codes "open")
          ∷ double md.open_price
          ∷ key (codes "high")
          ∷ double md.high
          ∷ key (codes "low")
          ∷ double md.low
          ∷ key (codes "trading_day")
          ∷ string md.trading_day
          ∷ key (codes "action_day")
          ∷ string md.action_day
          ∷ [])
      ∷ [])

  -- The loop over a whole array of levels.
  unfoldable pub all_levels : List (PriceVol D) → List (Event D)
  all_levels [] = []
  all_levels (p ∷ ps) = level p ++ all_levels ps

  unfoldable pub serialize_order_book : OrderBook D → List (Event D)
  serialize_order_book order_book =
      (key (codes "ts")
        ∷ int64 order_book.ts
        ∷ key (codes "last")
        ∷ double order_book.last
        ∷ key (codes "bids")
        ∷ start_array
        ∷ [])
      ++ (all_levels order_book.bids
          ++ ((end_array ∷ key (codes "asks") ∷ start_array ∷ [])
              ++ (all_levels order_book.asks
                  ++ (end_array ∷ key (codes "vol") ∷ double order_book.vol ∷ []))))

  unfoldable pub serialize_kline : Kline D → List (Event D)
  serialize_kline kline =
      key (codes "ts")
      ∷ int64 kline.ts
      ∷ key (codes "open")
      ∷ double kline.open_price
      ∷ key (codes "high")
      ∷ double kline.high
      ∷ key (codes "low")
      ∷ double kline.low
      ∷ key (codes "close")
      ∷ double kline.close
      ∷ key (codes "vol")
      ∷ double kline.vol
      ∷ []

  -- The branches of the `switch` of `SerializeLevel2`.
  abbrev pub level2_entrust : OrderBookLevel2Entrust D → Option (List (Event D))
  level2_entrust entrust = joined (
      some (
        key (codes "channel_no")
        ∷ int64 entrust.channel_no
        ∷ key (codes "seq")
        ∷ int64 entrust.seq
        ∷ key (codes "price")
        ∷ double entrust.price
        ∷ key (codes "vol")
        ∷ double entrust.vol
        ∷ [])
      ∷ named "dir" g_order_dir entrust.dir
      ∷ named "order_type" g_order_type entrust.order_type
      ∷ [])

  abbrev pub level2_trade : OrderBookLevel2Trade D → Option (List (Event D))
  level2_trade trade = joined (
      some (
        key (codes "channel_no")
        ∷ int64 trade.channel_no
        ∷ key (codes "seq")
        ∷ int64 trade.seq
        ∷ key (codes "price")
        ∷ double trade.price
        ∷ key (codes "vol")
        ∷ double trade.vol
        ∷ key (codes "bid_no")
        ∷ int64 trade.bid_no
        ∷ key (codes "ask_no")
        ∷ int64 trade.ask_no
        ∷ [])
      ∷ named "trade_flag" g_orderbookl2_trade_flag trade.trade_flag
      ∷ [])

  unfoldable pub serialize_level2 : OrderBookLevel2 D → Option (List (Event D))
  serialize_level2 level2 = joined (
      some (key (codes "ts") ∷ int64 level2.ts ∷ [])
      ∷ named "action" g_orderbookl2_action level2.action
      ∷ some (key (codes "data") ∷ start_object ∷ [])
      ∷ (if level2.action == 1
          then level2_entrust level2.entrust
          else (if level2.action == 2 then level2_trade level2.trade else some []))
      ∷ some (end_object ∷ [])
      ∷ [])
