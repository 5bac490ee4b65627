-- ===== src/QuoteService.antt =====
-- src/common/quote_service.h and quote_service.cpp, in a build without `ENABLE_PERFORMANCE_TEST`. The
-- tunnel is the library muggle's: what a `Read` takes from it is an argument.
pub mod Texts
pub mod Batches
mod Tests
use babeltrader.Common.{ℕ, List, [], ◌∷◌, ◌++◌, Option, some}
use mathlib.Core.Option
use babeltrader.Common.Double.{Double}
use babeltrader.Structs.{QuoteMarketData, QuoteKline, QuoteOrderBook, QuoteOrderBookLevel2}
use babeltrader.Json.{Event, start_array, end_array}
use babeltrader.Converter.Quotes.{
  joined, serialize_quote_begin, serialize_quote_end, serialize_market_data, serialize_kline,
  serialize_order_book, serialize_level2,
}

-- `QuoteBlock`, a tag and the bytes of the message that was cast to it. `AsyncLoop` casts it back by
-- the tag; a block with another tag, which no `Broadcast…` writes, has `other_block`.
pub data QuoteBlock (D : Type 0) : Type 0 where
  market_data_block : QuoteMarketData D → QuoteBlock D
  kline_block : QuoteKline D → QuoteBlock D
  order_book_block : QuoteOrderBook D → QuoteBlock D
  level2_block : QuoteOrderBookLevel2 D → QuoteBlock D
  other_block : QuoteBlock D

module _ {D : Type 0} where
  -- What the `Broadcast…` functions write to the tunnel.
  pub broadcast_market_data : QuoteMarketData D → QuoteBlock D
  broadcast_market_data msg = market_data_block (record msg { quote_type = 0 })

  pub broadcast_kline : QuoteKline D → QuoteBlock D
  broadcast_kline msg = kline_block (record msg { quote_type = 1 })

  pub broadcast_order_book : QuoteOrderBook D → QuoteBlock D
  broadcast_order_book msg = order_book_block (record msg { quote_type = 2 })

  pub broadcast_level2 : QuoteOrderBookLevel2 D → QuoteBlock D
  broadcast_level2 msg = level2_block (record msg { quote_type = 3 })

module _ (F : Double) where
  open F use {D}

  -- The body of the loop over a batch.
  pub serialize_block : QuoteBlock D → Option (List (Event D))
  serialize_block (market_data_block msg) = joined (
      serialize_quote_begin F msg.quote
      ∷ serialize_market_data F msg.market_data
      ∷ some (serialize_quote_end F)
      ∷ [])
  serialize_block (kline_block msg) = joined (
      serialize_quote_begin F msg.quote
      ∷ some (serialize_kline F msg.kline)
      ∷ some (serialize_quote_end F)
      ∷ [])
  serialize_block (order_book_block msg) = joined (
      serialize_quote_begin F msg.quote
      ∷ some (serialize_order_book F msg.order_book)
      ∷ some (serialize_quote_end F)
      ∷ [])
  serialize_block (level2_block msg) = joined (
      serialize_quote_begin F msg.quote
      ∷ serialize_level2 F msg.level2
      ∷ some (serialize_quote_end F)
      ∷ [])
  serialize_block other_block = some []

  -- `while (queue.size())`.
  pub serialize_blocks : List (QuoteBlock D) → Option (List (Event D))
  serialize_blocks [] = some []
  serialize_blocks (b ∷ bs) = joined (serialize_block b ∷ serialize_blocks bs ∷ [])

  abbrev pub bracket : List (Event D) → List (Event D)
  bracket es = start_array ∷ (es ++ end_array ∷ [])

  -- The texts that `AsyncLoop` sends for a sequence of reads; a read that brings nothing is passed over.
  pub async_loop : List (List (QuoteBlock D)) → Option (List (List (Event D)))
  async_loop [] = some []
  async_loop ([] ∷ reads) = async_loop reads
  async_loop ((b ∷ bs) ∷ reads) =
      joined
        (Option.map (λ es. bracket es ∷ []) (serialize_blocks (b ∷ bs)) ∷ async_loop reads ∷ [])

  -- `SyncBroadcastMarketData`, `SyncBroadcastKline`, `SyncBroadcastOrderBook`, `SyncBroadcastLevel2`.
  pub sync_broadcast_market_data : QuoteMarketData D → Option (List (Event D))
  sync_broadcast_market_data msg = Option.map bracket (
      joined (
        serialize_quote_begin F msg.quote
        ∷ serialize_market_data F msg.market_data
        ∷ some (serialize_quote_end F)
        ∷ []))

  pub sync_broadcast_kline : QuoteKline D → Option (List (Event D))
  sync_broadcast_kline msg = Option.map bracket (
      joined (
        serialize_quote_begin F msg.quote
        ∷ some (serialize_kline F msg.kline)
        ∷ some (serialize_quote_end F)
        ∷ []))

  pub sync_broadcast_order_book : QuoteOrderBook D → Option (List (Event D))
  sync_broadcast_order_book msg = Option.map bracket (
      joined (
        serialize_quote_begin F msg.quote
        ∷ some (serialize_order_book F msg.order_book)
        ∷ some (serialize_quote_end F)
        ∷ []))

  pub sync_broadcast_level2 : QuoteOrderBookLevel2 D → Option (List (Event D))
  sync_broadcast_level2 msg = Option.map bracket (
      joined (
        serialize_quote_begin F msg.quote
        ∷ serialize_level2 F msg.level2
        ∷ some (serialize_quote_end F)
        ∷ []))
