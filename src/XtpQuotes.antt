-- ===== src/XtpQuotes.antt =====
-- src/xtp-quotes/xtp_quote_handler.h, xtp_quote_handler.cpp and conf.h: the subscriptions of
-- `XTPQuoteHandler` and its ticks. The interface's library is not modelled: the calls of it are part
-- of the result, and its answers are the handlers' arguments, through pointers that are taken to be
-- set. What a handler logs is in Logs.
pub mod Fields
pub mod Logs
pub mod Convert
pub mod Topics
pub mod Exchanges
pub mod Subscribed
pub mod Running
mod Tests
use babeltrader.Common.{
  ℕ, Bytes, Bool, true, false, List, [], ◌∷◌, ◌++◌, Option, none, some, if◌then◌else◌,
}
use mathlib.Core.List.{map}
use babeltrader.Common.Int.{ℤ, pos, eqb_ℤ}
use babeltrader.Common.Double.{Double}
use babeltrader.Common.StdMap.{StdMap, bytes_key, lookup, insert, erase}
use babeltrader.Structs.{Quote, Kline}
use babeltrader.Enum.{
  exchange_unknown, info1_market_data, info1_kline, info2_unknown, info2_one_min,
}
use babeltrader.Utils.{Tm}
use babeltrader.Kline.{KlineCache, KlineBuilder, LocalTime, add, del, update_market_data}
use babeltrader.QuoteService.{
  QuoteBlock, broadcast_market_data, broadcast_kline, broadcast_order_book, broadcast_level2,
}
use babeltrader.XtpQuotes.Fields.{
  XtpRspInfo, XtpSpecificTicker, XtpMarketData, XtpOrderBook, XtpTickByTick,
}
use babeltrader.CtpQuotes.{all_down, bar_blocks}
use babeltrader.XtpQuotes.Topics.{
  XtpQuoteConf, Stream, ApiCall, unsubscribe, subscribe_all, login, streams, subscribes,
  exchange_at, touched, is_subscribed, list_topics, sub_topics_loop,
}
use babeltrader.XtpQuotes.Convert.{
  convert_exchange_type_common2xtp, market_data_quote, convert_market_data, order_book_quote,
  convert_order_book, tick_by_tick_quote, convert_tick_by_tick,
}

-- The members that its operations change. A topic comes from an array of 16 bytes.
pub record XtpQuotes (D : Type 0) : Type 0 where
  pub sub_topics : StdMap Bytes Bool
  pub topic_exchange : StdMap Bytes ℕ
  pub kline_builder : KlineBuilder D

module _ {D : Type 0} where
  abbrev pub one_more :
      ApiCall → Option (XtpQuotes D × List ApiCall) → Option (XtpQuotes D × List ApiCall)
  one_more call none = none
  one_more call (some r) = some (r.0, call ∷ r.1)

module _ {D : Type 0} (conf : XtpQuoteConf) where
  -- The loop of `run` over the topics of the configuration.
  unfoldable pub load_topics : List Quote → XtpQuotes D → XtpQuotes D
  load_topics [] s = s
  load_topics (topic ∷ topics) s = load_topics topics (record s {
    sub_topics = insert topic.symbol false s.sub_topics;
    topic_exchange = insert topic.symbol topic.exchange s.topic_exchange;
  })

  unfoldable pub get_sub_topics : XtpQuotes D → XtpQuotes D × List (Quote × Bool)
  get_sub_topics s =
      let listed = list_topics conf s.sub_topics s.topic_exchange in
      (record s { topic_exchange = listed.0 }, listed.1)

  unfoldable pub sub_topic : Quote → XtpQuotes D → XtpQuotes D × List ApiCall
  sub_topic msg s =
      if conf.sub_all
      then (s, [])
      else (if is_subscribed (lookup msg.symbol s.sub_topics) then (s, []) else (
        record s {
          sub_topics = insert msg.symbol false s.sub_topics;
          topic_exchange = insert msg.symbol msg.exchange s.topic_exchange;
        },
        subscribes conf msg.symbol msg.exchange,
      ))

  abbrev pub unsub_known : Bytes → Option Bool → XtpQuotes D → XtpQuotes D × List ApiCall
  unsub_known topic none s = (s, [])
  unsub_known topic (some flag) s = (
    record s { topic_exchange = touched topic s.topic_exchange },
    map
        (λ stream.
          unsubscribe stream topic
            (convert_exchange_type_common2xtp (exchange_at topic s.topic_exchange)))
        (streams conf),
  )

  unfoldable pub unsub_topic : Quote → XtpQuotes D → XtpQuotes D × List ApiCall
  unsub_topic msg s =
      if conf.sub_all then (s, []) else unsub_known msg.symbol (lookup msg.symbol s.sub_topics) s

  unfoldable pub sub_all_topics : XtpQuotes D → XtpQuotes D × List ApiCall
  unfolding sub_topics_loop
  sub_all_topics s =
      let asked = sub_topics_loop conf s.sub_topics s.topic_exchange in
      if conf.sub_all
      then (s, map (λ stream. subscribe_all stream) (streams conf))
      else (record s { topic_exchange = asked.0 }, asked.1)

  -- `RunAPI`, with what `Login` returns; `none` is `exit(-1)`.
  unfoldable pub run_api : ℤ → XtpQuotes D → Option (XtpQuotes D × List ApiCall)
  unfolding sub_all_topics
  run_api ret s =
      let asked = sub_all_topics s in
      if eqb_ℤ ret (pos 0) then some (asked.0, login ∷ asked.1) else none

  -- `Reconn`, with what one `Login` after the other returns; with none that is 0 it goes on.
  unfoldable pub reconn : List ℤ → XtpQuotes D → Option (XtpQuotes D × List ApiCall)
  unfolding sub_all_topics
  reconn [] s = none
  reconn (ret ∷ rets) s =
      let asked = sub_all_topics s in
      let again = reconn rets s in
      if eqb_ℤ ret (pos 0) then some (asked.0, login ∷ asked.1) else one_more login again

  unfoldable pub on_disconnected : List ℤ → XtpQuotes D → Option (XtpQuotes D × List ApiCall)
  unfolding reconn
  on_disconnected rets s = reconn rets (record s { sub_topics = all_down s.sub_topics })

module _ {D : Type 0} where
  unfoldable pub on_sub_market_data :
      KlineCache D → XtpSpecificTicker → XtpRspInfo → XtpQuotes D → XtpQuotes D
  on_sub_market_data uninit ticker error_info s =
      if eqb_ℤ error_info.error_id (pos 0)
      then record s {
        sub_topics = insert ticker.ticker true s.sub_topics;
        kline_builder = add uninit ticker.ticker s.kline_builder;
      }
      else s

  unfoldable pub on_un_sub_market_data : XtpSpecificTicker → XtpRspInfo → XtpQuotes D → XtpQuotes D
  on_un_sub_market_data ticker error_info s =
      if eqb_ℤ error_info.error_id (pos 0)
      then record s {
        sub_topics = erase ticker.ticker s.sub_topics;
        topic_exchange = erase ticker.ticker s.topic_exchange;
        kline_builder = del ticker.ticker s.kline_builder;
      }
      else s

module _ (F : Double) (mktime : Tm → ℤ) (localtime : ℤ → LocalTime) where
  open F use {D}

  -- At the time `sec`.
  unfoldable pub on_depth_market_data :
      ℤ → XtpMarketData D → XtpQuotes D → XtpQuotes D × List (QuoteBlock D)
  unfolding market_data_quote convert_market_data
  on_depth_market_data sec d s =
      let quote = market_data_quote F mktime d in
      let md = convert_market_data F mktime d in
      let (klines, bar) = update_market_data F localtime sec d.ticker md s.kline_builder in
      (
        record s { kline_builder = klines },
        broadcast_market_data (record { quote_type = 0; quote = quote; market_data = md })
            ∷ bar_blocks quote bar,
      )

  unfoldable pub on_order_book : XtpOrderBook D → QuoteBlock D
  unfolding order_book_quote convert_order_book
  on_order_book b = broadcast_order_book (record {
    quote_type = 0;
    quote = order_book_quote F mktime b;
    order_book = convert_order_book F mktime b;
  })

  unfoldable pub on_tick_by_tick : XtpTickByTick D → QuoteBlock D
  unfolding tick_by_tick_quote convert_tick_by_tick
  on_tick_by_tick t = broadcast_level2 (record {
    quote_type = 0;
    quote = tick_by_tick_quote F mktime t;
    level2 = convert_tick_by_tick F mktime t;
  })
