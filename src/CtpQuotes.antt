-- ===== src/CtpQuotes.antt =====
-- src/ctp-quotes/ctp_quote_handler.h and ctp_quote_handler.cpp: the subscriptions of
-- `CTPQuoteHandler` and its ticks; Connection has the rest of the handler. The interface's library is
-- not modelled: the calls of it are part of the result, and its answers are the handlers' arguments,
-- through pointers that are taken to be set. What a handler logs is in Logs.
pub mod Depth
pub mod Logs
pub mod Connection
pub mod Days
pub mod Requests
pub mod Subscribed
mod Tests
use babeltrader.Common.{
  ℕ, suc, ◌+◌, Bytes, Bool, true, false, ◌||◌, List, [], ◌∷◌, ◌++◌, Option, none, some,
  if◌then◌else◌, ltb, ◌==◌, length, take,
}
use mathlib.Core.List.{map}
use mathlib.Core.Option
use babeltrader.Common.Int.{ℤ, pos, negsuc, ◌-ℤ◌, eqb_ℤ, ltb_ℤ, quot_ℤ}
use babeltrader.Common.Double.{Double}
use babeltrader.Common.StdMap.{StdMap, bytes_key, lookup, insert, erase}
use babeltrader.Structs.{Quote, MarketData, Kline, QuoteMarketData, QuoteKline}
use babeltrader.Enum.{
  market_ctp, product_type_future, info1_market_data, info1_kline, info2_one_min,
}
use babeltrader.Utils.{Tm, split_instrument_into}
use babeltrader.Kline.{KlineCache, KlineBuilder, LocalTime, add, del, update_market_data}
use babeltrader.Json.{Event}
use babeltrader.QuoteService.{
  QuoteBlock, broadcast_market_data, broadcast_kline, sync_broadcast_market_data,
}
use babeltrader.CtpQuotes.Depth.{
  DepthMarketData, convert_quote, convert_market_data, get_update_time_ms,
}

-- The members that its operations change; `action_day` and `next_action_day` are set on connection.
pub record CtpQuotes (D : Type 0) : Type 0 where
  pub req_id : ℕ
  pub sub_topics : StdMap Bytes Bool
  pub kline_builder : KlineBuilder D
  pub action_day : Bytes
  pub next_action_day : Bytes

-- The calls of `api_`, with the instruments.
pub data ApiCall : Type 0 where
  subscribe_market_data unsubscribe_market_data : List Bytes → ApiCall

-- A topic in a buffer of 64 bytes that `strncpy` has filled with at most 63: behind those stands
-- what the stack held, up to the next NUL.
abbrev pub topic_text : Bytes → Bytes → Bytes
topic_text left_over instrument =
    if ltb (length instrument) 63 then instrument else take 63 instrument ++ left_over

abbrev pub instrument_of : Quote → Bytes
instrument_of msg = take 126 (msg.symbol ++ msg.contract)

-- Every flag is set to false.
abbrev pub all_down : StdMap Bytes Bool → StdMap Bytes Bool
all_down [] = []
all_down ((topic, flag) ∷ m) = (topic, false) ∷ all_down m

-- The loop of `SubTopics`: `buf` holds the topics since the last call of the interface.
unfoldable pub sub_topics_loop : List Bytes → StdMap Bytes Bool → List ApiCall
sub_topics_loop buf [] = if length buf == 0 then [] else subscribe_market_data buf ∷ []
sub_topics_loop buf ((topic, true) ∷ m) = sub_topics_loop buf m
sub_topics_loop buf ((topic, false) ∷ m) =
    let full = buf ++ take 63 topic ∷ [] in
    let called = sub_topics_loop [] m in
    let waiting = sub_topics_loop full m in
    if length full == 16 then subscribe_market_data full ∷ called else waiting

abbrev topic_quote : ℕ → ℕ → Bytes × Bytes → Quote
topic_quote info1 info2 parts = record {
  market = market_ctp;
  exchange = 0;
  type = product_type_future;
  info1 = info1;
  symbol = parts.0;
  contract = parts.1;
  contract_id = [];
  info2 = info2;
}

-- The loop of `GetSubTopics`; the flags that go to `vec_b` stand beside the topics. `none` is an
-- instrument with a part that does not fit its 16 bytes.
pub list_topics : StdMap Bytes Bool → Option (List (Quote × Bool))
list_topics [] = some []
list_topics ((instrument, flag) ∷ m) =
    let rest = list_topics m in
    elim (split_instrument_into 16 instrument) [
      | none ↦ none
      | some parts ↦
          Option.map
            (λ ts.
              (topic_quote info1_market_data 0 parts, flag)
              ∷ (topic_quote info1_kline info2_one_min parts, flag)
              ∷ ts)
            rest
    ]

module _ {D : Type 0} where
  -- The loop of `run` over `conf_.default_sub_topics`.
  pub load_topics : List Bytes → CtpQuotes D → CtpQuotes D
  load_topics [] s = s
  load_topics (topic ∷ topics) s =
      load_topics topics (record s { sub_topics = insert topic false s.sub_topics })

  pub sub_topic : Bytes → Quote → CtpQuotes D → CtpQuotes D × List ApiCall
  sub_topic left_over msg s =
      let instrument = instrument_of msg in
      elim (lookup instrument s.sub_topics) [
        | some true ↦ (s, [])
        | some false ↦ (
          record s { sub_topics = insert instrument false s.sub_topics },
          subscribe_market_data (topic_text left_over instrument ∷ []) ∷ [],
        )
        | none ↦ (
          record s { sub_topics = insert instrument false s.sub_topics },
          subscribe_market_data (topic_text left_over instrument ∷ []) ∷ [],
        )
      ]

  pub unsub_topic : Bytes → Quote → CtpQuotes D → CtpQuotes D × List ApiCall
  unsub_topic left_over msg s =
      let instrument = instrument_of msg in
      elim (lookup instrument s.sub_topics) [
        | none ↦ (s, [])
        | some _ ↦ (s, unsubscribe_market_data (topic_text left_over instrument ∷ []) ∷ [])
      ]

  pub on_front_disconnected : CtpQuotes D → CtpQuotes D
  on_front_disconnected s = record s { sub_topics = all_down s.sub_topics }

  pub sub_all_topics : CtpQuotes D → List ApiCall
  sub_all_topics s = sub_topics_loop [] s.sub_topics

  -- `none` is `exit(-1)`.
  pub on_rsp_user_login : ℤ → CtpQuotes D → Option (List ApiCall)
  unfolding sub_all_topics
  on_rsp_user_login error_id s = if eqb_ℤ error_id (pos 0) then some (sub_all_topics s) else none

  pub on_rsp_sub_market_data : KlineCache D → Bytes → ℤ → CtpQuotes D → CtpQuotes D
  on_rsp_sub_market_data uninit instrument error_id s =
      if eqb_ℤ error_id (pos 0)
      then record s {
        sub_topics = insert instrument true s.sub_topics;
        kline_builder = add uninit instrument s.kline_builder;
      }
      else s

  pub on_rsp_unsub_market_data : Bytes → ℤ → CtpQuotes D → CtpQuotes D
  on_rsp_unsub_market_data instrument error_id s =
      if eqb_ℤ error_id (pos 0)
      then record s {
        sub_topics = erase instrument s.sub_topics;
        kline_builder = del instrument s.kline_builder;
      }
      else s

  pub get_sub_topics : CtpQuotes D → Option (List (Quote × Bool))
  unfolding list_topics
  get_sub_topics s = list_topics s.sub_topics

-- `diff > max_diff || diff < -max_diff`, with the clock at `sec` and the tick at `ts`.
abbrev pub is_abnormal : ℤ → ℤ → Bool
is_abnormal sec ts =
    let diff = sec -ℤ quot_ℤ ts 1000 in ltb_ℤ (pos 180) diff || ltb_ℤ diff (negsuc 179)

-- The second part is what goes to the tunnel of the `QuoteService`.
abbrev pub bar_blocks : {D : Type 0} → Quote → Option (Kline D) → List (QuoteBlock D)
bar_blocks quote none = []
bar_blocks quote (some k) =
    broadcast_kline (record {
      quote_type = 0;
      quote = record quote { info1 = info1_kline; info2 = info2_one_min };
      kline = k;
    })
    ∷ []

module _ (F : Double) (atoi : Bytes → ℕ) (mktime : Tm → ℤ) (localtime : ℤ → LocalTime) where
  open F use {D}

  -- What the tunnel gets, and the text that is logged of a tick that is ignored, behind a few words.
  abbrev pub Ticked : Type 0
  Ticked = CtpQuotes D × (List (QuoteBlock D) × Option (List (Event D)))

  -- `none` is an instrument with a part that does not fit its 16 bytes.
  pub on_rtn_depth_market_data : ℤ → DepthMarketData D → CtpQuotes D → Option Ticked
  on_rtn_depth_market_data sec d s =
      let md =
        convert_market_data F (get_update_time_ms atoi mktime s.action_day s.next_action_day d) d in
      let (klines, bar) = update_market_data F localtime sec d.instrument_id md s.kline_builder in
      Option.map
        (λ quote.
          let msg : QuoteMarketData D = record {
            quote_type = 0;
            quote = quote;
            market_data = md;
          } in
          if is_abnormal sec md.ts then (s, ([], sync_broadcast_market_data F msg)) else (
            record s { kline_builder = klines },
            (broadcast_market_data msg ∷ bar_blocks quote bar, none),
          ))
        (convert_quote F d)
