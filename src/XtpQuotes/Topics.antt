-- ===== src/XtpQuotes/Topics.antt =====
-- The topics of `XTPQuoteHandler` and the calls for them (src/xtp-quotes/xtp_quote_handler.cpp, conf.h).
use babeltrader.Common.{
  ℕ, Bytes, Bool, true, false, List, [], ◌∷◌, ◌++◌, Option, none, some, if◌then◌else◌,
}
use mathlib.Core.List.{map}
use babeltrader.Common.StdMap.{StdMap, bytes_key, lookup, insert}
use babeltrader.Structs.{Quote}
use babeltrader.Enum.{
  exchange_unknown, info1_market_data, info1_kline, info2_unknown, info2_one_min,
}
use babeltrader.XtpQuotes.Convert.{
  market_xtp, product_type_spot, info1_order_book, info1_level2, convert_exchange_type_common2xtp,
}

-- The part of `XTPQuoteConf` that says what to subscribe to; an `int` that is not 0 is true.
pub record XtpQuoteConf : Type 0 where
  pub sub_all : Bool
  pub sub_orderbook : Bool
  pub sub_l2 : Bool
  pub default_sub_topics : List Quote

-- What there is to subscribe to, and the calls of `api_`, with the topic and its exchange there.
pub data Stream : Type 0 where
  market_data order_book tick_by_tick : Stream

pub data ApiCall : Type 0 where
  subscribe unsubscribe : Stream → Bytes → ℕ → ApiCall
  subscribe_all : Stream → ApiCall
  login : ApiCall

abbrev pub streams : XtpQuoteConf → List Stream
streams conf =
    market_data
    ∷ ((if conf.sub_orderbook then order_book ∷ [] else [])
        ++ (if conf.sub_l2 then tick_by_tick ∷ [] else []))

abbrev pub subscribes : XtpQuoteConf → Bytes → ℕ → List ApiCall
subscribes conf topic exchange =
    map (λ stream. subscribe stream topic (convert_exchange_type_common2xtp exchange))
      (streams conf)

-- `topic_exchange_[topic]`, which puts a 0 into the map when the topic is missing.
abbrev pub exchange_at : Bytes → StdMap Bytes ℕ → ℕ
exchange_at topic m = elim (lookup topic m) [ none ↦ exchange_unknown | some exchange ↦ exchange ]

abbrev pub put_missing : Bytes → Option ℕ → StdMap Bytes ℕ → StdMap Bytes ℕ
put_missing topic none m = insert topic exchange_unknown m
put_missing topic (some exchange) m = m

abbrev pub touched : Bytes → StdMap Bytes ℕ → StdMap Bytes ℕ
touched topic m = put_missing topic (lookup topic m) m

abbrev pub is_subscribed : Option Bool → Bool
is_subscribed none = false
is_subscribed (some flag) = flag

abbrev pub topic_quote : Bytes → ℕ → ℕ → ℕ → Quote
topic_quote topic exchange info1 info2 = record {
  market = market_xtp;
  exchange = exchange;
  type = product_type_spot;
  info1 = info1;
  symbol = topic;
  contract = [];
  contract_id = [];
  info2 = info2;
}

module _ (conf : XtpQuoteConf) where
  abbrev pub topic_quotes : Bytes → ℕ → Bool → List (Quote × Bool)
  topic_quotes topic exchange flag =
      (topic_quote topic exchange info1_market_data info2_unknown, flag)
      ∷ (topic_quote topic exchange info1_kline info2_one_min, flag)
      ∷ ((if conf.sub_orderbook
            then (topic_quote topic exchange info1_order_book info2_unknown, flag) ∷ []
            else [])
          ++ (if conf.sub_l2
              then (topic_quote topic exchange info1_level2 info2_unknown, flag) ∷ []
              else []))

  -- The loop of `GetSubTopics`, with the map of exchanges behind it.
  abbrev pub list_topics : StdMap Bytes Bool → StdMap Bytes ℕ → StdMap Bytes ℕ × List (Quote × Bool)
  list_topics [] m = (m, [])
  list_topics ((topic, flag) ∷ topics) m =
      let rest = list_topics topics (touched topic m) in
      (rest.0, topic_quotes topic (exchange_at topic m) flag ++ rest.1)

  -- The loop of `SubTopics`, with the map of exchanges behind it.
  unfoldable pub sub_topics_loop :
      StdMap Bytes Bool → StdMap Bytes ℕ → StdMap Bytes ℕ × List ApiCall
  sub_topics_loop [] m = (m, [])
  sub_topics_loop ((topic, true) ∷ topics) m = sub_topics_loop topics m
  sub_topics_loop ((topic, false) ∷ topics) m =
      let rest = sub_topics_loop topics (touched topic m) in
      (rest.0, subscribes conf topic (exchange_at topic m) ++ rest.1)
