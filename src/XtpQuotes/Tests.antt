-- ===== src/XtpQuotes/Tests.antt =====
-- An instance of the laws of XtpQuotes, with whole numbers for prices.
use babeltrader.Common.{codes, true, false, [], ◌∷◌}
use babeltrader.Common.Int.{ℤ, pos}
use babeltrader.Common.Double.{whole_numbers}
use babeltrader.Utils.{Tm}
use babeltrader.Kline.{KlineCache, LocalTime}
use babeltrader.XtpQuotes.Fields.{XtpRspInfo, XtpSpecificTicker}
use babeltrader.XtpQuotes.Convert.{exchange_sse}
use babeltrader.XtpQuotes.Topics.{XtpQuoteConf, topic_quote}
use babeltrader.XtpQuotes.{XtpQuotes, load_topics, get_sub_topics, on_sub_market_data}
use babeltrader.XtpQuotes.Subscribed.{IsValid}
use babeltrader.XtpQuotes.Running.{runs, later, is_answered, lists, fresh, Reaches-IsValid}

abbrev no_clock : Tm → ℤ
no_clock t = t.tm_sec

abbrev midnight : ℤ → LocalTime
midnight s = record { tm_hour = 0; tm_min = 0 }

abbrev uninit : KlineCache ℤ
uninit = record {
  start_vol = pos 77;
  last_update_local_sec = pos 3;
  kline = record {
    ts = pos 1;
    open_price = pos 2;
    high = pos 3;
    low = pos 4;
    close = pos 5;
    vol = pos 6;
  };
}

abbrev conf : XtpQuoteConf
conf = record {
  sub_all = false;
  sub_orderbook = true;
  sub_l2 = false;
  default_sub_topics = topic_quote (codes "600519") exchange_sse 1 0 ∷ [];
}

abbrev not_asked : XtpSpecificTicker
not_asked = record { exchange_id = 2; ticker = codes "000001" }

abbrev well : XtpRspInfo
well = record { error_id = pos 0; error_msg = [] }

abbrev started : XtpQuotes ℤ
started = load_topics conf conf.default_sub_topics (fresh whole_numbers no_clock midnight)

-- An answer about a topic that no one asked for, and a list of the topics behind it.
Reaches-IsValid_example :
    IsValid (get_sub_topics conf (on_sub_market_data uninit not_asked well started)).0
Reaches-IsValid_example =
    Reaches-IsValid whole_numbers no_clock midnight conf
      (get_sub_topics conf (on_sub_market_data uninit not_asked well started)).0
      (later (later runs (is_answered uninit not_asked well)) lists)
