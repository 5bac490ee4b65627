-- ===== src/XtpQuotes/Running.antt =====
-- `XTPQuoteHandler` through any sequence of calls (src/xtp-quotes/xtp_quote_handler.cpp).
use babeltrader.Common.{◌≡◌, true, List, [], some}
use babeltrader.Common.Int.{ℤ}
use babeltrader.Common.Double.{Double}
use babeltrader.Common.StdMap.{none-ne-some, bytes_key, lookup}
use babeltrader.Structs.{Quote}
use babeltrader.Utils.{Tm}
use mathlib.Core.Path.{subst}
use babeltrader.Kline.{KlineCache, LocalTime}
use babeltrader.XtpQuotes.Fields.{XtpRspInfo, XtpSpecificTicker, XtpMarketData}
use babeltrader.XtpQuotes.Topics.{XtpQuoteConf, ApiCall}
use babeltrader.XtpQuotes.{
  XtpQuotes, load_topics, get_sub_topics, sub_topic, unsub_topic, run_api, on_disconnected,
  on_sub_market_data, on_un_sub_market_data, on_depth_market_data,
}
use babeltrader.XtpQuotes.Subscribed.{
  IsValid, Holds, get_sub_topics-IsValid, load_topics-IsValid, on_depth_market_data-IsValid,
  on_disconnected-Holds, on_sub_market_data-IsValid, on_un_sub_market_data-IsValid, run_api-Holds,
  sub_topic-IsValid, unsub_topic-IsValid,
}

module _ (F : Double) (mktime : Tm → ℤ) (localtime : ℤ → LocalTime) where
  open F use {D}

  -- One call of the handler, from the services or from the interface.
  pub data Step (conf : XtpQuoteConf) (s : XtpQuotes D) : XtpQuotes D → Type 0 where
    lists : Step conf s (get_sub_topics conf s).0
    requests : (msg : Quote) → Step conf s (sub_topic conf msg s).0
    gives_up : (msg : Quote) → Step conf s (unsub_topic conf msg s).0
    starts :
        (ret : ℤ) (t : XtpQuotes D) (calls : List ApiCall)
        → run_api conf ret s ≡ some (t, calls)
        → Step conf s t
    reconnects :
        (rets : List ℤ) (t : XtpQuotes D) (calls : List ApiCall)
        → on_disconnected conf rets s ≡ some (t, calls)
        → Step conf s t
    is_answered :
        (uninit : KlineCache D) (ticker : XtpSpecificTicker) (info : XtpRspInfo)
        → Step conf s (on_sub_market_data uninit ticker info s)
    is_released :
        (ticker : XtpSpecificTicker) (info : XtpRspInfo)
        → Step conf s (on_un_sub_market_data ticker info s)
    receives :
        (sec : ℤ) (d : XtpMarketData D)
        → Step conf s (on_depth_market_data F mktime localtime sec d s).0

  abbrev pub fresh : XtpQuotes D
  fresh = record { sub_topics = []; topic_exchange = []; kline_builder = [] }

  -- What the handler comes to, from its members as `run` sets them up.
  pub data Reaches (conf : XtpQuoteConf) : XtpQuotes D → Type 0 where
    runs : Reaches conf (load_topics conf conf.default_sub_topics fresh)
    later : {s t : XtpQuotes D} → Reaches conf s → Step conf s t → Reaches conf t

  Step-IsValid : (conf : XtpQuoteConf) (s t : XtpQuotes D) → Step conf s t → IsValid s → IsValid t
  Step-IsValid conf s t lists v = get_sub_topics-IsValid conf s v
  Step-IsValid conf s t (requests msg) v = sub_topic-IsValid conf msg s v
  Step-IsValid conf s t (gives_up msg) v = unsub_topic-IsValid conf msg s v
  Step-IsValid conf s t (starts ret _ calls e) v = subst Holds e (run_api-Holds conf ret s v)
  Step-IsValid conf s t (reconnects rets _ calls e) v =
      subst Holds e (on_disconnected-Holds conf rets s v)
  Step-IsValid conf s t (is_answered uninit ticker info) v =
      on_sub_market_data-IsValid uninit ticker info s v
  Step-IsValid conf s t (is_released ticker info) v = on_un_sub_market_data-IsValid ticker info s v
  Step-IsValid conf s t (receives sec d) v =
      on_depth_market_data-IsValid F mktime localtime sec d s v

  -- Whatever calls have come in since `run`, in whatever order, with its reading of a missing exchange,
  -- which puts an entry into the map of exchanges: a topic that counts as subscribed has a cache for
  -- its bars, and every instrument with a cache and every topic with an exchange is a topic that is
  -- still there.
  pub Reaches-IsValid : (conf : XtpQuoteConf) (s : XtpQuotes D) → Reaches conf s → IsValid s
  unfolding lookup
  Reaches-IsValid conf s runs = load_topics-IsValid conf conf.default_sub_topics fresh (record {
    has_cache = λ j h. absurd (none-ne-some true h);
    has_topic = λ j h. absurd (none-ne-some h.0 h.1);
    within = λ j h. absurd (none-ne-some h.0 h.1);
  })
  Reaches-IsValid conf s (later {s = r} h st) = Step-IsValid conf r s st (Reaches-IsValid conf r h)
