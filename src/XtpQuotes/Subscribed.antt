-- ===== src/XtpQuotes/Subscribed.antt =====
-- How the two maps of topics of `XTPQuoteHandler` and its bars hang together
-- (src/xtp-quotes/xtp_quote_handler.cpp).
use babeltrader.Common.{
  ℕ, ◌≡◌, refl, Bytes, Bool, true, false, if_both, List, [], ◌∷◌, Option, none, some, inl, inr,
}
use babeltrader.Common.Int.{ℤ, pos, eqb_ℤ}
use babeltrader.Common.Double.{Double}
use babeltrader.Common.StdMap.{
  StdMap, bytes_key, lookup, insert, Has, Has-insert, Has-insert_self, Has-erase, lookup-insert_inv,
  lookup-erase_inv,
}
use babeltrader.Structs.{Quote}
use babeltrader.Utils.{Tm}
use babeltrader.Kline.{KlineCache, LocalTime}
use babeltrader.Kline.Keys.{
  Has-add, Has-add_self, add_inv, Has-del, del_inv, Has-update_market_data, update_market_data_inv,
}
use babeltrader.CtpQuotes.{all_down}
use babeltrader.CtpQuotes.Subscribed.{insert-false_up, all_down-Has, all_down-up}
use babeltrader.XtpQuotes.Fields.{XtpRspInfo, XtpSpecificTicker, XtpMarketData}
use babeltrader.XtpQuotes.Convert.{convert_market_data}
use babeltrader.XtpQuotes.Exchanges.{
  Within, touched-Within, list_topics-Within, sub_topics_loop-Within,
}
use babeltrader.XtpQuotes.Topics.{XtpQuoteConf, ApiCall, login, is_subscribed}
use babeltrader.XtpQuotes.{
  XtpQuotes, one_more, load_topics, get_sub_topics, sub_topic, unsub_known, unsub_topic,
  sub_all_topics, run_api, reconn, on_disconnected, on_sub_market_data, on_un_sub_market_data,
  on_depth_market_data,
}

-- A subscribed topic has a cache for its bars, and what has a cache or an exchange is a topic.
pub record IsValid {D : Type 0} (s : XtpQuotes D) : Type 0 where
  pub has_cache : (k : Bytes) → lookup k s.sub_topics ≡ some true → Has k s.kline_builder
  pub has_topic : (k : Bytes) → Has k s.kline_builder → Has k s.sub_topics
  pub within : (k : Bytes) → Has k s.topic_exchange → Has k s.sub_topics

module _ {D : Type 0} where
  -- Whatever comes of it, if anything does.
  abbrev pub Holds : Option (XtpQuotes D × List ApiCall) → Type 0
  Holds none = Unit {0}
  Holds (some r) = IsValid r.0

  Holds-again :
      (call : ApiCall) (found : Option (XtpQuotes D × List ApiCall))
      → Holds found
      → Holds (one_more call found)
  Holds-again call none h = tt
  Holds-again call (some r) h = h

module _ {D : Type 0} (conf : XtpQuoteConf) where
  -- A topic that is not up, with its exchange.
  insert-IsValid :
      (k : Bytes) (exchange : ℕ) (s : XtpQuotes D)
      → IsValid s
      → IsValid (record s {
        sub_topics = insert k false s.sub_topics;
        topic_exchange = insert k exchange s.topic_exchange;
      })
  insert-IsValid k exchange s v = record {
    has_cache = λ j h. v.has_cache j (insert-false_up k j s.sub_topics h);
    has_topic = λ j h. Has-insert k j false s.sub_topics (v.has_topic j h);
    within = λ j h. elim (lookup-insert_inv k j exchange h.0 s.topic_exchange h.1) [
      | inl q ↦ rw (← q) (Has-insert_self k false s.sub_topics)
      | inr q ↦ Has-insert k j false s.sub_topics (v.within j (h.0, q))
    ];
  }

  -- Only the map of exchanges changes.
  exchanges-IsValid :
      (m : StdMap Bytes ℕ) (s : XtpQuotes D)
      → Within m s.sub_topics
      → IsValid s
      → IsValid (record s { topic_exchange = m })
  exchanges-IsValid m s within v = record {
    has_cache = v.has_cache;
    has_topic = v.has_topic;
    within = within;
  }

  pub load_topics-IsValid :
      (topics : List Quote) (s : XtpQuotes D) → IsValid s → IsValid (load_topics conf topics s)
  unfolding load_topics
  load_topics-IsValid [] s v = v
  load_topics-IsValid (topic ∷ topics) s v =
      load_topics-IsValid topics _ (insert-IsValid topic.symbol topic.exchange s v)

  pub get_sub_topics-IsValid : (s : XtpQuotes D) → IsValid s → IsValid (get_sub_topics conf s).0
  unfolding get_sub_topics
  get_sub_topics-IsValid s v =
      exchanges-IsValid _ s
        (list_topics-Within conf s.sub_topics s.sub_topics s.topic_exchange (λ j h. h) v.within) v

  pub sub_topic-IsValid :
      (msg : Quote) (s : XtpQuotes D) → IsValid s → IsValid (sub_topic conf msg s).0
  unfolding sub_topic
  sub_topic-IsValid msg s v =
      if_both (λ (r : XtpQuotes D × List ApiCall). IsValid r.0) conf.sub_all v
        (if_both (λ (r : XtpQuotes D × List ApiCall). IsValid r.0)
          (is_subscribed (lookup msg.symbol s.sub_topics)) v
          (insert-IsValid msg.symbol msg.exchange s v))

  unsub_known-IsValid :
      (k : Bytes) (found : Option Bool) (s : XtpQuotes D)
      → lookup k s.sub_topics ≡ found
      → IsValid s
      → IsValid (unsub_known conf k found s).0
  unsub_known-IsValid k none s e v = v
  unsub_known-IsValid k (some flag) s e v =
      exchanges-IsValid _ s (touched-Within k s.topic_exchange s.sub_topics (flag, e) v.within) v

  pub unsub_topic-IsValid :
      (msg : Quote) (s : XtpQuotes D) → IsValid s → IsValid (unsub_topic conf msg s).0
  unfolding unsub_topic
  unsub_topic-IsValid msg s v =
      if_both (λ (r : XtpQuotes D × List ApiCall). IsValid r.0) conf.sub_all v
        (unsub_known-IsValid msg.symbol (lookup msg.symbol s.sub_topics) s refl v)

  sub_all_topics-IsValid : (s : XtpQuotes D) → IsValid s → IsValid (sub_all_topics conf s).0
  unfolding sub_all_topics
  sub_all_topics-IsValid s v =
      if_both (λ (r : XtpQuotes D × List ApiCall). IsValid r.0) conf.sub_all v
        (exchanges-IsValid _ s
          (sub_topics_loop-Within conf s.sub_topics s.sub_topics s.topic_exchange (λ j h. h)
            v.within)
          v)

  pub run_api-Holds : (ret : ℤ) (s : XtpQuotes D) → IsValid s → Holds (run_api conf ret s)
  unfolding run_api
  run_api-Holds ret s v = if_both Holds (eqb_ℤ ret (pos 0)) (sub_all_topics-IsValid s v) tt

  reconn-Holds : (rets : List ℤ) (s : XtpQuotes D) → IsValid s → Holds (reconn conf rets s)
  unfolding reconn
  reconn-Holds [] s v = tt
  reconn-Holds (ret ∷ rets) s v =
      if_both Holds (eqb_ℤ ret (pos 0)) (sub_all_topics-IsValid s v)
        (Holds-again login (reconn conf rets s) (reconn-Holds rets s v))

  pub on_disconnected-Holds :
      (rets : List ℤ) (s : XtpQuotes D) → IsValid s → Holds (on_disconnected conf rets s)
  unfolding on_disconnected
  on_disconnected-Holds rets s v =
      reconn-Holds rets (record s { sub_topics = all_down s.sub_topics })
        (record {
          has_cache = λ j h. absurd (all_down-up j s.sub_topics h);
          has_topic = λ j h. all_down-Has j s.sub_topics (v.has_topic j h);
          within = λ j h. all_down-Has j s.sub_topics (v.within j h);
        })

module _ {D : Type 0} where
  pub on_sub_market_data-IsValid :
      (uninit : KlineCache D) (ticker : XtpSpecificTicker) (info : XtpRspInfo) (s : XtpQuotes D)
      → IsValid s
      → IsValid (on_sub_market_data uninit ticker info s)
  unfolding on_sub_market_data
  on_sub_market_data-IsValid uninit ticker info s v =
      if_both IsValid (eqb_ℤ info.error_id (pos 0))
        (record {
          has_cache = λ j h. elim (lookup-insert_inv ticker.ticker j true true s.sub_topics h) [
            | inl q ↦ rw (← q) (Has-add_self uninit ticker.ticker s.kline_builder)
            | inr q ↦ Has-add uninit ticker.ticker j s.kline_builder (v.has_cache j q)
          ];
          has_topic = λ j h. elim (add_inv uninit ticker.ticker j s.kline_builder h) [
            | inl q ↦ rw (← q) (Has-insert_self ticker.ticker true s.sub_topics)
            | inr q ↦ Has-insert ticker.ticker j true s.sub_topics (v.has_topic j q)
          ];
          within = λ j h. Has-insert ticker.ticker j true s.sub_topics (v.within j h);
        })
        v

  pub on_un_sub_market_data-IsValid :
      (ticker : XtpSpecificTicker) (info : XtpRspInfo) (s : XtpQuotes D)
      → IsValid s
      → IsValid (on_un_sub_market_data ticker info s)
  unfolding on_un_sub_market_data
  on_un_sub_market_data-IsValid ticker info s v =
      if_both IsValid (eqb_ℤ info.error_id (pos 0))
        (record {
          has_cache = λ j h.
              let (e, q) = lookup-erase_inv ticker.ticker j true s.sub_topics h in
              Has-del ticker.ticker j s.kline_builder e (v.has_cache j q);
          has_topic = λ j h.
              let (e, q) = del_inv ticker.ticker j s.kline_builder h in
              Has-erase ticker.ticker j s.sub_topics e (v.has_topic j q);
          within = λ j h.
              let (e, q) = lookup-erase_inv ticker.ticker j h.0 s.topic_exchange h.1 in
              Has-erase ticker.ticker j s.sub_topics e (v.within j (h.0, q));
        })
        v

module _ (F : Double) (mktime : Tm → ℤ) (localtime : ℤ → LocalTime) where
  open F use {D}

  pub on_depth_market_data-IsValid :
      (sec : ℤ) (d : XtpMarketData D) (s : XtpQuotes D)
      → IsValid s
      → IsValid (on_depth_market_data F mktime localtime sec d s).0
  unfolding on_depth_market_data
  on_depth_market_data-IsValid sec d s v =
      let md = convert_market_data F mktime d in
      record {
        has_cache = λ j h.
            Has-update_market_data F localtime sec d.ticker md j s.kline_builder (v.has_cache j h);
        has_topic = λ j h.
            v.has_topic j (update_market_data_inv F localtime sec d.ticker md j s.kline_builder h);
        within = v.within;
      }
