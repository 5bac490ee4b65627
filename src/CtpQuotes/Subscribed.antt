-- ===== src/CtpQuotes/Subscribed.antt =====
-- How the subscriptions of `CTPQuoteHandler` and its bars hang together
-- (src/ctp-quotes/ctp_quote_handler.cpp).
use mathlib.Core.Bool.{false≢true}
use mathlib.Core.Option.{some-injective}
use babeltrader.Common.{
  ℕ, ◌≡◌, refl, sym, ◌∙◌, Bytes, Bool, true, false, bytes_eq, if_both, List, [], ◌∷◌, Option, some,
  Option-cases, Bool-cases, inl, inr,
}
use babeltrader.Common.Int.{ℤ, pos, eqb_ℤ}
use babeltrader.Common.Double.{Double}
use babeltrader.Common.StdMap.{
  StdMap, none-ne-some, bytes_key, lookup, insert, lookup-insert, Has, Has-insert, Has-insert_self,
  Has-erase, lookup-insert_inv, lookup-erase_inv,
}
use babeltrader.Structs.{Quote}
use babeltrader.Utils.{Tm}
use babeltrader.Kline.{KlineCache, LocalTime}
use babeltrader.Kline.Keys.{
  Has-add, Has-add_self, add_inv, Has-del, del_inv, Has-update_market_data, update_market_data_inv,
}
use babeltrader.Json.{Event}
use babeltrader.QuoteService.{QuoteBlock}
use mathlib.Core.Path.{subst}
use babeltrader.CtpQuotes.Depth.{
  DepthMarketData, convert_quote, convert_market_data, get_update_time_ms,
}
use babeltrader.CtpQuotes.Connection.{CtpQuoteConf, on_front_connected, init_action_day, do_login}
use babeltrader.CtpQuotes.{
  CtpQuotes, Ticked, instrument_of, is_abnormal, load_topics, sub_topic, unsub_topic, all_down,
  on_front_disconnected, on_rsp_sub_market_data, on_rsp_unsub_market_data, on_rtn_depth_market_data,
}

-- A flag that is up stays up only where nothing has taken it down.
pub insert-false_up :
    (k j : Bytes) (m : StdMap Bytes Bool)
    → lookup j (insert k false m) ≡ some true
    → lookup j m ≡ some true
insert-false_up k j m h = elim (Bool-cases (bytes_eq k j)) [
  | inl e ↦ absurd (false≢true (some-injective false true (sym (rw (lookup-insert, e) refl) ∙ h)))
  | inr e ↦ sym (rw (lookup-insert, e) refl) ∙ h
]

pub all_down-Has : (j : Bytes) (m : StdMap Bytes Bool) → Has j m → Has j (all_down m)
unfolding lookup
all_down-Has j [] h = h
all_down-Has j ((k, v) ∷ m) h = elim (Bool-cases (bytes_eq k j)) [
  | inl e ↦ rw e (false, refl)
  | inr e ↦
      let found : lookup j m ≡ some h.0 = sym (rw e refl) ∙ h.1 in
      rw e (all_down-Has j m (h.0, found))
]

pub all_down-up : (j : Bytes) (m : StdMap Bytes Bool) → lookup j (all_down m) ≡ some true → ⊥
unfolding lookup
all_down-up j [] h = none-ne-some true h
all_down-up j ((k, v) ∷ m) h = elim (Bool-cases (bytes_eq k j)) [
  | inl e ↦ false≢true (some-injective false true (sym (rw e refl) ∙ h))
  | inr e ↦ all_down-up j m (sym (rw e refl) ∙ h)
]

module _ (F : Double) (atoi : Bytes → ℕ) (mktime : Tm → ℤ) (localtime : ℤ → LocalTime) where
  open F use {D}

  -- One call of the handler, from the services or from the interface.
  pub data Step (s : CtpQuotes D) : CtpQuotes D → Type 0 where
    requests : (left_over : Bytes) (msg : Quote) → Step s (sub_topic left_over msg s).0
    gives_up : (left_over : Bytes) (msg : Quote) → Step s (unsub_topic left_over msg s).0
    connects :
        (print print_two : ℤ → Bytes) (gmtime : ℤ → Tm) (conf : CtpQuoteConf) (now : ℤ)
        → Step s (on_front_connected print print_two gmtime conf now s).0
    loses_connection : Step s (on_front_disconnected s)
    is_answered :
        (uninit : KlineCache D) (instrument : Bytes) (error_id : ℤ)
        → Step s (on_rsp_sub_market_data uninit instrument error_id s)
    is_released :
        (instrument : Bytes) (error_id : ℤ)
        → Step s (on_rsp_unsub_market_data instrument error_id s)
    receives :
        (sec : ℤ) (d : DepthMarketData D) (t : CtpQuotes D)
        (out : List (QuoteBlock D) × Option (List (Event D)))
        → on_rtn_depth_market_data F atoi mktime localtime sec d s ≡ some (t, out)
        → Step s t

  -- The constructor; the arrays of the days are not set.
  abbrev pub fresh : Bytes → Bytes → CtpQuotes D
  fresh action_day next_action_day = record {
    req_id = 1;
    sub_topics = [];
    kline_builder = [];
    action_day = action_day;
    next_action_day = next_action_day;
  }

  -- What the handler comes to, from its members as `run` sets them up.
  pub data Reach (topics : List Bytes) (action_day next_action_day : Bytes)
      : CtpQuotes D → Type 0 where
    runs :
        Reach topics action_day next_action_day
          (load_topics topics (fresh action_day next_action_day))
    later :
        {s t : CtpQuotes D}
        → Reach topics action_day next_action_day s
        → Step s t
        → Reach topics action_day next_action_day t

  -- A subscribed topic has a cache for its bars, and only topics have one.
  pub record IsValid (s : CtpQuotes D) : Type 0 where
    pub has_cache : (k : Bytes) → lookup k s.sub_topics ≡ some true → Has k s.kline_builder
    pub has_topic :
        (k : Bytes) (c : KlineCache D) → lookup k s.kline_builder ≡ some c → Has k s.sub_topics

  insert-false-IsValid :
      (k : Bytes) (s : CtpQuotes D)
      → IsValid s
      → IsValid (record s { sub_topics = insert k false s.sub_topics })
  insert-false-IsValid k s v = record {
    has_cache = λ j h. v.has_cache j (insert-false_up k j s.sub_topics h);
    has_topic = λ j c h. Has-insert k j false s.sub_topics (v.has_topic j c h);
  }

  load_topics-IsValid :
      (topics : List Bytes) (s : CtpQuotes D) → IsValid s → IsValid (load_topics topics s)
  unfolding load_topics
  load_topics-IsValid [] s v = v
  load_topics-IsValid (topic ∷ topics) s v =
      load_topics-IsValid topics _ (insert-false-IsValid topic s v)

  sub_topic-IsValid :
      (left_over : Bytes) (msg : Quote) (s : CtpQuotes D)
      → IsValid s
      → IsValid (sub_topic left_over msg s).0
  unfolding sub_topic
  sub_topic-IsValid left_over msg s v =
      elim (Option-cases (lookup (instrument_of msg) s.sub_topics)) [
        | inl e ↦ rw (e, sub_topic) (insert-false-IsValid (instrument_of msg) s v)
        | inr (true, e) ↦ rw (e, sub_topic) v
        | inr (false, e) ↦ rw (e, sub_topic) (insert-false-IsValid (instrument_of msg) s v)
      ]

  unsub_topic-IsValid :
      (left_over : Bytes) (msg : Quote) (s : CtpQuotes D)
      → IsValid s
      → IsValid (unsub_topic left_over msg s).0
  unfolding unsub_topic
  unsub_topic-IsValid left_over msg s v =
      elim (Option-cases (lookup (instrument_of msg) s.sub_topics)) [
        | inl e ↦ rw (e, unsub_topic) v
        | inr (flag, e) ↦ rw (e, unsub_topic) v
      ]

  on_front_connected-IsValid :
      (print print_two : ℤ → Bytes) (gmtime : ℤ → Tm) (conf : CtpQuoteConf) (now : ℤ)
      (s : CtpQuotes D)
      → IsValid s
      → IsValid (on_front_connected print print_two gmtime conf now s).0
  unfolding on_front_connected init_action_day do_login
  on_front_connected-IsValid print print_two gmtime conf now s v = record {
    has_cache = v.has_cache;
    has_topic = v.has_topic;
  }

  on_front_disconnected-IsValid : (s : CtpQuotes D) → IsValid s → IsValid (on_front_disconnected s)
  unfolding on_front_disconnected
  on_front_disconnected-IsValid s v = record {
    has_cache = λ j h. absurd (all_down-up j s.sub_topics h);
    has_topic = λ j c h. all_down-Has j s.sub_topics (v.has_topic j c h);
  }

  on_rsp_sub_market_data-IsValid :
      (uninit : KlineCache D) (instrument : Bytes) (error_id : ℤ) (s : CtpQuotes D)
      → IsValid s
      → IsValid (on_rsp_sub_market_data uninit instrument error_id s)
  unfolding on_rsp_sub_market_data
  on_rsp_sub_market_data-IsValid uninit instrument error_id s v =
      if_both IsValid (eqb_ℤ error_id (pos 0))
        (record {
          has_cache = λ j h. elim (lookup-insert_inv instrument j true true s.sub_topics h) [
            | inl q ↦ rw (← q) (Has-add_self uninit instrument s.kline_builder)
            | inr q ↦ Has-add uninit instrument j s.kline_builder (v.has_cache j q)
          ];
          has_topic = λ j c h. elim (add_inv uninit instrument j s.kline_builder (c, h)) [
            | inl q ↦ rw (← q) (Has-insert_self instrument true s.sub_topics)
            | inr q ↦ Has-insert instrument j true s.sub_topics (v.has_topic j q.0 q.1)
          ];
        })
        v

  on_rsp_unsub_market_data-IsValid :
      (instrument : Bytes) (error_id : ℤ) (s : CtpQuotes D)
      → IsValid s
      → IsValid (on_rsp_unsub_market_data instrument error_id s)
  unfolding on_rsp_unsub_market_data
  on_rsp_unsub_market_data-IsValid instrument error_id s v =
      if_both IsValid (eqb_ℤ error_id (pos 0))
        (record {
          has_cache = λ j h.
              let (e, q) = lookup-erase_inv instrument j true s.sub_topics h in
              Has-del instrument j s.kline_builder e (v.has_cache j q);
          has_topic = λ j c h.
              let (e, (b, q)) = del_inv instrument j s.kline_builder (c, h) in
              Has-erase instrument j s.sub_topics e (v.has_topic j b q);
        })
        v

  on_rtn_depth_market_data-IsValid :
      (sec : ℤ) (d : DepthMarketData D) (s t : CtpQuotes D)
      (out : List (QuoteBlock D) × Option (List (Event D)))
      → on_rtn_depth_market_data F atoi mktime localtime sec d s ≡ some (t, out)
      → IsValid s
      → IsValid t
  unfolding on_rtn_depth_market_data convert_market_data
  on_rtn_depth_market_data-IsValid sec d s t out h v = elim (Option-cases (convert_quote F d)) [
    | inl e ↦ absurd (none-ne-some (t, out) (rw (e, on_rtn_depth_market_data) at h))
    | inr (q, e) ↦
        subst (λ (r : Ticked F atoi mktime localtime). IsValid r.0)
          (some-injective _ (t, out) (rw (e, on_rtn_depth_market_data) at h))
          (if_both (λ (r : Ticked F atoi mktime localtime). IsValid r.0)
            (is_abnormal sec (get_update_time_ms atoi mktime s.action_day s.next_action_day d)) v
            (record {
              has_cache = λ j g.
                  Has-update_market_data F localtime sec d.instrument_id _ j s.kline_builder
                    (v.has_cache j g);
              has_topic = λ j c g.
                  let (b, q') =
                    update_market_data_inv F localtime sec d.instrument_id _ j s.kline_builder
                      (c, g) in
                  v.has_topic j b q';
            }))
  ]

  Step-IsValid : (s t : CtpQuotes D) → Step s t → IsValid s → IsValid t
  Step-IsValid s t (requests left_over msg) v = sub_topic-IsValid left_over msg s v
  Step-IsValid s t (gives_up left_over msg) v = unsub_topic-IsValid left_over msg s v
  Step-IsValid s t (connects print print_two gmtime conf now) v =
      on_front_connected-IsValid print print_two gmtime conf now s v
  Step-IsValid s t loses_connection v = on_front_disconnected-IsValid s v
  Step-IsValid s t (is_answered uninit instrument error_id) v =
      on_rsp_sub_market_data-IsValid uninit instrument error_id s v
  Step-IsValid s t (is_released instrument error_id) v =
      on_rsp_unsub_market_data-IsValid instrument error_id s v
  Step-IsValid s t (receives sec d _ out h) v = on_rtn_depth_market_data-IsValid sec d s t out h v

  -- Whatever calls have come in since `run`, in whatever order: a topic that counts as subscribed has
  -- a cache for its bars, and every instrument with a cache is a topic that is
  -- still there.
  pub Reach-IsValid :
      (topics : List Bytes) (action_day next_action_day : Bytes) (s : CtpQuotes D)
      → Reach topics action_day next_action_day s
      → IsValid s
  unfolding lookup
  Reach-IsValid topics action_day next_action_day s runs =
      load_topics-IsValid topics (fresh action_day next_action_day) (record {
        has_cache = λ j h. absurd (none-ne-some true h);
        has_topic = λ j c h. absurd (none-ne-some c h);
      })
  Reach-IsValid topics action_day next_action_day s (later {s = r} h st) =
      Step-IsValid r s st (Reach-IsValid topics action_day next_action_day r h)
