-- ===== src/XtpQuotes/Exchanges.antt =====
-- The map of exchanges of `XTPQuoteHandler` has entries for topics only
-- (src/xtp-quotes/xtp_quote_handler.cpp).
use babeltrader.Common.{
  ℕ, ◌≡◌, refl, Bytes, Bool, true, false, bytes_eq, if_both, [], ◌∷◌, Option, none, some, inl, inr,
}
use babeltrader.Common.StdMap.{StdMap, bytes_key, lookup, Has, lookup-insert_inv}
use babeltrader.XtpQuotes.Topics.{XtpQuoteConf, put_missing, touched, list_topics, sub_topics_loop}

-- Every topic that has an exchange is a topic.
abbrev pub Within : StdMap Bytes ℕ → StdMap Bytes Bool → Type 0
Within m topics = (j : Bytes) → Has j m → Has j topics

Has-cons :
    (k j : Bytes) (flag : Bool) (topics : StdMap Bytes Bool)
    → Has j topics
    → Has j ((k, flag) ∷ topics)
unfolding lookup
Has-cons k j flag topics h =
    if_both (λ (o : Option Bool). (w : Bool) × (o ≡ some w)) (bytes_eq k j) (flag, refl) h

put_missing-Within :
    (k : Bytes) (found : Option ℕ) (m : StdMap Bytes ℕ) (topics : StdMap Bytes Bool)
    → Has k topics
    → Within m topics
    → Within (put_missing k found m) topics
put_missing-Within k none m topics known within j h = elim (lookup-insert_inv k j 0 h.0 m h.1) [
  | inl q ↦ rw (← q) known
  | inr q ↦ within j (h.0, q)
]
put_missing-Within k (some exchange) m topics known within j h = within j h

pub touched-Within :
    (k : Bytes) (m : StdMap Bytes ℕ) (topics : StdMap Bytes Bool)
    → Has k topics
    → Within m topics
    → Within (touched k m) topics
touched-Within k m topics known within = put_missing-Within k (lookup k m) m topics known within

Has-first : (k : Bytes) (flag : Bool) (topics : StdMap Bytes Bool) → Has k ((k, flag) ∷ topics)
unfolding lookup
Has-first k flag topics = (flag, rw ((bytes_key.beq_iff k k).1 refl) refl)

-- The loops ask the map of exchanges for topics that are there.
abbrev pub Part : StdMap Bytes Bool → StdMap Bytes Bool → Type 0
Part topics all = (j : Bytes) → Has j topics → Has j all

module _ (conf : XtpQuoteConf) (all : StdMap Bytes Bool) where
  pub list_topics-Within :
      (topics : StdMap Bytes Bool) (m : StdMap Bytes ℕ)
      → Part topics all
      → Within m all
      → Within (list_topics conf topics m).0 all
  list_topics-Within [] m part within = within
  list_topics-Within ((k, flag) ∷ topics) m part within =
      list_topics-Within topics (touched k m) (λ j h. part j (Has-cons k j flag topics h))
        (touched-Within k m all (part k (Has-first k flag topics)) within)

  pub sub_topics_loop-Within :
      (topics : StdMap Bytes Bool) (m : StdMap Bytes ℕ)
      → Part topics all
      → Within m all
      → Within (sub_topics_loop conf topics m).0 all
  unfolding sub_topics_loop
  sub_topics_loop-Within [] m part within = within
  sub_topics_loop-Within ((k, true) ∷ topics) m part within =
      sub_topics_loop-Within topics m (λ j h. part j (Has-cons k j true topics h)) within
  sub_topics_loop-Within ((k, false) ∷ topics) m part within =
      sub_topics_loop-Within topics (touched k m) (λ j h. part j (Has-cons k j false topics h))
        (touched-Within k m all (part k (Has-first k false topics)) within)
