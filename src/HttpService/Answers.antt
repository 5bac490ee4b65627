-- ===== src/HttpService/Answers.antt =====
-- What the HTTP service answers (src/common/http_service.cpp).
use babeltrader.Common.{
  ℕ, suc, ◌<◌, ◌≡◌, refl, ◌∙◌, Bytes, Bool, false, ltb, List, [], ◌∷◌, Option, none, some, length,
  get_elem?-total, Bool-cases, ◌↔◌, ◌⊎◌, inl, inr, All, append-nil,
}
use mathlib.Core.Path.{subst}
use babeltrader.Common.Int.{pos}
use babeltrader.Common.Double.{Double}
use babeltrader.Structs.{Quote}
use babeltrader.Enum.{g_markets, g_exchanges, g_product_types, g_quote_info1}
use babeltrader.Json.{Event}
use babeltrader.Json.Grammar.{Frame, in_array, parse, parse-append, IsJson}
use babeltrader.Json.Reader.{Reader}
use babeltrader.Converter.Quotes.{joined, named}
use babeltrader.HttpService.{
  Response, ends, Answers, answered, on_parsed, parse_subunsub_msg, rest_return, on_rest_subunsub,
  topic_entry, topic_entries, get_subtopics,
}

module _ (F : Double) (R : Reader F) where
  open F use {D}
  open R use {V, is_object}

  -- The topic is accepted with the error 0.
  abbrev pub Accepts : List (Response D) × Option Quote → Type 0
  Accepts r = (msg : Quote) × (r.1 ≡ some msg) × (r.0 ≡ ends (rest_return F R (pos 0) []) ∷ [])

  -- It is refused with another error and a text.
  abbrev pub Refuses : List (Response D) × Option Quote → Type 0
  Refuses r =
      (e : ℕ) × (text : Bytes) × (r.1 ≡ none)
      × (r.0 ≡ ends (rest_return F R (pos (suc e)) text) ∷ [])

  -- A document that is no object.
  abbrev pub IsNoObject : Bytes ⊎ V → Type 0
  IsNoObject (inl what) = ⊥
  IsNoObject (inr d) = is_object d ≡ false

  -- A document that aborts the program.
  abbrev pub IsFatal : (Bytes ⊎ V) → ℕ → Type 0
  IsFatal parsed len = (ltb 4096 len ≡ false) × IsNoObject parsed

  -- Where the program goes on, it is one of the two.
  abbrev pub IsAnswered : Option (Answers F R) → Type 0
  IsAnswered none = Unit {0}
  IsAnswered (some r) = Accepts r ⊎ Refuses r

  abbrev Decides : Option (Answers F R) → (Bytes ⊎ V) → ℕ → Type 0
  Decides none parsed len = IsFatal parsed len
  Decides (some r) parsed len = Accepts r ⊎ Refuses r

  answered-decided : (o : Bytes ⊎ Quote) → Accepts (answered F R o) ⊎ Refuses (answered F R o)
  answered-decided (inl what) = inr (_, _, refl, refl)
  answered-decided (inr msg) = inl (msg, refl, refl)

  on_parsed-Decides :
      (left_over : Bytes) (parsed : Bytes ⊎ V) (len : ℕ)
      → ltb 4096 len ≡ false
      → Decides (on_parsed F R left_over parsed) parsed len
  unfolding parse_subunsub_msg
  on_parsed-Decides left_over (inl what) len h = inr (_, _, refl, refl)
  on_parsed-Decides left_over (inr d) len h = elim (Bool-cases (is_object d)) [
    | inl o ↦ rw (o, parse_subunsub_msg) (answered-decided _)
    | inr o ↦ rw (o, parse_subunsub_msg) (h, o)
  ]

  on_rest_subunsub-Decides :
      (left_over : Bytes) (parsed : Bytes ⊎ V) (len : ℕ)
      → Decides (on_rest_subunsub F R left_over parsed len 0) parsed len
  unfolding on_rest_subunsub
  on_rest_subunsub-Decides left_over parsed len = elim (Bool-cases (ltb 4096 len)) [
    | inl e ↦ rw (e, on_rest_subunsub) (inr (_, _, refl, refl))
    | inr e ↦ rw (e, on_rest_subunsub) (on_parsed-Decides left_over parsed len e)
  ]

  on_rest_subunsub-fatal :
      (left_over : Bytes) (parsed : Bytes ⊎ V) (len : ℕ)
      → IsFatal parsed len
      → on_rest_subunsub F R left_over parsed len 0 ≡ none
  unfolding on_rest_subunsub parse_subunsub_msg
  on_rest_subunsub-fatal left_over (inl what) len h = absurd h.1
  on_rest_subunsub-fatal left_over (inr d) len h =
      rw (h.0, h.1, on_rest_subunsub, parse_subunsub_msg) refl

  Decides-IsAnswered :
      (o : Option (Answers F R)) (parsed : Bytes ⊎ V) (len : ℕ)
      → Decides o parsed len
      → IsAnswered o
  Decides-IsAnswered none parsed len h = tt
  Decides-IsAnswered (some r) parsed len h = h

  -- A request to subscribe or to unsubscribe that has come in whole aborts the program exactly if it has
  -- at most 4096 bytes and is JSON of another kind than an object. Every other gets exactly one answer:
  -- with the error 0 and its topic passed on, or with another error and nothing passed on.
  pub on_rest_subunsub-decides :
      (left_over : Bytes) (parsed : Bytes ⊎ V) (len : ℕ)
      → ((on_rest_subunsub F R left_over parsed len 0 ≡ none) ↔ IsFatal parsed len)
        × IsAnswered (on_rest_subunsub F R left_over parsed len 0)
  on_rest_subunsub-decides left_over parsed len =
      let decided = on_rest_subunsub-Decides left_over parsed len in
      (
        (
          λ e. subst (λ o. Decides o parsed len) e decided,
          on_rest_subunsub-fatal left_over parsed len,
        ),
        Decides-IsAnswered _ parsed len decided,
      )

  -- The enumerators of a topic are entries of the tables that `GetSubtopics` uses, the last one also of
  -- the same as the one before it.
  abbrev pub IsTopic : Quote × Bool → Type 0
  IsTopic (q, subed) =
      (q.market < length g_markets)
      × (q.exchange < length g_exchanges)
      × (q.type < length g_product_types)
      × (q.info1 < length g_quote_info1)
      × (q.info2 < length g_quote_info1)

  abbrev IsEntries : Option (List (Event D)) → Type 0
  IsEntries o =
      (es : List (Event D)) × (o ≡ some es)
      × ((fs : List Frame) → parse es (in_array ∷ fs) ≡ some (in_array ∷ fs))

  topic_entry-IsEntries : (t : Quote × Bool) → IsTopic t → IsEntries (topic_entry F R t)
  unfolding topic_entry joined named
  topic_entry-IsEntries (q, subed) h =
      let (a, ea) = get_elem?-total g_markets q.market h.0 in
      let (b, eb) = get_elem?-total g_exchanges q.exchange h.1 in
      let (c, ec) = get_elem?-total g_product_types q.type h.2 in
      let (d, ed) = get_elem?-total g_quote_info1 q.info1 h.3 in
      let (e, ee) = get_elem?-total g_quote_info1 q.info2 h.4 in
      rw (ea, eb, ec, ed, ee) (_, refl, λ fs. refl)

  topic_entries-IsEntries :
      (ts : List (Quote × Bool)) → All IsTopic ts → IsEntries (topic_entries F R ts)
  unfolding topic_entries joined
  topic_entries-IsEntries [] h = ([], refl, λ fs. refl)
  topic_entries-IsEntries (t ∷ ts) h =
      let (xs, ex, px) = topic_entry-IsEntries t h.0 in
      let (ys, ey, py) = topic_entries-IsEntries ts h.1 in
      rw (ex, ey, append-nil ys) (_, refl, λ fs. parse-append xs ys _ _ (px fs) ∙ py fs)

  -- The list of topics is written to its end and is one JSON text, if the topics' enumerators are
  -- entries of the tables.
  pub get_subtopics-IsJson :
      (ts : List (Quote × Bool))
      → All IsTopic ts
      → (es : List (Event D)) × (get_subtopics F R ts ≡ some es) × IsJson es
  unfolding get_subtopics
  get_subtopics-IsJson ts h =
      let (xs, ex, px) = topic_entries-IsEntries ts h in
      rw (ex, get_subtopics) (_, refl, parse-append xs _ _ _ (px _) ∙ refl)
