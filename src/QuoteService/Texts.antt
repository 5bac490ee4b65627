-- ===== src/QuoteService/Texts.antt =====
-- The texts that `QuoteService` sends (src/common/quote_service.cpp).
use babeltrader.Common.{
  ℕ, zero, suc, ◌<◌, ◌≤◌, ◌≡◌, refl, ap, ◌∙◌, Bytes, codes, List, [], ◌∷◌, ◌++◌, Option, some,
  length, get_elem?-total, arith, ◌⊎◌, inl, inr,
}
use mathlib.Core.Option
use babeltrader.Common.Double.{Double}
use babeltrader.Structs.{Quote, PriceVol, MarketData, OrderBook, OrderBookLevel2, Kline}
use babeltrader.Enum.{
  g_markets, g_exchanges, g_product_types, g_quote_info1, g_quote_info2, g_order_dir, g_order_type,
  g_orderbookl2_action, g_orderbookl2_trade_flag,
}
use babeltrader.Json.{Event}
use babeltrader.Json.Grammar.{Frame, before_key, in_array, parse, parse-append}
use babeltrader.Converter.Quotes.{
  joined, named, serialize_quote_begin, serialize_market_data, serialize_order_book,
  serialize_kline, serialize_level2, level, levels, all_levels,
}

module _ (F : Double) where
  open F use {D}

  -- Members of an object that is open with no member yet.
  abbrev pub AreMembers : Option (List (Event D)) → Type 0
  AreMembers o =
      (es : List (Event D)) × (o ≡ some es)
      × ((fs : List Frame)
          → (ks : List Bytes) × (parse es (before_key [] ∷ fs) ≡ some (before_key ks ∷ fs)))

  -- The enumerators of a quote are entries of their tables.
  abbrev pub IsQuote : Quote → Type 0
  IsQuote q =
      (q.market < length g_markets)
      × (q.exchange < length g_exchanges)
      × (q.type < length g_product_types)
      × (q.info1 < length g_quote_info1)
      × (q.info2 < length g_quote_info2)

  abbrev pub begun : List Frame → List Frame
  begun fs =
      before_key []
      ∷ before_key (
          codes "data"
          ∷ codes "info2"
          ∷ codes "info1"
          ∷ codes "contract_id"
          ∷ codes "contract"
          ∷ codes "symbol"
          ∷ codes "type"
          ∷ codes "exchange"
          ∷ codes "market"
          ∷ [])
      ∷ before_key (codes "data" ∷ codes "msg" ∷ [])
      ∷ in_array
      ∷ fs

  pub serialize_quote_begin-total :
      (q : Quote)
      → IsQuote q
      → (es : List (Event D)) × (serialize_quote_begin F q ≡ some es)
        × ((fs : List Frame) → parse es (in_array ∷ fs) ≡ some (begun fs))
  unfolding serialize_quote_begin joined named
  serialize_quote_begin-total q h =
      let (a, ea) = get_elem?-total g_markets q.market h.0 in
      let (b, eb) = get_elem?-total g_exchanges q.exchange h.1 in
      let (c, ec) = get_elem?-total g_product_types q.type h.2 in
      let (d, ed) = get_elem?-total g_quote_info1 q.info1 h.3 in
      let (e, ee) = get_elem?-total g_quote_info2 q.info2 h.4 in
      rw (ea, eb, ec, ed, ee) (_, refl, λ fs. refl)

  levels-total :
      (n : ℕ) (ps : List (PriceVol D))
      → n ≤ length ps
      → (es : List (Event D)) × (levels F n ps ≡ some es)
        × ((fs : List Frame) → parse es (in_array ∷ fs) ≡ some (in_array ∷ fs))
  unfolding levels
  levels-total zero ps h = ([], refl, λ fs. refl)
  levels-total (suc n) [] h = absurd (omega arith)
  levels-total (suc n) (p ∷ ps) h =
      let (es, e, g) = levels-total n ps (omega arith) in
      (_, ap (Option.map (λ (xs : List (Event D)). level F p ++ xs)) e, g)

  all_levels-parse :
      (ps : List (PriceVol D)) (fs : List Frame)
      → parse (all_levels F ps) (in_array ∷ fs) ≡ some (in_array ∷ fs)
  unfolding all_levels
  all_levels-parse [] fs = refl
  all_levels-parse (p ∷ ps) fs = all_levels-parse ps fs

  -- No more levels are announced than the arrays hold.
  abbrev pub IsMarketData : MarketData D → Type 0
  IsMarketData md = (md.bid_ask_len ≤ length md.bids) × (md.bid_ask_len ≤ length md.asks)

  pub serialize_market_data-total :
      (md : MarketData D) → IsMarketData md → AreMembers (serialize_market_data F md)
  unfolding serialize_market_data joined
  serialize_market_data-total md h =
      let (bs, eb, pb) = levels-total md.bid_ask_len md.bids h.0 in
      let (ss, es, ps) = levels-total md.bid_ask_len md.asks h.1 in
      rw (eb, es)
        (_, refl, λ fs. (_, parse-append bs _ _ _ (pb _) ∙ (parse-append ss _ _ _ (ps _) ∙ refl)))

  pub serialize_order_book-members :
      (ob : OrderBook D) → AreMembers (some (serialize_order_book F ob))
  unfolding serialize_order_book
  serialize_order_book-members ob = (
    _,
    refl,
    λ fs. (
      _,
      parse-append (all_levels F ob.bids) _ _ _ (all_levels-parse ob.bids _)
          ∙ (parse-append (all_levels F ob.asks) _ _ _ (all_levels-parse ob.asks _) ∙ refl),
    ),
  )

  pub serialize_kline-members : (k : Kline D) → AreMembers (some (serialize_kline F k))
  unfolding serialize_kline
  serialize_kline-members k = (_, refl, λ fs. (_, refl))

  -- The enumerators that the writer of an action looks up are entries of their tables.
  abbrev pub IsLevel2 : OrderBookLevel2 D → Type 0
  IsLevel2 l =
      (l.action < length g_orderbookl2_action)
      × (l.action ≡ 1
          → (l.entrust.dir < length g_order_dir) × (l.entrust.order_type < length g_order_type))
      × (l.action ≡ 2 → l.trade.trade_flag < length g_orderbookl2_trade_flag)

  below_three : (n : ℕ) → n < 3 → (n ≡ 0) ⊎ ((n ≡ 1) ⊎ (n ≡ 2))
  below_three n h = omega arith

  pub serialize_level2-total :
      (l : OrderBookLevel2 D) → IsLevel2 l → AreMembers (serialize_level2 F l)
  unfolding serialize_level2 joined named
  serialize_level2-total l h = elim (below_three l.action h.0) [
    | inl e ↦ rw e (_, refl, λ fs. (_, refl))
    | inr (inl e) ↦
        let (dir, ed) = get_elem?-total g_order_dir l.entrust.dir (h.1 e).0 in
        let (kind, ek) = get_elem?-total g_order_type l.entrust.order_type (h.1 e).1 in
        rw (e, ed, ek) (_, refl, λ fs. (_, refl))
    | inr (inr e) ↦
        let (flag, ef) = get_elem?-total g_orderbookl2_trade_flag l.trade.trade_flag (h.2 e) in
        rw (e, ef) (_, refl, λ fs. (_, refl))
  ]
