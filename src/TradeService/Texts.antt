-- ===== src/TradeService/Texts.antt =====
-- Every message of `TradeService` is one JSON text (src/common/trade_service.cpp).
use babeltrader.Common.{◌≡◌, refl, ap, List, [], ◌∷◌, ◌++◌, codes, some, length, arith}
use mathlib.Core.Option
use babeltrader.Common.Double.{Double}
use babeltrader.Common.Int.{ℤ}
use babeltrader.Json.{Event, key, start_array}
use babeltrader.Json.Grammar.{Frame, parse, in_array, IsJson, IsJson-middle, entries, parse-entries}
use babeltrader.Structs.{
  Order, OrderStatusNotify, OrderDealNotify, OrderQuery, TradeQuery, PositionQuery,
  TradeAccountQuery, ProductQuery, PositionSummaryType1, PositionSummaryType2, PositionDetailType1,
  TradeAccountType1, TradeAccountType2, ProductType1,
}
use babeltrader.Converter.Orders.{serialize_order, serialize_order_status, serialize_order_deal}
use babeltrader.Converter.Queries.{
  serialize_order_query, serialize_trade_query, serialize_position_query,
  serialize_trade_account_query, serialize_product_query,
}
use babeltrader.Converter.Accounts.{
  serialize_position_summary_type1, serialize_position_summary_type2,
  serialize_position_detail_type1, serialize_trade_account_type1, serialize_trade_account_type2,
  serialize_product_type1,
}
use babeltrader.TradeService.Messages.{
  header, closing, listing, object, status_entry, deal_entry, pair_up, Message, confirm_order,
  order_status, order_deal, orders, trades, positions_type1, position_details_type1,
  trade_accounts_type1, products_type1, positions_type2, trade_accounts_type2, trading_day, written,
  broadcast_confirm_order, broadcast_order_status, broadcast_order_deal, rsp_order_qry,
  rsp_trade_qry, rsp_position_qry_type1, rsp_position_detail_qry_type1, rsp_trade_account_qry_type1,
  rsp_product_qry_type1, rsp_position_qry_type2, rsp_trade_account_qry_type2, rsp_trading_day_qry,
}

module _ (F : Double) where
  open F use {D}

  -- What is open stays open behind an entry of an array.
  abbrev IsEntry : List (Event D) → Type 0
  IsEntry es = (fs : List Frame) → parse es (in_array ∷ fs) ≡ some (in_array ∷ fs)

  status_entry-IsEntry : (p : Order D × OrderStatusNotify D) → IsEntry (status_entry F p)
  unfolding serialize_order serialize_order_status
  status_entry-IsEntry p fs = refl

  deal_entry-IsEntry : (p : Order D × OrderDealNotify D) → IsEntry (deal_entry F p)
  unfolding serialize_order serialize_order_deal
  deal_entry-IsEntry p fs = refl

  position_summary_type1-IsEntry :
      (row : PositionSummaryType1 D) → IsEntry (object F (serialize_position_summary_type1 F row))
  unfolding serialize_position_summary_type1
  position_summary_type1-IsEntry row fs = refl

  position_summary_type2-IsEntry :
      (row : PositionSummaryType2 D) → IsEntry (object F (serialize_position_summary_type2 F row))
  unfolding serialize_position_summary_type2
  position_summary_type2-IsEntry row fs = refl

  position_detail_type1-IsEntry :
      (row : PositionDetailType1 D) → IsEntry (object F (serialize_position_detail_type1 F row))
  unfolding serialize_position_detail_type1
  position_detail_type1-IsEntry row fs = refl

  trade_account_type1-IsEntry :
      (row : TradeAccountType1 D) → IsEntry (object F (serialize_trade_account_type1 F row))
  unfolding serialize_trade_account_type1
  trade_account_type1-IsEntry row fs = refl

  trade_account_type2-IsEntry :
      (row : TradeAccountType2 D) → IsEntry (object F (serialize_trade_account_type2 F row))
  unfolding serialize_trade_account_type2
  trade_account_type2-IsEntry row fs = refl

  product_type1-IsEntry :
      (row : ProductType1 D) → IsEntry (object F (serialize_product_type1 F row))
  unfolding serialize_product_type1
  product_type1-IsEntry row fs = refl

  pair_up-total :
      {A : Type 0} (os : List (Order D)) (xs : List A)
      → length os ≡ length xs
      → (ps : List (Order D × A)) × (pair_up F os xs ≡ some ps)
  unfolding pair_up
  pair_up-total [] xs h = ([], refl)
  pair_up-total (o ∷ os) [] h = absurd (omega arith)
  pair_up-total {A} (o ∷ os) (x ∷ xs) h =
      let (ps, e) = pair_up-total os xs (omega arith) in
      ((o, x) ∷ ps, ap (Option.map (λ (qs : List (Order D × A)). (o, x) ∷ qs)) e)

  rsp_position_qry_type1-IsJson :
      (qry : PositionQuery) (rows : List (PositionSummaryType1 D)) (error_id : ℤ)
      → IsJson (rsp_position_qry_type1 F qry rows error_id)
  unfolding rsp_position_qry_type1 serialize_position_query
  rsp_position_qry_type1-IsJson qry rows error_id =
      IsJson-middle
        (listing F "rsp_qryposition" error_id (serialize_position_query F qry)
          "position_summary_type" "type1")
        (entries
          (λ (row : PositionSummaryType1 D). object F (serialize_position_summary_type1 F row))
          rows)
        (closing F) _ refl
        (parse-entries
          (λ (row : PositionSummaryType1 D). object F (serialize_position_summary_type1 F row)) _
          (λ row. position_summary_type1-IsEntry row _) rows)
        refl

  rsp_position_detail_qry_type1-IsJson :
      (qry : PositionQuery) (rows : List (PositionDetailType1 D)) (error_id : ℤ)
      → IsJson (rsp_position_detail_qry_type1 F qry rows error_id)
  unfolding rsp_position_detail_qry_type1 serialize_position_query
  rsp_position_detail_qry_type1-IsJson qry rows error_id =
      IsJson-middle
        (listing F "rsp_qrypositiondetail" error_id (serialize_position_query F qry)
          "position_detail_type" "type1")
        (entries (λ (row : PositionDetailType1 D). object F (serialize_position_detail_type1 F row))
          rows)
        (closing F) _ refl
        (parse-entries
          (λ (row : PositionDetailType1 D). object F (serialize_position_detail_type1 F row)) _
          (λ row. position_detail_type1-IsEntry row _) rows)
        refl

  rsp_trade_account_qry_type1-IsJson :
      (qry : TradeAccountQuery) (rows : List (TradeAccountType1 D)) (error_id : ℤ)
      → IsJson (rsp_trade_account_qry_type1 F qry rows error_id)
  unfolding rsp_trade_account_qry_type1 serialize_trade_account_query
  rsp_trade_account_qry_type1-IsJson qry rows error_id =
      IsJson-middle
        (listing F "rsp_qrytradeaccount" error_id (serialize_trade_account_query F qry)
          "trade_account_type" "type1")
        (entries (λ (row : TradeAccountType1 D). object F (serialize_trade_account_type1 F row))
          rows)
        (closing F) _ refl
        (parse-entries
          (λ (row : TradeAccountType1 D). object F (serialize_trade_account_type1 F row)) _
          (λ row. trade_account_type1-IsEntry row _) rows)
        refl

  rsp_product_qry_type1-IsJson :
      (qry : ProductQuery) (rows : List (ProductType1 D)) (error_id : ℤ)
      → IsJson (rsp_product_qry_type1 F qry rows error_id)
  unfolding rsp_product_qry_type1 serialize_product_query
  rsp_product_qry_type1-IsJson qry rows error_id =
      IsJson-middle
        (listing F "rsp_qryproduct" error_id (serialize_product_query F qry) "product_type" "type1")
        (entries (λ (row : ProductType1 D). object F (serialize_product_type1 F row)) rows)
        (closing F) _ refl
        (parse-entries (λ (row : ProductType1 D). object F (serialize_product_type1 F row)) _
          (λ row. product_type1-IsEntry row _) rows)
        refl

  rsp_position_qry_type2-IsJson :
      (qry : PositionQuery) (rows : List (PositionSummaryType2 D)) (error_id : ℤ)
      → IsJson (rsp_position_qry_type2 F qry rows error_id)
  unfolding rsp_position_qry_type2 serialize_position_query
  rsp_position_qry_type2-IsJson qry rows error_id =
      IsJson-middle
        (listing F "rsp_qryposition" error_id (serialize_position_query F qry)
          "position_summary_type" "type2")
        (entries
          (λ (row : PositionSummaryType2 D). object F (serialize_position_summary_type2 F row))
          rows)
        (closing F) _ refl
        (parse-entries
          (λ (row : PositionSummaryType2 D). object F (serialize_position_summary_type2 F row)) _
          (λ row. position_summary_type2-IsEntry row _) rows)
        refl

  rsp_trade_account_qry_type2-IsJson :
      (qry : TradeAccountQuery) (rows : List (TradeAccountType2 D)) (error_id : ℤ)
      → IsJson (rsp_trade_account_qry_type2 F qry rows error_id)
  unfolding rsp_trade_account_qry_type2 serialize_trade_account_query
  rsp_trade_account_qry_type2-IsJson qry rows error_id =
      IsJson-middle
        (listing F "rsp_qrytradeaccount" error_id (serialize_trade_account_query F qry)
          "trade_account_type" "type2")
        (entries (λ (row : TradeAccountType2 D). object F (serialize_trade_account_type2 F row))
          rows)
        (closing F) _ refl
        (parse-entries
          (λ (row : TradeAccountType2 D). object F (serialize_trade_account_type2 F row)) _
          (λ row. trade_account_type2-IsEntry row _) rows)
        refl

  rsp_order_qry-IsJson :
      (qry : OrderQuery) (os : List (Order D)) (xs : List (OrderStatusNotify D)) (error_id : ℤ)
      → length os ≡ length xs
      → (es : List (Event D)) × (rsp_order_qry F qry os xs error_id ≡ some es) × IsJson es
  unfolding rsp_order_qry serialize_order_query
  rsp_order_qry-IsJson qry os xs error_id h =
      let (ps, e) = pair_up-total os xs h in
      (
        _,
        ap (Option.map _) e,
        IsJson-middle
            (header F "rsp_qryorder" error_id
              ++ (serialize_order_query F qry ++ (key (codes "data") ∷ start_array ∷ [])))
            (entries (status_entry F) ps) (closing F) _ refl
            (parse-entries (status_entry F) _ (λ p. status_entry-IsEntry p _) ps) refl,
      )

  rsp_trade_qry-IsJson :
      (qry : TradeQuery) (os : List (Order D)) (xs : List (OrderDealNotify D)) (error_id : ℤ)
      → length os ≡ length xs
      → (es : List (Event D)) × (rsp_trade_qry F qry os xs error_id ≡ some es) × IsJson es
  unfolding rsp_trade_qry serialize_trade_query
  rsp_trade_qry-IsJson qry os xs error_id h =
      let (ps, e) = pair_up-total os xs h in
      (
        _,
        ap (Option.map _) e,
        IsJson-middle
            (header F "rsp_qrytrade" error_id
              ++ (serialize_trade_query F qry ++ (key (codes "data") ∷ start_array ∷ [])))
            (entries (deal_entry F) ps) (closing F) _ refl
            (parse-entries (deal_entry F) _ (λ p. deal_entry-IsEntry p _) ps) refl,
      )

  -- The vectors of an answer about orders or trades have one length.
  abbrev pub IsPaired : Message F → Type 0
  IsPaired (orders qry os ss error_id) = length os ≡ length ss
  IsPaired (trades qry os ds error_id) = length os ≡ length ds
  IsPaired _ = Unit {0}

  abbrev pub SpellsJson : Message F → Type 0
  SpellsJson m = (es : List (Event D)) × (written F m ≡ some es) × IsJson es

  -- Every message that the service sends, the answers about orders and trades with as many
  -- companions as orders, is written to its end, and its writer calls spell exactly one JSON text:
  -- brackets match, a key stands before every member's value, and no object has the same key twice.
  pub written-IsJson : (m : Message F) → IsPaired m → SpellsJson m
  unfolding written broadcast_confirm_order broadcast_order_status broadcast_order_deal
      rsp_trading_day_qry serialize_order serialize_order_status serialize_order_deal
  written-IsJson (confirm_order o n) h = (_, refl, refl)
  written-IsJson (order_status o x n) h = (_, refl, refl)
  written-IsJson (order_deal o x) h = (_, refl, refl)
  written-IsJson (orders q os xs n) h = rsp_order_qry-IsJson q os xs n h
  written-IsJson (trades q os xs n) h = rsp_trade_qry-IsJson q os xs n h
  written-IsJson (positions_type1 q rows n) h = (_, refl, rsp_position_qry_type1-IsJson q rows n)
  written-IsJson (position_details_type1 q rows n) h =
      (_, refl, rsp_position_detail_qry_type1-IsJson q rows n)
  written-IsJson (trade_accounts_type1 q rows n) h =
      (_, refl, rsp_trade_account_qry_type1-IsJson q rows n)
  written-IsJson (products_type1 q rows n) h = (_, refl, rsp_product_qry_type1-IsJson q rows n)
  written-IsJson (positions_type2 q rows n) h = (_, refl, rsp_position_qry_type2-IsJson q rows n)
  written-IsJson (trade_accounts_type2 q rows n) h =
      (_, refl, rsp_trade_account_qry_type2-IsJson q rows n)
  written-IsJson (trading_day i m d) h = (_, refl, refl)
