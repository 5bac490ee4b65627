-- ===== src/CtpTrade/Querying/Rows.antt =====
-- The answers to queries as the interface gives them: any number of rows, and then the last call, with
-- a row or without one (src/ctp-trade/ctp_trade_handler.cpp), for each kind of query at once.
use babeltrader.Common.{
  ℕ, ◌≡◌, refl, sym, ◌∙◌, ap, Bool, true, false, List, [], ◌∷◌, ◌++◌, append_assoc, append-nil,
  Option, none, some,
}
use mathlib.Core.List.{map}
use babeltrader.Common.Int.{ℤ, pos}
use babeltrader.Common.Double.{Double}
use babeltrader.Common.StdMap.{
  StdMap, nat_key, lookup, erase, lookup-insert_self, lookup-erase_self,
}
use babeltrader.QueryCache.{
  get_and_clear_cache_qry_order, get_and_clear_cache_qry_trade, get_and_clean_cache_qry_position,
  get_and_clean_cache_qry_position_detail, get_and_clean_cache_qry_trade_account,
  get_and_clean_cache_qry_product,
}
use babeltrader.TradeService.Messages.{
  Message, orders, trades, positions_type1, position_details_type1, trade_accounts_type1,
  products_type1,
}
use babeltrader.CtpTrade.Logs.Texts
use babeltrader.CtpTrade.Logs.Texts.{Log}
use babeltrader.CtpTrade.Fields.Orders.{OrderField, TradeField}
use babeltrader.CtpTrade.Fields.Positions.{InvestorPositionField, InvestorPositionDetailField}
use babeltrader.CtpTrade.Fields.Accounts.{TradingAccountField, ProductField, InstrumentField}
use babeltrader.CtpTrade.Fields.Session.{RspInfoField}
use babeltrader.CtpTrade.Handler.{
  CtpTradeConf, Libc, CtpTradeHandler, log, respond, Run, returns, throws, exits, undefined,
}
use babeltrader.CtpTrade.Answered.{
  new_order, convert_rtn_order_ctp2common, rtn_order_status, convert_rtn_trade_ctp2common,
  rtn_trade_deal,
}
use babeltrader.CtpTrade.Answered.Positions.{
  convert_position_ctp2common, convert_position_detail_ctp2common, convert_trade_account_ctp2common,
  convert_product_ctp2common, convert_instrument_ctp2common,
}
use babeltrader.CtpTrade.Querying.Answers.{
  rows_at, row_list, pushed, error_of, on_rsp_qry_order, on_rsp_qry_trade,
  on_rsp_qry_investor_position, on_rsp_qry_investor_position_detail, on_rsp_qry_trading_account,
  on_rsp_qry_product, on_rsp_qry_instrument, on_row,
}
use babeltrader.CtpTrade.Querying.Kinds.{
  RowKind, order_rows, trade_rows, position_rows, position_detail_rows, trade_account_rows,
  product_rows, instrument_rows, Row, Wanted, wanted, rows_of, store, rows_of-store,
  store_qry_cache,
}

module _ (F : Double) (conf : CtpTradeConf) (libc : Libc) where
  open F use {D, to_int}

  abbrev pub on_rsp_qry :
      (k : RowKind) → Option (Row D k) → Option RspInfoField → ℕ → Bool → CtpTradeHandler D → Run F
  on_rsp_qry order_rows = on_rsp_qry_order F conf libc
  on_rsp_qry trade_rows = on_rsp_qry_trade F conf libc
  on_rsp_qry position_rows = on_rsp_qry_investor_position F conf libc
  on_rsp_qry position_detail_rows = on_rsp_qry_investor_position_detail F conf libc
  on_rsp_qry trade_account_rows = on_rsp_qry_trading_account F conf libc
  on_rsp_qry product_rows = on_rsp_qry_product F conf libc
  on_rsp_qry instrument_rows = on_rsp_qry_instrument F conf libc

  abbrev pub log_of : (k : RowKind) → Option (Row D k) → Option RspInfoField → ℤ → Bool → Log D
  log_of order_rows = Texts.rsp_order_query
  log_of trade_rows = Texts.rsp_trade_query
  log_of position_rows = Texts.rsp_position_query
  log_of position_detail_rows = Texts.rsp_position_detail_query
  log_of trade_account_rows = Texts.rsp_trading_account_query
  log_of product_rows = Texts.rsp_product_query
  log_of instrument_rows = Texts.rsp_instrument_query to_int

  -- The message that answers a query with rows.
  abbrev pub answer_of : (k : RowKind) → Wanted k → List (Row D k) → ℤ → Message F
  answer_of order_rows qry rows error_id =
      orders qry
        (map (λ (row : OrderField D). convert_rtn_order_ctp2common F libc row (new_order F libc))
          rows)
        (map (λ (row : OrderField D). rtn_order_status F libc row) rows) error_id
  answer_of trade_rows qry rows error_id =
      trades qry
        (map (λ (row : TradeField D). convert_rtn_trade_ctp2common F libc row (new_order F libc))
          rows)
        (map (λ (row : TradeField D). rtn_trade_deal F libc row) rows) error_id
  answer_of position_rows qry rows error_id =
      positions_type1 qry
        (map (λ (row : InvestorPositionField D). convert_position_ctp2common F row) rows) error_id
  answer_of position_detail_rows qry rows error_id =
      position_details_type1 qry
        (map (λ (row : InvestorPositionDetailField D). convert_position_detail_ctp2common F row)
          rows)
        error_id
  answer_of trade_account_rows qry rows error_id =
      trade_accounts_type1 qry
        (map (λ (row : TradingAccountField D). convert_trade_account_ctp2common F row) rows)
        error_id
  answer_of product_rows qry rows error_id =
      products_type1 qry
        (map (λ (row : ProductField D). convert_product_ctp2common F conf row) rows) error_id
  answer_of instrument_rows qry rows error_id =
      products_type1 qry
        (map (λ (row : InstrumentField D). convert_instrument_ctp2common F conf row) rows) error_id

  abbrev handler_of : CtpTradeHandler D → Run F → CtpTradeHandler D
  handler_of s (returns t calls) = t
  handler_of s (throws text t calls) = t
  handler_of s (exits calls) = s
  handler_of s undefined = s

  -- The handler behind calls with rows none of which is the last.
  abbrev pub told :
      (k : RowKind)
      → ℕ
      → List (Row D k × Option RspInfoField)
      → CtpTradeHandler D
      → CtpTradeHandler D
  told k id [] s = s
  told k id ((row, info) ∷ rows) s =
      told k id rows (handler_of s (on_rsp_qry k (some row) info id false s))

  on_rsp_qry-more :
      (k : RowKind) (row : Row D k) (info : Option RspInfoField) (id : ℕ) (s : CtpTradeHandler D)
      → handler_of s (on_rsp_qry k (some row) info id false s)
        ≡ store k (pushed id (some row) (rows_of k s)) s
  unfolding on_row on_rsp_qry_order on_rsp_qry_trade on_rsp_qry_investor_position
      on_rsp_qry_investor_position_detail on_rsp_qry_trading_account on_rsp_qry_product
      on_rsp_qry_instrument
  on_rsp_qry-more order_rows row info id s = refl
  on_rsp_qry-more trade_rows row info id s = refl
  on_rsp_qry-more position_rows row info id s = refl
  on_rsp_qry-more position_detail_rows row info id s = refl
  on_rsp_qry-more trade_account_rows row info id s = refl
  on_rsp_qry-more product_rows row info id s = refl
  on_rsp_qry-more instrument_rows row info id s = refl

  -- The handler behind the last row.
  abbrev answered : (k : RowKind) → Option (Row D k) → ℕ → CtpTradeHandler D → CtpTradeHandler D
  answered order_rows row id s =
      store order_rows (erase id (pushed id row s.rsp_qry_order_caches))
        (record s { qry_cache = (get_and_clear_cache_qry_order id s.qry_cache).0 })
  answered trade_rows row id s =
      store trade_rows (erase id (pushed id row s.rsp_qry_trade_caches))
        (record s { qry_cache = (get_and_clear_cache_qry_trade id s.qry_cache).0 })
  answered position_rows row id s =
      store position_rows (erase id (pushed id row s.rsp_qry_position_caches))
        (record s { qry_cache = (get_and_clean_cache_qry_position id s.qry_cache).0 })
  answered position_detail_rows row id s =
      store position_detail_rows (erase id (pushed id row s.rsp_qry_position_detail_caches))
        (record s { qry_cache = (get_and_clean_cache_qry_position_detail id s.qry_cache).0 })
  answered trade_account_rows row id s =
      store trade_account_rows (erase id (pushed id row s.rsp_qry_trade_account_caches))
        (record s { qry_cache = (get_and_clean_cache_qry_trade_account id s.qry_cache).0 })
  answered product_rows row id s =
      store product_rows (erase id (pushed id row s.rsp_qry_product_caches))
        (record s { qry_cache = (get_and_clean_cache_qry_product id s.qry_cache).0 })
  answered instrument_rows row id s =
      store instrument_rows (erase id (pushed id row s.rsp_qry_instrument_caches))
        (record s { qry_cache = (get_and_clean_cache_qry_product id s.qry_cache).0 })

  on_rsp_qry-last :
      (k : RowKind) (row : Option (Row D k)) (info : Option RspInfoField) (id ws : ℕ)
      (qry : Wanted k) (s : CtpTradeHandler D)
      → lookup id s.qry_cache.qry_ws_cache ≡ some ws
      → lookup id (wanted k s.qry_cache) ≡ some qry
      → on_rsp_qry k row info id true s
        ≡ returns (answered k row id s) (
            log (log_of k row info (pos id) true)
            ∷ respond ws
                (answer_of k qry (rows_at id (pushed id row (rows_of k s))) (error_of info))
            ∷ [])
  unfolding on_row on_rsp_qry_order on_rsp_qry_trade on_rsp_qry_investor_position
      on_rsp_qry_investor_position_detail on_rsp_qry_trading_account on_rsp_qry_product
      on_rsp_qry_instrument get_and_clean_cache_qry_position get_and_clean_cache_qry_position_detail
      get_and_clean_cache_qry_product get_and_clean_cache_qry_trade_account
      get_and_clear_cache_qry_order get_and_clear_cache_qry_trade
  on_rsp_qry-last order_rows row info id ws qry s h g = rw (h, g) refl
  on_rsp_qry-last trade_rows row info id ws qry s h g = rw (h, g) refl
  on_rsp_qry-last position_rows row info id ws qry s h g = rw (h, g) refl
  on_rsp_qry-last position_detail_rows row info id ws qry s h g = rw (h, g) refl
  on_rsp_qry-last trade_account_rows row info id ws qry s h g = rw (h, g) refl
  on_rsp_qry-last product_rows row info id ws qry s h g = rw (h, g) refl
  on_rsp_qry-last instrument_rows row info id ws qry s h g = rw (h, g) refl

  answered_clear :
      (k : RowKind) (row : Option (Row D k)) (id : ℕ) (s : CtpTradeHandler D)
      → (lookup id (rows_of k (answered k row id s)) ≡ none)
        × (lookup id (answered k row id s).qry_cache.qry_ws_cache ≡ none)
        × (lookup id (wanted k (answered k row id s).qry_cache) ≡ none)
  unfolding get_and_clean_cache_qry_position get_and_clean_cache_qry_position_detail
      get_and_clean_cache_qry_product get_and_clean_cache_qry_trade_account
      get_and_clear_cache_qry_order get_and_clear_cache_qry_trade
  answered_clear order_rows row id s =
      (lookup-erase_self id _, lookup-erase_self id _, lookup-erase_self id _)
  answered_clear trade_rows row id s =
      (lookup-erase_self id _, lookup-erase_self id _, lookup-erase_self id _)
  answered_clear position_rows row id s =
      (lookup-erase_self id _, lookup-erase_self id _, lookup-erase_self id _)
  answered_clear position_detail_rows row id s =
      (lookup-erase_self id _, lookup-erase_self id _, lookup-erase_self id _)
  answered_clear trade_account_rows row id s =
      (lookup-erase_self id _, lookup-erase_self id _, lookup-erase_self id _)
  answered_clear product_rows row id s =
      (lookup-erase_self id _, lookup-erase_self id _, lookup-erase_self id _)
  answered_clear instrument_rows row id s =
      (lookup-erase_self id _, lookup-erase_self id _, lookup-erase_self id _)

  rows_at-pushed :
      {A : Type 0} (id : ℕ) (row : Option A) (m : StdMap ℕ (List A))
      → rows_at id (pushed id row m) ≡ rows_at id m ++ row_list row
  rows_at-pushed id row m =
      rw (lookup-insert_self id (rows_at id m ++ row_list row) m, rows_at) refl

  told_cache :
      (k : RowKind) (id : ℕ) (rows : List (Row D k × Option RspInfoField)) (s : CtpTradeHandler D)
      → (told k id rows s).qry_cache ≡ s.qry_cache
  told_cache k id [] s = refl
  told_cache k id ((row, info) ∷ rows) s =
      rw (on_rsp_qry-more k row info id s, told)
        (told_cache k id rows (store k (pushed id (some row) (rows_of k s)) s)
          ∙ store_qry_cache k (pushed id (some row) (rows_of k s)) s)

  told_rows :
      (k : RowKind) (id : ℕ) (rows : List (Row D k × Option RspInfoField)) (s : CtpTradeHandler D)
      → rows_at id (rows_of k (told k id rows s))
        ≡ rows_at id (rows_of k s) ++ map (λ (p : Row D k × Option RspInfoField). p.0) rows
  told_rows k id [] s = sym (append-nil _)
  told_rows k id ((row, info) ∷ rows) s =
      let m = pushed id (some row) (rows_of k s) in
      rw (on_rsp_qry-more k row info id s) (
        told_rows k id rows (store k m s)
        ∙ (rw (rows_of-store k m s, rows_at-pushed id (some row) (rows_of k s))
            (append_assoc (rows_at id (rows_of k s)) (row ∷ []) _)))

  -- Each of the seven answers to a query is what the rows are taken together: after any number of calls
  -- with a row, the last call sends one message to the client that asked, about its query and with all
  -- rows that came, in their order, and with the error of the last call. Neither the rows nor the query
  -- stay behind. The request is known and has no rows yet.
  pub on_rsp_qry-told :
      (k : RowKind) (id ws : ℕ) (qry : Wanted k) (rows : List (Row D k × Option RspInfoField))
      (row : Option (Row D k)) (info : Option RspInfoField) (s : CtpTradeHandler D)
      → lookup id s.qry_cache.qry_ws_cache ≡ some ws
      → lookup id (wanted k s.qry_cache) ≡ some qry
      → lookup id (rows_of k s) ≡ none
      → (done : CtpTradeHandler D) × (on_rsp_qry k row info id true (told k id rows s)
          ≡ returns done (
              log (log_of k row info (pos id) true)
              ∷ respond ws (
                  answer_of k qry
                    (map (λ (p : Row D k × Option RspInfoField). p.0) rows ++ row_list row)
                    (error_of info))
              ∷ []))
        × ((lookup id (rows_of k done) ≡ none)
            × (lookup id done.qry_cache.qry_ws_cache ≡ none)
            × (lookup id (wanted k done.qry_cache) ≡ none))
  on_rsp_qry-told k id ws qry rows row info s h g n =
      let t = told k id rows s in
      let all : rows_at id (pushed id row (rows_of k t))
          ≡ map (λ (p : Row D k × Option RspInfoField). p.0) rows ++ row_list row =
        rows_at-pushed id row (rows_of k t)
        ∙ ap (λ (rs : List (Row D k)). rs ++ row_list row)
            (told_rows k id rows s ∙ rw (n, rows_at) refl) in
      (
        answered k row id t,
        rw (← all) (
            on_rsp_qry-last k row info id ws qry t (rw (told_cache k id rows s) h)
              (rw (told_cache k id rows s) g)),
        answered_clear k row id t,
      )
