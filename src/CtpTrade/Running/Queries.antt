-- ===== src/CtpTrade/Running/Queries.antt =====
-- The calls about queries keep the invariant (src/ctp-trade/ctp_trade_handler.cpp).
use babeltrader.Common.{ℕ, ◌+◌, ◌≡◌, refl, Bool, List, Option, none, some, if_both, String}
use babeltrader.Common.Int.{ℤ, pos, eqb_ℤ}
use babeltrader.Common.Double.{Double}
use babeltrader.Common.StdMap.{StdMap, nat_key, insert, erase}
use babeltrader.QueryCache.{
  QueryCache, Fetched, get_and_clear_cache_qry_order, get_and_clear_cache_qry_trade,
  get_and_clean_cache_qry_position, get_and_clean_cache_qry_position_detail,
  get_and_clean_cache_qry_trade_account, get_and_clean_cache_qry_product,
}
use babeltrader.TradeService.Messages.{Message}
use babeltrader.CtpTrade.Fields.Session.{RspInfoField}
use babeltrader.CtpTrade.Handler.{CtpTradeConf, Libc, CtpTradeHandler, Call}
use babeltrader.CtpTrade.Querying.{asked}
use babeltrader.CtpTrade.Querying.Answers.{
  rows_at, answer, on_row, on_rsp_qry_order, on_rsp_qry_trade, on_rsp_qry_investor_position,
  on_rsp_qry_investor_position_detail, on_rsp_qry_trading_account, on_rsp_qry_product,
  on_rsp_qry_instrument,
}
use babeltrader.CtpTrade.Querying.Kinds.{
  RowKind, Row, order_rows, trade_rows, position_rows, position_detail_rows, trade_account_rows,
  product_rows, instrument_rows,
}
use babeltrader.CtpTrade.Querying.Rows.{on_rsp_qry}
use babeltrader.CtpTrade.Running.Invariant.{insert-IsBelow, erase-IsBelow, IsValid, IsValidRun}

module _ (F : Double) (conf : CtpTradeConf) (libc : Libc) where
  open F use {D}

  -- A query that was cached at the next number, and one that was taken out again.
  pub asked-IsValid :
      (ret : ℤ) (text : String) (calls : List (Call F)) (ws : ℕ) (cached cleared : QueryCache)
      (s : CtpTradeHandler D)
      → IsValid s
      → cached.qry_ws_cache ≡ insert s.req_id ws s.qry_cache.qry_ws_cache
      → cleared.qry_ws_cache ≡ erase s.req_id cached.qry_ws_cache
      → IsValidRun F conf libc (asked F libc.print ret text calls cached cleared s)
  unfolding asked
  asked-IsValid ret text calls ws cached cleared s v e c =
      let below = insert-IsBelow s.req_id ws s.qry_cache.qry_ws_cache v.1 in
      if_both (IsValidRun F conf libc) (eqb_ℤ ret (pos 0)) (v.0, rw e below)
        (v.0, rw (c, e) (erase-IsBelow (s.req_id + 1) s.req_id _ below))

  -- An answer that leaves no more clients waiting than before.
  answer-IsValid :
      {Q : Type 0} (call : Call F) (blank : Q) (message : Q → Message F) (fetched : Fetched Q)
      (s : CtpTradeHandler D)
      → IsValid s
      → IsValidRun F conf libc (answer F call blank message fetched s)
  answer-IsValid call blank message (none, qry) s v = tt
  answer-IsValid call blank message (some ws, none) s v = v
  answer-IsValid call blank message (some ws, some qry) s v = v

  on_row-IsValid :
      {A Q : Type 0} (id : ℕ) (is_last : Bool) (call : Call F) (caches : StdMap ℕ (List A))
      (store : StdMap ℕ (List A) → CtpTradeHandler D → CtpTradeHandler D)
      (fetched : QueryCache × Fetched Q) (blank : Q) (message : Q → List A → Message F)
      (s : CtpTradeHandler D)
      → IsValid s
      → ((m : StdMap ℕ (List A)) (t : CtpTradeHandler D) → IsValid t → IsValid (store m t))
      → fetched.0.qry_ws_cache ≡ erase id s.qry_cache.qry_ws_cache
      → IsValidRun F conf libc (on_row F id is_last call caches store fetched blank message s)
  unfolding on_row
  on_row-IsValid id is_last call caches store fetched blank message s v keeps e =
      let cleared = record s { qry_cache = fetched.0 } in
      let w : IsValid cleared =
        (v.0, rw e (erase-IsBelow s.req_id id s.qry_cache.qry_ws_cache v.1)) in
      if_both (IsValidRun F conf libc) is_last
        (answer-IsValid call blank (λ qry. message qry (rows_at id caches)) fetched.1
          (store (erase id caches) cleared) (keeps (erase id caches) cleared w))
        (keeps caches s v)

  pub on_rsp_qry-IsValid :
      (k : RowKind) (row : Option (Row D k)) (info : Option RspInfoField) (id : ℕ) (is_last : Bool)
      (s : CtpTradeHandler D)
      → IsValid s
      → IsValidRun F conf libc (on_rsp_qry F conf libc k row info id is_last s)
  unfolding on_rsp_qry_order on_rsp_qry_trade on_rsp_qry_investor_position
      on_rsp_qry_investor_position_detail on_rsp_qry_trading_account on_rsp_qry_product
      on_rsp_qry_instrument get_and_clear_cache_qry_order get_and_clear_cache_qry_trade
      get_and_clean_cache_qry_position get_and_clean_cache_qry_position_detail
      get_and_clean_cache_qry_trade_account get_and_clean_cache_qry_product
  on_rsp_qry-IsValid order_rows row info id is_last s v =
      on_row-IsValid id is_last _ _ _ _ _ _ s v (λ m t w. w) refl
  on_rsp_qry-IsValid trade_rows row info id is_last s v =
      on_row-IsValid id is_last _ _ _ _ _ _ s v (λ m t w. w) refl
  on_rsp_qry-IsValid position_rows row info id is_last s v =
      on_row-IsValid id is_last _ _ _ _ _ _ s v (λ m t w. w) refl
  on_rsp_qry-IsValid position_detail_rows row info id is_last s v =
      on_row-IsValid id is_last _ _ _ _ _ _ s v (λ m t w. w) refl
  on_rsp_qry-IsValid trade_account_rows row info id is_last s v =
      on_row-IsValid id is_last _ _ _ _ _ _ s v (λ m t w. w) refl
  on_rsp_qry-IsValid product_rows row info id is_last s v =
      on_row-IsValid id is_last _ _ _ _ _ _ s v (λ m t w. w) refl
  on_rsp_qry-IsValid instrument_rows row info id is_last s v =
      on_row-IsValid id is_last _ _ _ _ _ _ s v (λ m t w. w) refl
