-- ===== src/CtpTrade/Querying/Answers.antt =====
-- The answers to the queries of `CTPTradeHandler`, which come row by row
-- (src/ctp-trade/ctp_trade_handler.cpp). A client's socket is a number, which stands for a pointer that
-- is not null.
use babeltrader.Common.{ℕ, Bool, List, [], ◌∷◌, ◌++◌, Option, none, some, if◌then◌else◌}
use mathlib.Core.List.{map}
use babeltrader.Common.Int.{ℤ, pos}
use babeltrader.Common.Double.{Double}
use babeltrader.Common.StdMap.{StdMap, nat_key, lookup, insert, erase}
use babeltrader.Structs.{OrderQuery, TradeQuery, PositionQuery, TradeAccountQuery, ProductQuery}
use babeltrader.QueryCache.{
  QueryCache, Fetched, get_and_clear_cache_qry_order, get_and_clear_cache_qry_trade,
  get_and_clean_cache_qry_position, get_and_clean_cache_qry_position_detail,
  get_and_clean_cache_qry_trade_account, get_and_clean_cache_qry_product,
}
use babeltrader.TradeService.Messages.{
  Message, orders, trades, positions_type1, position_details_type1, trade_accounts_type1,
  products_type1,
}
use babeltrader.CtpTrade.Logs.Texts
use babeltrader.CtpTrade.Fields.Orders.{OrderField, TradeField}
use babeltrader.CtpTrade.Fields.Positions.{InvestorPositionField, InvestorPositionDetailField}
use babeltrader.CtpTrade.Fields.Accounts.{TradingAccountField, ProductField, InstrumentField}
use babeltrader.CtpTrade.Fields.Session.{RspInfoField}
use babeltrader.CtpTrade.Handler.{
  CtpTradeConf, Libc, CtpTradeHandler, Call, log, respond, Run, returns, undefined,
}
use babeltrader.CtpTrade.Answered.{
  new_order, convert_rtn_order_ctp2common, rtn_order_status, convert_rtn_trade_ctp2common,
  rtn_trade_deal,
}
use babeltrader.CtpTrade.Answered.Positions.{
  convert_position_ctp2common, convert_position_detail_ctp2common, convert_trade_account_ctp2common,
  convert_product_ctp2common, convert_instrument_ctp2common,
}

-- A query whose members are all empty.
abbrev blank_order_query : OrderQuery
blank_order_query = record {
  qry_id = [];
  user_id = [];
  outside_id = [];
  market = [];
  exchange = [];
  type = [];
  symbol = [];
  contract = [];
  contract_id = [];
}

abbrev blank_trade_query : TradeQuery
blank_trade_query = record {
  qry_id = [];
  user_id = [];
  trade_id = [];
  market = [];
  exchange = [];
  type = [];
  symbol = [];
  contract = [];
  contract_id = [];
}

abbrev blank_position_query : PositionQuery
blank_position_query = record {
  qry_id = [];
  user_id = [];
  market = [];
  exchange = [];
  type = [];
  symbol = [];
  contract = [];
  contract_id = [];
}

abbrev blank_trade_account_query : TradeAccountQuery
blank_trade_account_query = record { qry_id = []; user_id = []; market = []; currency_id = [] }

abbrev blank_product_query : ProductQuery
blank_product_query = record { qry_id = []; market = []; exchange = []; symbol = []; contract = [] }

-- The vector of a request, made when it is missing, with the row behind it that the pointer gives.
abbrev pub rows_at : {A : Type 0} → ℕ → StdMap ℕ (List A) → List A
rows_at n_request_id caches = elim (lookup n_request_id caches) [ none ↦ [] | some rows ↦ rows ]

abbrev pub row_list : {A : Type 0} → Option A → List A
row_list none = []
row_list (some row) = row ∷ []

abbrev pub pushed : {A : Type 0} → ℕ → Option A → StdMap ℕ (List A) → StdMap ℕ (List A)
pushed n_request_id row caches =
    insert n_request_id (rows_at n_request_id caches ++ row_list row) caches

-- `int error_id = 0; if (pRspInfo) { … }`
abbrev pub error_of : Option RspInfoField → ℤ
error_of none = pos 0
error_of (some info) = info.error_id

module _ (F : Double) where
  open F use {D}

  -- What the last row leads to: the answer goes to the client that asked. For a request that is not in
  -- the cache, `ws` is read though nothing has set it.
  abbrev pub answer :
      {Q : Type 0} → Call F → Q → (Q → Message F) → Fetched Q → CtpTradeHandler D → Run F
  answer call blank message (none, qry) s = undefined
  answer call blank message (some ws, none) s = returns s (call ∷ respond ws (message blank) ∷ [])
  answer call blank message (some ws, some qry) s = returns s (call ∷ respond ws (message qry) ∷ [])

  -- What `OnRspQry…` does behind the log: `caches` are the rows with the new one, `store` puts them
  -- into the handler.
  unfoldable pub on_row :
      {A Q : Type 0}
      → ℕ
      → Bool
      → Call F
      → StdMap ℕ (List A)
      → (StdMap ℕ (List A) → CtpTradeHandler D → CtpTradeHandler D)
      → QueryCache × Fetched Q
      → Q
      → (Q → List A → Message F)
      → CtpTradeHandler D
      → Run F
  on_row n_request_id is_last call caches store fetched blank message s =
      if is_last
      then answer call blank (λ qry. message qry (rows_at n_request_id caches)) fetched.1
          (store (erase n_request_id caches) (record s { qry_cache = fetched.0 }))
      else returns (store caches s) (call ∷ [])

module _ (F : Double) (conf : CtpTradeConf) (libc : Libc) where
  open F use {D, to_int}

  unfoldable pub on_rsp_qry_order :
      Option (OrderField D) → Option RspInfoField → ℕ → Bool → CtpTradeHandler D → Run F
  unfolding convert_rtn_order_ctp2common rtn_order_status get_and_clear_cache_qry_order
  on_rsp_qry_order row info n_request_id is_last s =
      on_row F n_request_id is_last
        (log (Texts.rsp_order_query row info (pos n_request_id) is_last))
        (pushed n_request_id row s.rsp_qry_order_caches)
        (λ caches t. record t { rsp_qry_order_caches = caches })
        (get_and_clear_cache_qry_order n_request_id s.qry_cache) blank_order_query
        (λ qry rows.
          orders qry
            (map
              (λ (row : OrderField D). convert_rtn_order_ctp2common F libc row (new_order F libc))
              rows)
            (map (λ (row : OrderField D). rtn_order_status F libc row) rows) (error_of info))
        s

  unfoldable pub on_rsp_qry_trade :
      Option (TradeField D) → Option RspInfoField → ℕ → Bool → CtpTradeHandler D → Run F
  unfolding convert_rtn_trade_ctp2common rtn_trade_deal get_and_clear_cache_qry_trade
  on_rsp_qry_trade row info n_request_id is_last s =
      on_row F n_request_id is_last
        (log (Texts.rsp_trade_query row info (pos n_request_id) is_last))
        (pushed n_request_id row s.rsp_qry_trade_caches)
        (λ caches t. record t { rsp_qry_trade_caches = caches })
        (get_and_clear_cache_qry_trade n_request_id s.qry_cache) blank_trade_query
        (λ qry rows.
          trades qry
            (map
              (λ (row : TradeField D). convert_rtn_trade_ctp2common F libc row (new_order F libc))
              rows)
            (map (λ (row : TradeField D). rtn_trade_deal F libc row) rows) (error_of info))
        s

  unfoldable pub on_rsp_qry_investor_position :
      Option (InvestorPositionField D) → Option RspInfoField → ℕ → Bool → CtpTradeHandler D → Run F
  unfolding convert_position_ctp2common get_and_clean_cache_qry_position
  on_rsp_qry_investor_position row info n_request_id is_last s =
      on_row F n_request_id is_last
        (log (Texts.rsp_position_query row info (pos n_request_id) is_last))
        (pushed n_request_id row s.rsp_qry_position_caches)
        (λ caches t. record t { rsp_qry_position_caches = caches })
        (get_and_clean_cache_qry_position n_request_id s.qry_cache) blank_position_query
        (λ qry rows.
          positions_type1 qry
            (map (λ (row : InvestorPositionField D). convert_position_ctp2common F row) rows)
            (error_of info))
        s

  unfoldable pub on_rsp_qry_investor_position_detail :
      Option (InvestorPositionDetailField D)
      → Option RspInfoField
      → ℕ
      → Bool
      → CtpTradeHandler D
      → Run F
  unfolding convert_position_detail_ctp2common get_and_clean_cache_qry_position_detail
  on_rsp_qry_investor_position_detail row info n_request_id is_last s =
      on_row F n_request_id is_last
        (log (Texts.rsp_position_detail_query row info (pos n_request_id) is_last))
        (pushed n_request_id row s.rsp_qry_position_detail_caches)
        (λ caches t. record t { rsp_qry_position_detail_caches = caches })
        (get_and_clean_cache_qry_position_detail n_request_id s.qry_cache) blank_position_query
        (λ qry rows.
          position_details_type1 qry
            (map (λ (row : InvestorPositionDetailField D). convert_position_detail_ctp2common F row)
              rows)
            (error_of info))
        s

  unfoldable pub on_rsp_qry_trading_account :
      Option (TradingAccountField D) → Option RspInfoField → ℕ → Bool → CtpTradeHandler D → Run F
  unfolding convert_trade_account_ctp2common get_and_clean_cache_qry_trade_account
  on_rsp_qry_trading_account row info n_request_id is_last s =
      on_row F n_request_id is_last
        (log (Texts.rsp_trading_account_query row info (pos n_request_id) is_last))
        (pushed n_request_id row s.rsp_qry_trade_account_caches)
        (λ caches t. record t { rsp_qry_trade_account_caches = caches })
        (get_and_clean_cache_qry_trade_account n_request_id s.qry_cache) blank_trade_account_query
        (λ qry rows.
          trade_accounts_type1 qry
            (map (λ (row : TradingAccountField D). convert_trade_account_ctp2common F row) rows)
            (error_of info))
        s

  unfoldable pub on_rsp_qry_product :
      Option (ProductField D) → Option RspInfoField → ℕ → Bool → CtpTradeHandler D → Run F
  unfolding convert_product_ctp2common get_and_clean_cache_qry_product
  on_rsp_qry_product row info n_request_id is_last s =
      on_row F n_request_id is_last
        (log (Texts.rsp_product_query row info (pos n_request_id) is_last))
        (pushed n_request_id row s.rsp_qry_product_caches)
        (λ caches t. record t { rsp_qry_product_caches = caches })
        (get_and_clean_cache_qry_product n_request_id s.qry_cache) blank_product_query
        (λ qry rows.
          products_type1 qry
            (map (λ (row : ProductField D). convert_product_ctp2common F conf row) rows)
            (error_of info))
        s

  unfoldable pub on_rsp_qry_instrument :
      Option (InstrumentField D) → Option RspInfoField → ℕ → Bool → CtpTradeHandler D → Run F
  unfolding convert_instrument_ctp2common get_and_clean_cache_qry_product
  on_rsp_qry_instrument row info n_request_id is_last s =
      on_row F n_request_id is_last
        (log (Texts.rsp_instrument_query to_int row info (pos n_request_id) is_last))
        (pushed n_request_id row s.rsp_qry_instrument_caches)
        (λ caches t. record t { rsp_qry_instrument_caches = caches })
        (get_and_clean_cache_qry_product n_request_id s.qry_cache) blank_product_query
        (λ qry rows.
          products_type1 qry
            (map (λ (row : InstrumentField D). convert_instrument_ctp2common F conf row) rows)
            (error_of info))
        s
