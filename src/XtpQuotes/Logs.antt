-- ===== src/XtpQuotes/Logs.antt =====
-- What `XTPQuoteHandler` logs (src/xtp-quotes/xtp_quote_handler.cpp), as calls of the writer. The pointers
-- are taken to be set.
use babeltrader.Common.{String, List, [], ◌∷◌, ◌++◌, codes, ℕ}
use mathlib.Core.List.{map}
use babeltrader.Common.Int.{ℤ, pos}
use babeltrader.Json.{Event, key, string, int, int64, double, start_array, end_array}
use babeltrader.CtpTrade.Logs.{message, data_object, one_char}
use babeltrader.XtpQuotes.Fields.{
  XtpRspInfo, XtpSpecificTicker, XtpMarketData, XtpOrderBook, XtpTick, entrust, trade,
  XtpTickByTick,
}

module _ {D : Type 0} where
  abbrev answered : XtpRspInfo → List (Event D) → List (Event D)
  answered info rest =
      key (codes "error_id")
      ∷ int info.error_id
      ∷ key (codes "error_msg")
      ∷ string info.error_msg
      ∷ rest

  abbrev about_ticker : String → XtpSpecificTicker → XtpRspInfo → List (Event D)
  about_ticker name ticker info = message name (
      answered info (
        data_object (
          key (codes "exhange")
          ∷ int (pos ticker.exchange_id)
          ∷ key (codes "symbol")
          ∷ string ticker.ticker
          ∷ [])))

  abbrev about_all : String → ℕ → XtpRspInfo → List (Event D)
  about_all name exchange_id info =
      message name
        (answered info (data_object (key (codes "exhange") ∷ int (pos exchange_id) ∷ [])))

  unfoldable pub output_front_disconnected : List (Event D)
  output_front_disconnected = message "disconnected" []

  -- `OnError` does nothing but log.
  unfoldable pub on_error : XtpRspInfo → List (Event D)
  on_error info = message "on_error" (answered info [])

  unfoldable pub output_rsp_sub_market_data : XtpSpecificTicker → XtpRspInfo → List (Event D)
  output_rsp_sub_market_data ticker info = about_ticker "rspsubmarketdata" ticker info

  unfoldable pub output_rsp_unsub_market_data : XtpSpecificTicker → XtpRspInfo → List (Event D)
  output_rsp_unsub_market_data ticker info = about_ticker "rspunsubmarketdata" ticker info

  unfoldable pub output_rsp_sub_order_book : XtpSpecificTicker → XtpRspInfo → List (Event D)
  output_rsp_sub_order_book ticker info = about_ticker "rspsuborderbook" ticker info

  unfoldable pub output_rsp_unsub_order_book : XtpSpecificTicker → XtpRspInfo → List (Event D)
  output_rsp_unsub_order_book ticker info = about_ticker "rspunsuborderbook" ticker info

  unfoldable pub output_rsp_sub_tick_by_tick : XtpSpecificTicker → XtpRspInfo → List (Event D)
  output_rsp_sub_tick_by_tick ticker info = about_ticker "rspsubtickbytick" ticker info

  unfoldable pub output_rsp_unsub_tick_by_tick : XtpSpecificTicker → XtpRspInfo → List (Event D)
  output_rsp_unsub_tick_by_tick ticker info = about_ticker "rspunsubtickbytick" ticker info

  unfoldable pub output_rsp_sub_all_market_data : ℕ → XtpRspInfo → List (Event D)
  output_rsp_sub_all_market_data exchange_id info = about_all "rspsuballmarketdata" exchange_id info

  unfoldable pub output_rsp_unsub_all_market_data : ℕ → XtpRspInfo → List (Event D)
  output_rsp_unsub_all_market_data exchange_id info =
      about_all "rspunsuballmarketdata" exchange_id info

  unfoldable pub output_rsp_sub_all_order_book : ℕ → XtpRspInfo → List (Event D)
  output_rsp_sub_all_order_book exchange_id info = about_all "rspsuballorderbook" exchange_id info

  unfoldable pub output_rsp_unsub_all_order_book : ℕ → XtpRspInfo → List (Event D)
  output_rsp_unsub_all_order_book exchange_id info =
      about_all "rspunsuballorderbook" exchange_id info

  unfoldable pub output_rsp_sub_all_tick_by_tick : ℕ → XtpRspInfo → List (Event D)
  output_rsp_sub_all_tick_by_tick exchange_id info =
      about_all "rspsuballtickbytick" exchange_id info

  unfoldable pub output_rsp_unsub_all_tick_by_tick : ℕ → XtpRspInfo → List (Event D)
  output_rsp_unsub_all_tick_by_tick exchange_id info =
      about_all "rspunsuballtickbytick" exchange_id info

  -- A key and an array.
  abbrev prices : String → List D → List (Event D)
  prices name ps = key (codes name) ∷ start_array ∷ (map (λ (p : D). double p) ps ++ end_array ∷ [])

  abbrev counts : String → List ℤ → List (Event D)
  counts name ns = key (codes name) ∷ start_array ∷ (map (λ (n : ℤ). int64 n) ns ++ end_array ∷ [])

  -- Only a build with `ENABLE_PERFORMANCE_TEST` names the next three.
  unfoldable pub output_market_data : XtpMarketData D → List (Event D)
  output_market_data market_data = message "marketdata" (
      data_object (
        key (codes "exchange_id")
        ∷ int (pos market_data.exchange_id)
        ∷ key (codes "ticker")
        ∷ string market_data.ticker
        ∷ key (codes "last_price")
        ∷ double market_data.last_price
        ∷ key (codes "pre_close_price")
        ∷ double market_data.pre_close_price
        ∷ key (codes "open_price")
        ∷ double market_data.open_price
        ∷ key (codes "high_price")
        ∷ double market_data.high_price
        ∷ key (codes "low_price")
        ∷ double market_data.low_price
        ∷ key (codes "close_price")
        ∷ double market_data.close_price
        ∷ key (codes "pre_total_long_positon")
        ∷ int64 market_data.pre_total_long_positon
        ∷ key (codes "total_long_positon")
        ∷ int64 market_data.total_long_positon
        ∷ key (codes "pre_settl_price")
        ∷ double market_data.pre_settl_price
        ∷ key (codes "settl_price")
        ∷ double market_data.settl_price
        ∷ key (codes "upper_limit_price")
        ∷ double market_data.upper_limit_price
        ∷ key (codes "lower_limit_price")
        ∷ double market_data.lower_limit_price
        ∷ key (codes "pre_delta")
        ∷ double market_data.pre_delta
        ∷ key (codes "curr_delta")
        ∷ double market_data.curr_delta
        ∷ key (codes "data_time")
        ∷ int64 (pos market_data.data_time)
        ∷ key (codes "qty")
        ∷ int64 market_data.qty
        ∷ key (codes "turnover")
        ∷ double market_data.turnover
        ∷ key (codes "avg_price")
        ∷ double market_data.avg_price
        ∷ ((prices "bid" market_data.bid)
            ++ ((prices "ask" market_data.ask)
                ++ ((counts "bid_qty" market_data.bid_qty)
                    ++ ((counts "ask_qty" market_data.ask_qty)
                        ++ key (codes "trades_count") ∷ int64 market_data.trades_count ∷ []))))))

  unfoldable pub output_order_book : XtpOrderBook D → List (Event D)
  output_order_book order_book = message "orderbook" (
      data_object (
        key (codes "exchange_id")
        ∷ int (pos order_book.exchange_id)
        ∷ key (codes "ticker")
        ∷ string order_book.ticker
        ∷ key (codes "last_price")
        ∷ double order_book.last_price
        ∷ key (codes "qty")
        ∷ int64 order_book.qty
        ∷ key (codes "turnover")
        ∷ double order_book.turnover
        ∷ key (codes "trades_count")
        ∷ int64 order_book.trades_count
        ∷ ((prices "bid" order_book.bid)
            ++ ((prices "ask" order_book.ask)
                ++ ((counts "bid_qty" order_book.bid_qty)
                    ++ ((counts "ask_qty" order_book.ask_qty)
                        ++ key (codes "data_time") ∷ int64 (pos order_book.data_time) ∷ []))))))

  abbrev tick_type : XtpTick D → ℤ
  tick_type (entrust _) = pos 1
  tick_type (trade _) = pos 2

  abbrev tick_members : XtpTick D → List (Event D)
  tick_members (entrust e) =
      key (codes "channel_no")
      ∷ int e.channel_no
      ∷ key (codes "seq")
      ∷ int64 e.seq
      ∷ key (codes "price")
      ∷ double e.price
      ∷ key (codes "qty")
      ∷ int64 e.qty
      ∷ key (codes "side")
      ∷ string (one_char e.side)
      ∷ key (codes "ord_type")
      ∷ string (one_char e.ord_type)
      ∷ []
  tick_members (trade t) =
      key (codes "channel_no")
      ∷ int t.channel_no
      ∷ key (codes "seq")
      ∷ int64 t.seq
      ∷ key (codes "price")
      ∷ double t.price
      ∷ key (codes "qty")
      ∷ int64 t.qty
      ∷ key (codes "money")
      ∷ double t.money
      ∷ key (codes "bid_no")
      ∷ int64 t.bid_no
      ∷ key (codes "ask_no")
      ∷ int64 t.ask_no
      ∷ key (codes "trade_flag")
      ∷ string (one_char t.trade_flag)
      ∷ []

  unfoldable pub output_tick_by_tick : XtpTickByTick D → List (Event D)
  output_tick_by_tick tbt_data = message "tickbytick" (
      data_object (
        key (codes "exchange_id")
        ∷ int (pos tbt_data.exchange_id)
        ∷ key (codes "ticker")
        ∷ string tbt_data.ticker
        ∷ key (codes "seq")
        ∷ int64 tbt_data.seq
        ∷ key (codes "data_time")
        ∷ int64 (pos tbt_data.data_time)
        ∷ key (codes "type")
        ∷ int (tick_type tbt_data.tick)
        ∷ tick_members tbt_data.tick))
