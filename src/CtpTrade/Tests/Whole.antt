-- ===== src/CtpTrade/Tests/Whole.antt =====
-- Instances of the laws of the handler as a whole, with whole numbers for prices.
use babeltrader.Common.{
  ℕ, ◌+◌, ◌*◌, ◌≤◌, ◌⊎◌, ◌≡◌, refl, true, codes, [], ◌∷◌, ◌++◌, some, none, arith,
}
use mathlib.Core.List.{map}
use mathlib.Core.Option.{Option}
use babeltrader.Common.Int.{ℤ, pos}
use babeltrader.Common.Double.{whole_numbers}
use babeltrader.Common.StdMap.{bytes_key, nat_key, lookup}
use babeltrader.QueryCache.{empty}
use babeltrader.Json.Grammar.{IsJson}
use babeltrader.Json.Numbers.{written}
use babeltrader.CtpTrade.{record_order, clear_order_info_map}
use babeltrader.CtpTrade.Logs.Orders.{serialize_ctp_order}
use babeltrader.CtpTrade.Logs.Texts
use babeltrader.CtpTrade.Logs.Texts.{logged, logged-IsJson}
use babeltrader.CtpTrade.Fields.Session.{RspInfoField, RspUserLoginField}
use babeltrader.CtpTrade.Handler.{CtpTradeHandler, log, respond, returns}
use babeltrader.CtpTrade.Trading.{insert_order, on_order_status}
use babeltrader.CtpTrade.Trading.Kept.{IsKept, insert_order-IsKept}
use babeltrader.CtpTrade.Trading.Life.{behind}
use babeltrader.CtpTrade.Querying.Kinds.{order_rows, Row, rows_of, wanted}
use babeltrader.CtpTrade.Querying.Rows.{on_rsp_qry, log_of, answer_of, told, on_rsp_qry-told}
use babeltrader.CtpTrade.Session.{
  new_handler, run_api, on_rsp_user_login, login_thread, login_again, do_login,
}
use babeltrader.CtpTrade.Session.Retries.{Tries, fails, here, next, Continues, Ends, Steps-end}
use babeltrader.CtpTrade.Running.{
  Program, run, starts, returned, thread_sleeps, thread_wakes, in_run_api, in_rsp_user_login,
}
use babeltrader.CtpTrade.Running.Invariant.{IsValid}
use babeltrader.CtpTrade.Running.Valid.{Reached-IsValid}
use babeltrader.CtpTrade.Tests.Data.{conf, libc, an_order, a_query, connected, req, a_notice}

-- The handler behind the first notice, and behind the order of another request and a cleaning.
abbrev noticed_handler : CtpTradeHandler ℤ
noticed_handler =
    (on_order_status whole_numbers conf libc (pos 9) a_notice
      (behind whole_numbers conf libc an_order req connected)).0

abbrev later_handler : CtpTradeHandler ℤ
later_handler = record noticed_handler {
  order_maps = clear_order_info_map (pos 1000) (
      record_order libc.print (codes "u") an_order (codes "77") (pos 1) (pos 2)
        noticed_handler.order_maps);
}

insert_order-IsKept_example :
    IsKept whole_numbers conf libc connected
      (insert_order whole_numbers conf libc (pos 3) an_order connected)
insert_order-IsKept_example =
    insert_order-IsKept whole_numbers conf libc (pos 3) an_order connected (omega arith)

abbrev no_error : RspInfoField
no_error = record { error_id = pos 0; error_msg = [] }

on_rsp_qry-told_example :
    (done : CtpTradeHandler ℤ) × (on_rsp_qry whole_numbers conf libc order_rows
        (some a_notice)
        (some no_error)
        3
        true
        (told whole_numbers conf libc order_rows 3 ((a_notice, none) ∷ []) connected)
      ≡ returns done (
          log
            (log_of whole_numbers conf libc order_rows (some a_notice) (some no_error) (pos 3) true)
          ∷ respond 5 (
              answer_of whole_numbers conf libc order_rows a_query
                (map (λ (p : Row ℤ order_rows × Option RspInfoField). p.0) ((a_notice, none) ∷ [])
                  ++ a_notice ∷ [])
                (pos 0))
          ∷ []))
    × ((lookup 3 (rows_of order_rows done) ≡ none)
        × (lookup 3 done.qry_cache.qry_ws_cache ≡ none)
        × (lookup 3 (wanted order_rows done.qry_cache) ≡ none))
unfolding lookup
on_rsp_qry-told_example =
    on_rsp_qry-told whole_numbers conf libc order_rows 3 5 a_query ((a_notice, none) ∷ [])
      (some a_notice) (some no_error) connected refl refl refl

abbrev a_login : RspUserLoginField
a_login = record {
  trading_day = codes "20190131";
  login_time = codes "08:59:00";
  broker_id = codes "9999";
  user_id = codes "8001";
  system_name = [];
  front_id = pos 1;
  session_id = pos 2;
  max_order_ref = [];
  shfe_time = [];
  dce_time = [];
  czce_time = [];
  ffex_time = [];
  ine_time = [];
}

abbrev started : CtpTradeHandler ℤ
unfolding new_handler empty
started = record new_handler { api = true }

abbrev refused_login : RspInfoField
refused_login = record { error_id = pos 3; error_msg = codes "no" }

-- Behind a refused login, the sleep of its thread and its next attempt.
abbrev tries_again : CtpTradeHandler ℤ
unfolding new_handler empty
tries_again = record started { req_login_cnt = 1; req_id = 2 }

abbrev program : CtpTradeHandler ℤ → ℕ → ℕ → Program ℤ
program handler starting sleeping = record {
  handler = handler;
  starting = starting;
  sleeping = sleeping;
}

Reached-IsValid_example : IsValid tries_again
unfolding new_handler empty run run_api on_rsp_user_login login_thread login_again do_login
Reached-IsValid_example = Reached-IsValid whole_numbers conf libc (program tries_again 0 0) (
    thread_wakes (program started 0 1) 0 tries_again _
      (thread_sleeps (program started 1 0) 0 started _
        (returned (program started 0 0) started
          (in_rsp_user_login (some a_login) (some refused_login) 1) _
          (returned (program new_handler 0 0) started (in_run_api []) _ starts refl) refl)
        refl refl)
      refl refl)

-- Two attempts under way.
abbrev two_tries : Tries ℤ
two_tries = record { handler = connected; in_flight = 2; starting = 0; sleeping = 0 }

abbrev one_refused : Tries ℤ
one_refused = record { handler = connected; in_flight = 1; starting = 1; sleeping = 0 }

Steps-end_example :
    (1 + 3 * 0 ≤ 2 * 2 + 0 + 3 * (2 + 2))
    × (Continues whole_numbers conf one_refused ⊎ Ends whole_numbers conf one_refused)
unfolding on_rsp_user_login
Steps-end_example =
    Steps-end whole_numbers conf two_tries 1 one_refused (omega arith) (omega arith)
      (next here (fails a_login refused_login 1 1 refl refl))

logged-IsJson_example : IsJson (written (λ (x : ℤ). true) (logged (Texts.rtn_order a_notice)))
unfolding logged serialize_ctp_order
logged-IsJson_example = logged-IsJson (λ (x : ℤ). true) (Texts.rtn_order a_notice) refl
