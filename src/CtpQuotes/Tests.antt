-- ===== src/CtpQuotes/Tests.antt =====
-- Instances of the laws of CtpQuotes, with whole numbers for prices.
use babeltrader.Common.{
  ℕ, ◌≡◌, refl, Bytes, codes, List, [], ◌∷◌, All, ◌+◌, ◌*◌, ◌-◌, true, inr, if◌then◌else◌, arith,
}
use mathlib.Core.List.{map, flatten}
use babeltrader.Common.Int.{ℤ, pos, eqb_ℤ, ◌+ℤ◌, ◌-ℤ◌, ◌*ℤ◌}
use babeltrader.Common.Double.{whole_numbers}
use babeltrader.Utils.{Tm}
use babeltrader.Kline.{KlineCache, LocalTime}
use babeltrader.CtpQuotes.{
  CtpQuotes, load_topics, sub_all_topics, on_front_disconnected, on_rsp_sub_market_data,
}
use babeltrader.Json.Grammar.{IsJson}
use babeltrader.Json.Numbers.{written}
use babeltrader.CtpQuotes.Depth.{DepthMarketData, get_update_time_ms}
use babeltrader.CtpQuotes.Logs.{received, heard_text, heard_text-IsJson}
use babeltrader.CtpQuotes.Connection.{CtpQuoteConf, day_text, next_day}
use babeltrader.CtpQuotes.Days.{at, HasDate, connected, get_update_time_ms-on_front_connected}
use babeltrader.CtpQuotes.Requests.{
  subscribed, waiting, IsPortion, RequestsAll, sub_all_topics-covers, reconnect-requests,
}
use babeltrader.CtpQuotes.Subscribed.{
  runs, later, is_answered, loses_connection, fresh, IsValid, Reach-IsValid,
}

abbrev no_clock : Tm → ℤ
no_clock t = t.tm_sec

abbrev no_number : Bytes → ℕ
no_number s = 0

abbrev midnight : ℤ → LocalTime
midnight s = record { tm_hour = 0; tm_min = 0 }

abbrev uninit : KlineCache ℤ
uninit = record {
  start_vol = pos 77;
  last_update_local_sec = pos 3;
  kline = record {
    ts = pos 1;
    open_price = pos 2;
    high = pos 3;
    low = pos 4;
    close = pos 5;
    vol = pos 6;
  };
}

abbrev topics : List Bytes
topics = codes "rb1905" ∷ codes "cu1906" ∷ []

abbrev started : CtpQuotes ℤ
started =
    load_topics topics
      (fresh whole_numbers no_number no_clock midnight (codes "20190101") (codes "20190102"))

Reach-IsValid_example :
    IsValid whole_numbers no_number no_clock midnight
      (on_front_disconnected (on_rsp_sub_market_data uninit (codes "cu1906") (pos 0) started))
Reach-IsValid_example =
    Reach-IsValid whole_numbers no_number no_clock midnight topics (codes "20190101")
      (codes "20190102")
      (on_front_disconnected (on_rsp_sub_market_data uninit (codes "cu1906") (pos 0) started))
      (later (later runs (is_answered uninit (codes "cu1906") (pos 0))) loses_connection)

sub_all_topics-covers_example :
    (flatten (map subscribed (sub_all_topics started)) ≡ waiting started.sub_topics)
    × All IsPortion (sub_all_topics started)
sub_all_topics-covers_example = sub_all_topics-covers started

reconnect-requests_example :
    RequestsAll (on_rsp_sub_market_data uninit (codes "cu1906") (pos 0) started)
reconnect-requests_example =
    reconnect-requests (on_rsp_sub_market_data uninit (codes "cu1906") (pos 0) started)

-- Digits read as a number.
abbrev digits : ℕ → Bytes → ℕ
digits n [] = n
digits n (c ∷ s) = digits (n * 10 + (c - 48)) s

-- The last day of a year and the first of the next.
abbrev new_year : ℤ → Tm
new_year now =
    if eqb_ℤ now (pos 0)
    then record {
      tm_year = pos 2018 -ℤ pos 1900;
      tm_mon = pos 12 -ℤ pos 1;
      tm_mday = pos 31;
      tm_hour = pos 1;
      tm_min = pos 0;
      tm_sec = pos 0;
    }
    else record {
      tm_year = pos 2019 -ℤ pos 1900;
      tm_mon = pos 1 -ℤ pos 1;
      tm_mday = pos 1;
      tm_hour = pos 1;
      tm_min = pos 0;
      tm_sec = pos 0;
    }

-- Numbers as far as the test prints them.
abbrev print : ℤ → Bytes
print n = if eqb_ℤ n (pos 2018) then codes "2018" else codes "2019"

abbrev print_two : ℤ → Bytes
print_two n =
    if eqb_ℤ n (pos 1) then codes "01" else (if eqb_ℤ n (pos 12) then codes "12" else codes "31")

abbrev account : CtpQuoteConf
account = record {
  broker_id = codes "9999";
  user_id = codes "u1";
  password = codes "secret";
  default_sub_topics = topics;
}

abbrev tick : DepthMarketData ℤ
tick = record {
  trading_day = codes "20190102";
  instrument_id = codes "rb1905";
  exchange_id = [];
  exchange_inst_id = [];
  last_price = pos 3500;
  pre_settlement_price = pos 3490;
  pre_close_price = pos 3490;
  pre_open_interest = pos 10;
  open_price = pos 3495;
  highest_price = pos 3510;
  lowest_price = pos 3485;
  volume = pos 20;
  turnover = pos 70000;
  open_interest = pos 11;
  close_price = pos 0;
  settlement_price = pos 0;
  upper_limit_price = pos 3800;
  lower_limit_price = pos 3200;
  pre_delta = pos 0;
  curr_delta = pos 0;
  update_time = codes "00:30:15";
  update_millisec = pos 500;
  bid_price1 = pos 3499;
  bid_volume1 = pos 4;
  ask_price1 = pos 3501;
  ask_volume1 = pos 5;
  bid_price2 = pos 0;
  bid_volume2 = pos 0;
  ask_price2 = pos 0;
  ask_volume2 = pos 0;
  bid_price3 = pos 0;
  bid_volume3 = pos 0;
  ask_price3 = pos 0;
  ask_volume3 = pos 0;
  bid_price4 = pos 0;
  bid_volume4 = pos 0;
  ask_price4 = pos 0;
  ask_volume4 = pos 0;
  bid_price5 = pos 0;
  bid_volume5 = pos 0;
  ask_price5 = pos 0;
  ask_volume5 = pos 0;
  average_price = pos 3497;
  action_day = [];
}

new_year-HasDate : HasDate print print_two (digits 0) (new_year (next_day (pos 0))) 2019 1 1
unfolding day_text ◌-ℤ◌ ◌+ℤ◌
new_year-HasDate = record {
  year_of = refl;
  month_of = refl;
  day_of = refl;
  month_small = omega arith;
  day_small = omega arith;
  reads = refl;
}

get_update_time_ms-on_front_connected_example :
    get_update_time_ms
      (digits 0)
      no_clock
      (connected print print_two (digits 0) new_year account (pos 0) started).action_day
      (connected print print_two (digits 0) new_year account (pos 0) started).next_action_day
      tick
    ≡ no_clock (
          at
            (new_year (next_day (pos 0)))
            (digits 0 (codes "00"))
            (digits 0 (codes "30"))
            (digits 0 (codes "15")))
        *ℤ pos 1000
      +ℤ pos 500
get_update_time_ms-on_front_connected_example =
    get_update_time_ms-on_front_connected print print_two (digits 0) new_year account no_clock
      (pos 0) started tick (codes "00") (codes "30") (codes "15") 2019 1 1 refl refl refl refl
      (inr (omega arith)) new_year-HasDate

heard_text-IsJson_example :
    IsJson (written (λ (x : ℤ). true) (heard_text whole_numbers (received tick)))
unfolding heard_text
heard_text-IsJson_example = heard_text-IsJson whole_numbers (λ (x : ℤ). true) (received tick) refl
