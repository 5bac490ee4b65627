-- ===== src/Kline/Tests.antt =====
-- Instances of the laws of Kline, and runs, in UTC and with whole numbers for prices.
use babeltrader.Common.{ℕ, ◌+◌, ◌*◌, ◌/◌, ◌%◌, ◌≡◌, refl, List, [], ◌∷◌, some, codes, All, arith}
use babeltrader.Common.Int.{ℤ, pos, pos_part, quot_ℤ, ◌-ℤ◌}
use babeltrader.Common.Double.{whole_numbers, whole_numbers_ordered}
use babeltrader.Common.StdMap.{lookup, bytes_key, insert}
use babeltrader.Structs.{MarketData, Kline}
use babeltrader.Kline.{KlineCache, LocalTime, Call, adds, dels, ticks, run, update_cache}
use babeltrader.Kline.Bars.{IsBar}
use babeltrader.Kline.Caches.{IsValid, run-IsValid}
use babeltrader.Kline.Summary.{
  Summarises, Holds, updates, quotes, updates-Summarises, update_cache-next_minute,
}

abbrev utc : ℤ → LocalTime
utc s = record { tm_hour = pos_part s / 3600 % 24; tm_min = pos_part s / 60 % 60 }

-- A tick at a second of the day, with price and volume.
abbrev tick : ℕ → ℕ → ℕ → MarketData ℤ
tick sec last vol = record {
  ts = pos (1546300800000 + sec * 1000);
  last = pos last;
  bid_ask_len = 0;
  bids = [];
  asks = [];
  vol = pos vol;
  turnover = pos 0;
  avg_price = pos 0;
  pre_settlement = pos 0;
  pre_close = pos 0;
  pre_open_interest = pos 0;
  settlement = pos 0;
  close = pos 0;
  open_interest = pos 0;
  upper_limit = pos 0;
  lower_limit = pos 0;
  open_price = pos 0;
  high = pos 0;
  low = pos 0;
  trading_day = [];
  action_day = [];
}

abbrev uninit : KlineCache ℤ
uninit = record {
  start_vol = pos 77;
  last_update_local_sec = pos 0;
  kline = record {
    ts = pos 1;
    open_price = pos 2;
    high = pos 3;
    low = pos 4;
    close = pos 5;
    vol = pos 6;
  };
}

abbrev day : List (Call ℤ)
day =
    adds uninit (codes "rb1905")
    ∷ ticks (pos 5) (codes "rb1905") (tick 0 100 10)
    ∷ ticks (pos 6) (codes "rb1905") (tick 20 103 12)
    ∷ ticks (pos 7) (codes "rb1905") (tick 40 101 15)
    ∷ ticks (pos 8) (codes "rb1905") (tick 61 110 20)
    ∷ dels (codes "rb1905")
    ∷ []

-- The bar of the first minute goes out with the high 110 of the second minute's first tick.
run-day :
    (run whole_numbers utc day []).1
    ≡ record {
      ts = pos 1546300820000;
      open_price = pos 100;
      high = pos 103;
      low = pos 100;
      close = pos 103;
      vol = pos 2;
    }
      ∷ record {
        ts = pos 1546300840000;
        open_price = pos 100;
        high = pos 110;
        low = pos 100;
        close = pos 101;
        vol = pos 5;
      }
      ∷ []
unfolding run quot_ℤ ◌-ℤ◌ lookup insert
run-day = refl

run-IsValid_example :
    IsValid whole_numbers whole_numbers_ordered (run whole_numbers utc day []).0
    × All (IsBar whole_numbers whole_numbers_ordered) (run whole_numbers utc day []).1
unfolding lookup
run-IsValid_example =
    run-IsValid whole_numbers whole_numbers_ordered utc day [] (omega arith) (λ key c e. cc)

abbrev rest : List (ℤ × MarketData ℤ)
rest = (pos 6, tick 20 103 12) ∷ (pos 7, tick 40 101 15) ∷ []

updates-Summarises_example :
    Summarises whole_numbers whole_numbers_ordered
      (updates whole_numbers whole_numbers_ordered utc ((pos 5, tick 0 100 10) ∷ rest) uninit).kline
      (tick 0 100 10)
      (quotes whole_numbers whole_numbers_ordered utc rest)
    × ((updates whole_numbers whole_numbers_ordered utc
          ((pos 5, tick 0 100 10) ∷ rest)
          uninit).start_vol
        ≡ pos 10)
unfolding quot_ℤ
updates-Summarises_example =
    updates-Summarises whole_numbers whole_numbers_ordered utc uninit (pos 5) (tick 0 100 10) rest
      ((refl, tt, refl), ((refl, tt, refl), ((refl, tt, refl), tt))) (λ e. cc)

abbrev third : KlineCache ℤ
third = updates whole_numbers whole_numbers_ordered utc ((pos 5, tick 0 100 10) ∷ rest) uninit

third-Holds :
    Holds whole_numbers whole_numbers_ordered utc third
      (pos 10)
      (tick 0 100 10)
      (quotes whole_numbers whole_numbers_ordered utc rest)
unfolding update_cache quot_ℤ
third-Holds = (refl, updates-Summarises_example.0, refl)

update_cache-next_minute_example :
    (k : Kline ℤ) × ((update_cache whole_numbers utc (pos 8) (tick 61 110 20) third).1 ≡ some k)
    × (k.open_price ≡ pos 100)
    × (k.close ≡ pos 101)
unfolding update_cache quot_ℤ
update_cache-next_minute_example =
    let r =
      update_cache-next_minute whole_numbers whole_numbers_ordered utc (pos 8) (tick 61 110 20)
        third (pos 10) (tick 0 100 10) (quotes whole_numbers whole_numbers_ordered utc rest)
        third-Holds refl (tt, (tt, (tt, tt))) tt in
    (r.0, r.1, r.2, r.3)
