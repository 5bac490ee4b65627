-- ===== src/Utils/Tests.antt =====
-- Instances of the laws of Utils.
use babeltrader.Common.{
  ℕ, ◌+◌, ◌-◌, ◌*◌, ◌<◌, ◌≡◌, ◌↔◌, ◌⊎◌, Bytes, codes, [], ◌∷◌, ◌++◌, none, some, length, All, arith,
}
use babeltrader.Common.Int.{ℤ, pos, ◌+ℤ◌, ◌-ℤ◌, ◌*ℤ◌}
use babeltrader.Utils.{
  split_instrument, Tm, xtp_get_timestamp, ctp_get_timestamp, TimeSpec, QuoteTransferMonitor,
  finish,
}
use babeltrader.Utils.Laws.{
  IsLetter, IsContract, split_instrument_iff, xtp_get_timestamp-fields, ctp_get_timestamp-fields,
  finish-count,
}

split_instrument_iff_example :
    (split_instrument (codes "rb1905") ≡ some (codes "rb", codes "1905")) ↔ (
      (codes "rb" ++ codes "1905" ≡ codes "rb1905")
      × All IsLetter (codes "rb")
      × IsContract (codes "1905")
      × (length (codes "rb") < 64))
split_instrument_iff_example = split_instrument_iff (codes "rb1905") (codes "rb") (codes "1905")

-- A clock for tests, which gives the second of the day.
abbrev clock : Tm → ℤ
clock t = t.tm_hour *ℤ pos 3600 +ℤ t.tm_min *ℤ pos 60 +ℤ t.tm_sec

xtp_get_timestamp-fields_example :
    xtp_get_timestamp clock
      ((((((2019 * 100 + 1) * 100 + 31) * 100 + 9) * 100 + 30) * 100 + 15) * 1000 + 500)
    ≡ clock (record {
      tm_year = pos 2019 -ℤ pos 1900;
      tm_mon = pos 1 -ℤ pos 1;
      tm_mday = pos 31;
      tm_hour = pos 9;
      tm_min = pos 30;
      tm_sec = pos 15;
    })
        *ℤ pos 1000
      +ℤ pos 500
xtp_get_timestamp-fields_example =
    xtp_get_timestamp-fields clock 2019 1 31 9 30 15 500 (omega arith) (omega arith) (omega arith)
      (omega arith) (omega arith) (omega arith)

-- Digits read as a number.
abbrev digits : ℕ → Bytes → ℕ
digits n [] = n
digits n (c ∷ s) = digits (n * 10 + (c - 48)) s

ctp_get_timestamp-fields_example :
    ctp_get_timestamp
      (digits 0)
      clock
      (codes "20190131")
      (codes "09" ++ b':' ∷ (codes "30" ++ b':' ∷ codes "15"))
      (pos 500)
    ≡ clock (record {
      tm_year = pos 2019 -ℤ pos 1900;
      tm_mon = pos 1 -ℤ pos 1;
      tm_mday = pos 31;
      tm_hour = pos (digits 0 (codes "09"));
      tm_min = pos (digits 0 (codes "30"));
      tm_sec = pos (digits 0 (codes "15"));
    })
        *ℤ pos 1000
      +ℤ pos 500
ctp_get_timestamp-fields_example =
    ctp_get_timestamp-fields (digits 0) clock (codes "20190131") (codes "09") (codes "30")
      (codes "15") 2019 1 31 (pos 500) (omega arith) (omega arith) (omega arith) (omega arith)
      (omega arith) (omega arith)

abbrev later : TimeSpec
later = record { tv_sec = pos 2; tv_nsec = pos 0 }

abbrev monitor : QuoteTransferMonitor
monitor = record {
  total_pkg = 7;
  total_elapsed_time = pos 100;
  step = 8;
  ts = record { tv_sec = pos 1; tv_nsec = pos 5 };
}

finish-count_example :
    ((finish later monitor).0.total_pkg < 8)
    × ((finish later monitor).0.step ≡ 8)
    × ((((finish later monitor).1 ≡ none) × ((finish later monitor).0.total_pkg ≡ 8))
        ⊎ ((t : ℤ) × ((finish later monitor).1 ≡ some (8, t))
            × ((finish later monitor).0.total_pkg ≡ 0)))
finish-count_example = finish-count later monitor (omega arith)
