-- ===== src/Utils.antt =====
-- src/common/utils_func.h and utils_func.cpp. `mktime`, `atoi` and the clock are the C library's and
-- enter as arguments.
pub mod Laws
mod Tests
use babeltrader.Common.{
  ℕ, suc, ◌+◌, ◌-◌, ◌*◌, ◌/◌, ◌%◌, Bytes, Bool, List, [], ◌∷◌, Option, none, some, if◌then◌else◌,
  ltb, leb, length, take, drop, is_digit, ◌==◌, ◌&&◌,
}
use babeltrader.Common.Int.{ℤ, pos, ◌+ℤ◌, ◌-ℤ◌, ◌*ℤ◌, ltb_ℤ}

-- The loop of both `CTPSplitInstrument`: the bytes before the first digit, and the rest.
pub span_symbol : Bytes → Bytes × Bytes
span_symbol [] = ([], [])
span_symbol (c ∷ p) =
    let rest = span_symbol p in if is_digit c then ([], c ∷ p) else (c ∷ rest.0, rest.1)

-- `CTPSplitInstrument(instrument, std::string &symbol, std::string &contract)`. The symbol passes
-- through `buf`, 64 zero bytes: `none` is a symbol that leaves it no closing NUL.
pub split_instrument : Bytes → Option (Bytes × Bytes)
unfolding span_symbol
split_instrument instrument =
    let parts = span_symbol instrument in if ltb (length parts.0) 64 then some parts else none

-- `CTPSplitInstrument(instrument, instrument_len, char *symbol, char *contract)` into two zeroed
-- arrays of `size` bytes: `none` is a part that leaves its array no closing NUL, or overruns it.
pub split_instrument_into : ℕ → Bytes → Option (Bytes × Bytes)
unfolding span_symbol
split_instrument_into size instrument =
    let parts = span_symbol instrument in
    if ltb (length parts.0) size && ltb (length instrument - length parts.0) size
    then some parts
    else none

-- The fields of `struct tm` that the code sets; the others are 0.
pub record Tm : Type 0 where
  pub tm_year : ℤ
  pub tm_mon : ℤ
  pub tm_mday : ℤ
  pub tm_hour : ℤ
  pub tm_min : ℤ
  pub tm_sec : ℤ

-- `XTPGetTimestamp`, for a timestamp that is not negative.
pub xtp_get_timestamp : (Tm → ℤ) → ℕ → ℤ
xtp_get_timestamp mktime xtp_ts =
    let year = xtp_ts / 10000000000000 in
    let month = xtp_ts / 100000000000 % 100 in
    let day = xtp_ts / 1000000000 % 100 in
    let hour = xtp_ts / 10000000 % 100 in
    let minute = xtp_ts / 100000 % 100 in
    let sec = xtp_ts / 1000 % 100 in
    let mill = xtp_ts % 1000 in
    let utc_sec = mktime (record {
      tm_year = pos year -ℤ pos 1900;
      tm_mon = pos month -ℤ pos 1;
      tm_mday = pos day;
      tm_hour = pos hour;
      tm_min = pos minute;
      tm_sec = pos sec;
    }) in
    utc_sec *ℤ pos 1000 +ℤ pos mill

-- `CTPGetTimestamp`: the time counts only if it has the eight bytes of "hh:mm:ss". The date that
-- `atoi` reads is taken to be no negative number.
unfoldable pub ctp_get_timestamp : (Bytes → ℕ) → (Tm → ℤ) → Bytes → Bytes → ℤ → ℤ
ctp_get_timestamp atoi mktime str_date str_time millisec =
    let date = atoi str_date in
    let timed = length str_time == 8 in
    let utc_sec = mktime (record {
      tm_year = pos (date / 10000) -ℤ pos 1900;
      tm_mon = pos (date % 10000 / 100) -ℤ pos 1;
      tm_mday = pos (date % 100);
      tm_hour = if timed then pos (atoi (take 2 str_time)) else pos 0;
      tm_min = if timed then pos (atoi (take 2 (drop 3 str_time))) else pos 0;
      tm_sec = if timed then pos (atoi (drop 6 str_time)) else pos 0;
    }) in
    utc_sec *ℤ pos 1000 +ℤ millisec

-- `QuoteTransferMonitor`. Its counters start at 0: each is an object of static storage.
pub record TimeSpec : Type 0 where
  pub tv_sec : ℤ
  pub tv_nsec : ℤ

pub record QuoteTransferMonitor : Type 0 where
  pub total_pkg : ℕ
  pub total_elapsed_time : ℤ
  pub step : ℕ
  pub ts : TimeSpec

-- `start`, at the time `now` that `timespec_get` gives.
pub start : TimeSpec → QuoteTransferMonitor → QuoteTransferMonitor
start now m = record m { ts = now }

-- `end`, at the time `now`; the second part is the count and the time that it logs, if it does.
pub finish : TimeSpec → QuoteTransferMonitor → QuoteTransferMonitor × Option (ℕ × ℤ)
finish now m =
    let pkg = m.total_pkg + 1 in
    let elapsed =
      m.total_elapsed_time
      +ℤ ((now.tv_sec -ℤ m.ts.tv_sec) *ℤ pos 1000000000 +ℤ now.tv_nsec -ℤ m.ts.tv_nsec) in
    if leb m.step pkg
    then (record m { total_pkg = 0; total_elapsed_time = pos 0 }, some (pkg, elapsed))
    else (record m { total_pkg = pkg; total_elapsed_time = elapsed }, none)
