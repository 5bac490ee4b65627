-- ===== src/CtpQuotes/Days.antt =====
-- The time of a tick of the night (src/ctp-quotes/ctp_quote_handler.cpp): the day comes from
-- `initActionDay` as a text, which `GetUpdateTimeMs` reads back.
use babeltrader.Common.{
  ℕ, ◌+◌, ◌*◌, ◌<◌, ◌≡◌, refl, ap, ◌∙◌, ◌⊎◌, inl, inr, Bytes, true, false, ◌∷◌, ◌++◌, length, take,
  ltb, if◌then◌else◌, arith,
}
use babeltrader.Common.Int.{ℤ, pos, ◌+ℤ◌, ◌-ℤ◌, ◌*ℤ◌}
use babeltrader.Utils.{Tm, ctp_get_timestamp}
use babeltrader.Utils.Laws.{two_bytes, ctp_get_timestamp-fields}
use babeltrader.CtpQuotes.{CtpQuotes}
use babeltrader.CtpQuotes.Depth.{DepthMarketData, tick_day, get_update_time_ms}
use babeltrader.CtpQuotes.Connection.{
  CtpQuoteConf, day_text, next_day, on_front_connected, init_action_day, do_login,
}

-- The date of `t` at this time of day.
abbrev pub at : Tm → ℕ → ℕ → ℕ → Tm
at t hour minute sec = record t { tm_hour = pos hour; tm_min = pos minute; tm_sec = pos sec }

-- `CTPGetTimestamp` counts the years from 1900 and the months from 0.
abbrev of_date : ℕ → ℕ → ℕ → Tm
of_date year month day = record {
  tm_year = pos year -ℤ pos 1900;
  tm_mon = pos month -ℤ pos 1;
  tm_mday = pos day;
  tm_hour = pos 0;
  tm_min = pos 0;
  tm_sec = pos 0;
}

-- Behind 20h the connection's day, before 8h the day after it.
abbrev pub night : (ℤ → Tm) → ℤ → ℕ → Tm
night gmtime now hour = if ltb 20 hour then gmtime now else gmtime (next_day now)

abbrev pub clock_text : Bytes → Bytes → Bytes → Bytes
clock_text hh mm ss = hh ++ b':' ∷ (mm ++ b':' ∷ ss)

hour_text : (hh mm ss : Bytes) → length hh ≡ 2 → take 2 (clock_text hh mm ss) ≡ hh
hour_text hh mm ss h = let (a, b, e) = two_bytes hh h in rw e refl

length-clock_text :
    (hh mm ss : Bytes)
    → length hh ≡ 2
    → length mm ≡ 2
    → length ss ≡ 2
    → length (clock_text hh mm ss) ≡ 8
length-clock_text hh mm ss h m s =
    let (a, a', ea) = two_bytes hh h in
    let (b, b', eb) = two_bytes mm m in let (c, c', ec) = two_bytes ss s in rw (ea, eb, ec) refl

module _ (print print_two : ℤ → Bytes) (atoi : Bytes → ℕ) where
  -- `gmtime_r` gives this date, and `atoi` reads the digits that `snprintf` writes for it.
  pub record HasDate (t : Tm) (year month day : ℕ) : Type 0 where
    pub year_of : t.tm_year ≡ pos year -ℤ pos 1900
    pub month_of : t.tm_mon ≡ pos month -ℤ pos 1
    pub day_of : t.tm_mday ≡ pos day
    pub month_small : month < 100
    pub day_small : day < 100
    pub reads : atoi (day_text print print_two t) ≡ year * 10000 + month * 100 + day

  stamp-of_date :
      (mktime : Tm → ℤ) (t : Tm) (hh mm ss : Bytes) (year month day : ℕ) (millisec : ℤ)
      → HasDate t year month day
      → length hh ≡ 2
      → length mm ≡ 2
      → length ss ≡ 2
      → ctp_get_timestamp atoi mktime (day_text print print_two t) (clock_text hh mm ss) millisec
        ≡ mktime (at t (atoi hh) (atoi mm) (atoi ss)) *ℤ pos 1000 +ℤ millisec
  stamp-of_date mktime t hh mm ss year month day millisec h lh lm ls =
      let same : at (of_date year month day) (atoi hh) (atoi mm) (atoi ss)
          ≡ at t (atoi hh) (atoi mm) (atoi ss) =
        rw (h.year_of, h.month_of, h.day_of) refl in
      ctp_get_timestamp-fields atoi mktime (day_text print print_two t) hh mm ss year month day
        millisec h.reads h.month_small h.day_small lh lm ls
      ∙ ap (λ (x : Tm). mktime x *ℤ pos 1000 +ℤ millisec) same

  module _ {D : Type 0} (gmtime : ℤ → Tm) (conf : CtpQuoteConf) where
    abbrev pub connected : ℤ → CtpQuotes D → CtpQuotes D
    unfolding on_front_connected
    connected now s = (on_front_connected print print_two gmtime conf now s).0

    tick_day-night :
        (now : ℤ) (s : CtpQuotes D) (d : DepthMarketData D) (hh mm ss : Bytes)
        → length hh ≡ 2
        → length mm ≡ 2
        → length ss ≡ 2
        → d.update_time ≡ clock_text hh mm ss
        → (20 < atoi hh) ⊎ (atoi hh < 8)
        → tick_day atoi (connected now s).action_day (connected now s).next_action_day d
          ≡ day_text print print_two (night gmtime now (atoi hh))
    unfolding tick_day on_front_connected init_action_day do_login
    tick_day-night now s d hh mm ss lh lm ls e (inl late) =
        let behind : ltb 20 (atoi hh) ≡ true = ground arith in
        rw (e, length-clock_text hh mm ss lh lm ls, hour_text hh mm ss lh, behind) refl
    tick_day-night now s d hh mm ss lh lm ls e (inr early) =
        let not_behind : ltb 20 (atoi hh) ≡ false = ground arith in
        let before : ltb (atoi hh) 8 ≡ true = ground arith in
        rw (e, length-clock_text hh mm ss lh lm ls, hour_text hh mm ss lh, not_behind, before) refl

    -- A tick with a time "hh:mm:ss" behind 20h or before 8h gets the timestamp of the UTC date of the
    -- last connection or of the day after it, at that time of day: the date that `gmtime_r` gives, that
    -- `snprintf` writes and that `atoi` reads back.
    pub get_update_time_ms-on_front_connected :
        (mktime : Tm → ℤ) (now : ℤ) (s : CtpQuotes D) (d : DepthMarketData D) (hh mm ss : Bytes)
        (year month day : ℕ)
        → length hh ≡ 2
        → length mm ≡ 2
        → length ss ≡ 2
        → d.update_time ≡ clock_text hh mm ss
        → (20 < atoi hh) ⊎ (atoi hh < 8)
        → HasDate (night gmtime now (atoi hh)) year month day
        → get_update_time_ms atoi mktime
            (connected now s).action_day
            (connected now s).next_action_day
            d
          ≡ mktime (at (night gmtime now (atoi hh)) (atoi hh) (atoi mm) (atoi ss)) *ℤ pos 1000
            +ℤ d.update_millisec
    unfolding get_update_time_ms
    get_update_time_ms-on_front_connected mktime now s d hh mm ss year month day lh lm ls e h date =
        rw (tick_day-night now s d hh mm ss lh lm ls e h, e)
          (stamp-of_date mktime (night gmtime now (atoi hh)) hh mm ss year month day
            d.update_millisec date lh lm ls)
