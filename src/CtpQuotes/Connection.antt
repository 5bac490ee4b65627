-- ===== src/CtpQuotes/Connection.antt =====
-- The connection of `CTPQuoteHandler` (src/ctp-quotes/ctp_quote_handler.cpp, conf.h): its login, and the
-- days to which it takes the ticks of the night. `gmtime` is `gmtime_r`; `print` and `print_two` are
-- what `snprintf` makes of `%d` and `%02d`.
use babeltrader.Common.{ℕ, ◌+◌, Bytes, List, ◌++◌, take}
use babeltrader.Common.Int.{ℤ, pos, ◌+ℤ◌}
use babeltrader.Utils.{Tm}
use babeltrader.CtpTrade.Fields.Session.{ReqUserLoginField}
use babeltrader.CtpQuotes.{CtpQuotes, load_topics}

-- `CTPQuoteConf`, less what the sockets use.
pub record CtpQuoteConf : Type 0 where
  pub broker_id : Bytes
  pub user_id : Bytes
  pub password : Bytes
  pub default_sub_topics : List Bytes

-- A day in an array of 32 bytes.
unfoldable pub day_text : (ℤ → Bytes) → (ℤ → Bytes) → Tm → Bytes
day_text print print_two t =
    take 30
      (print (t.tm_year +ℤ pos 1900) ++ (print_two (t.tm_mon +ℤ pos 1) ++ print_two t.tm_mday))

abbrev pub next_day : ℤ → ℤ
next_day now = now +ℤ pos 86400

module _ {D : Type 0} (print print_two : ℤ → Bytes) (gmtime : ℤ → Tm) (conf : CtpQuoteConf) where
  -- The members as the constructor leaves them, where `run` begins; the arrays of the days are not set.
  unfoldable pub run : CtpQuotes D → CtpQuotes D
  unfolding load_topics
  run s = load_topics conf.default_sub_topics s

  -- At the time `now`.
  unfoldable pub init_action_day : ℤ → CtpQuotes D → CtpQuotes D
  init_action_day now s = record s {
    action_day = day_text print print_two (gmtime now);
    next_action_day = day_text print print_two (gmtime (next_day now));
  }

  -- The second part is the argument of `ReqUserLogin`, with the number of the request.
  unfoldable pub do_login : CtpQuotes D → CtpQuotes D × (ReqUserLoginField × ℕ)
  do_login s = (
    record s { req_id = s.req_id + 1 },
    (
      record {
        broker_id = take 10 conf.broker_id;
        user_id = take 15 conf.user_id;
        password = take 40 conf.password;
      },
      s.req_id,
    ),
  )

  unfoldable pub on_front_connected : ℤ → CtpQuotes D → CtpQuotes D × (ReqUserLoginField × ℕ)
  unfolding init_action_day do_login
  on_front_connected now s = do_login (init_action_day now s)
