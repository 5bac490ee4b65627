-- ===== src/Kline/Bars.antt =====
-- The prices of a bar (src/common/kline_builder.cpp): what a tick keeps of them.
use babeltrader.Common.{false, ◌≡◌, inl, inr, arith, Bool-cases}
use babeltrader.Common.Int.{ℤ}
use babeltrader.Common.Double.{Double, Ordered}
use babeltrader.Common.StdMap.{bytes_key}
use babeltrader.Structs.{MarketData, Kline}
use babeltrader.Kline.{widen}

module _ (F : Double) (o : Ordered F) where
  open F use {D, lt}
  open o use {is_number, lt_asymm, le_trans}

  abbrev pub le : D → D → Type 0
  le a b = lt b a ≡ false

  -- The prices are numbers, and the first and the last lie between the lowest and the highest.
  pub record IsBar (k : Kline D) : Type 0 where
    pub open_number : is_number k.open_price
    pub high_number : is_number k.high
    pub low_number : is_number k.low
    pub close_number : is_number k.close
    pub low_open : le k.low k.open_price
    pub open_high : le k.open_price k.high
    pub low_close : le k.low k.close
    pub close_high : le k.close k.high

  pub lt_irrefl : (a : D) → is_number a → lt a a ≡ false
  lt_irrefl a n = ground (arith, lt_asymm a a n n)

  pub flat-IsBar :
      (k : Kline D) (a : D)
      → is_number a
      → IsBar (record k { open_price = a; high = a; low = a; close = a })
  flat-IsBar k a n =
      let r = lt_irrefl a n in
      record {
        open_number = n;
        high_number = n;
        low_number = n;
        close_number = n;
        low_open = r;
        open_high = r;
        low_close = r;
        close_high = r;
      }

  pub widen-high :
      (k : Kline D) (md : MarketData D) (x : D)
      → is_number x
      → is_number k.high
      → is_number md.last
      → le x k.high
      → le x (widen F k md).high
  unfolding widen
  widen-high k md x nx nh nl h =
      ground (arith, lt_asymm k.high md.last nh nl, le_trans x k.high md.last nx nh nl)

  pub widen-low :
      (k : Kline D) (md : MarketData D) (x : D)
      → is_number x
      → is_number k.low
      → is_number md.last
      → le k.low x
      → le (widen F k md).low x
  unfolding widen
  widen-low k md x nx nh nl h =
      ground (arith, lt_asymm md.last k.low nl nh, le_trans md.last k.low x nl nh nx)

  pub widen-high_number :
      (k : Kline D) (md : MarketData D)
      → is_number md.last
      → IsBar k
      → is_number (widen F k md).high
  unfolding widen
  widen-high_number k md n b = elim (Bool-cases (lt k.high md.last)) [
    | inl e ↦ rw e n
    | inr e ↦ rw e b.high_number
  ]

  pub widen-low_number :
      (k : Kline D) (md : MarketData D) → is_number md.last → IsBar k → is_number (widen F k md).low
  unfolding widen
  widen-low_number k md n b = elim (Bool-cases (lt md.last k.low)) [
    | inl e ↦ rw e n
    | inr e ↦ rw e b.low_number
  ]

  pub widen-last_high :
      (k : Kline D) (md : MarketData D) → is_number md.last → le md.last (widen F k md).high
  unfolding widen
  widen-last_high k md n = ground (arith, lt_irrefl md.last n)

  pub widen-low_last :
      (k : Kline D) (md : MarketData D) → is_number md.last → le (widen F k md).low md.last
  unfolding widen
  widen-low_last k md n = ground (arith, lt_irrefl md.last n)

  -- The range takes the tick's price in, and loses nothing.
  pub widen-IsBar :
      (k : Kline D) (md : MarketData D) → is_number md.last → IsBar k → IsBar (widen F k md)
  widen-IsBar k md n b = record {
    open_number = unfold widen in b.open_number;
    high_number = widen-high_number k md n b;
    low_number = widen-low_number k md n b;
    close_number = unfold widen in b.close_number;
    low_open = unfold widen in widen-low k md k.open_price b.open_number b.low_number n b.low_open;
    open_high =
        unfold widen in widen-high k md k.open_price b.open_number b.high_number n b.open_high;
    low_close = unfold widen in widen-low k md k.close b.close_number b.low_number n b.low_close;
    close_high =
        unfold widen in widen-high k md k.close b.close_number b.high_number n b.close_high;
  }

  -- So the bar that the tick closes at is a bar again.
  pub closed_at-IsBar :
      (k : Kline D) (md : MarketData D) (ts : ℤ) (vol : D)
      → is_number md.last
      → IsBar k
      → IsBar (record (widen F k md) { close = md.last; ts = ts; vol = vol })
  closed_at-IsBar k md ts vol n b =
      let w = widen-IsBar k md n b in
      record {
        open_number = w.open_number;
        high_number = w.high_number;
        low_number = w.low_number;
        close_number = n;
        low_open = w.low_open;
        open_high = w.open_high;
        low_close = widen-low_last k md n;
        close_high = widen-last_high k md n;
      }

  pub vol-IsBar : (k : Kline D) (vol : D) → IsBar k → IsBar (record k { vol = vol })
  vol-IsBar k vol b = record {
    open_number = b.open_number;
    high_number = b.high_number;
    low_number = b.low_number;
    close_number = b.close_number;
    low_open = b.low_open;
    open_high = b.open_high;
    low_close = b.low_close;
    close_high = b.close_high;
  }
