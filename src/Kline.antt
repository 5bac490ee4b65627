-- ===== src/Kline.antt =====
-- src/common/kline_builder.h and kline_builder.cpp: `KlineBuilder`, which folds the ticks of each
-- subscribed instrument into one-minute bars. `localtime_r` is the C library's, and depends on the
-- time zone: it is an argument. A bar that `updateMarketData` writes to its out parameter is the
-- second part of the result; `none` is its `false`, which leaves the parameter alone.
pub mod Keys
pub mod Bars
pub mod Caches
pub mod Summary
mod Tests
use babeltrader.Common.{
  ℕ, Bytes, Bool, true, false, not, List, [], ◌∷◌, Option, none, some, if◌then◌else◌, ◌==◌, ◌||◌,
}
use babeltrader.Common.Int.{ℤ, pos, eqb_ℤ, quot_ℤ}
use babeltrader.Common.Double.{Double}
use babeltrader.Common.StdMap.{StdMap, bytes_key, lookup, insert, erase}
use babeltrader.Structs.{MarketData, Kline}

pub record KlineCache (D : Type 0) : Type 0 where
  pub start_vol : ℤ
  pub last_update_local_sec : ℤ
  pub kline : Kline D

abbrev pub KlineBuilder : Type 0 → Type 0
KlineBuilder D = StdMap Bytes (KlineCache D)

-- The fields of `struct tm` that are compared.
pub record LocalTime : Type 0 where
  pub tm_hour : ℕ
  pub tm_min : ℕ

-- `add`. A new cache is a local variable of which one field is set; `uninit` is what the others hold.
pub add : {D : Type 0} → KlineCache D → Bytes → KlineBuilder D → KlineBuilder D
add uninit key caches = elim (lookup key caches) [
  | none ↦ insert key (record uninit { last_update_local_sec = pos 0 }) caches
  | some _ ↦ caches
]

pub del : {D : Type 0} → Bytes → KlineBuilder D → KlineBuilder D
del key caches = erase key caches

-- Whether the tick stands in another minute of the clock than the bar's last tick.
pub minute_update : {D : Type 0} → (ℤ → LocalTime) → Kline D → MarketData D → Bool
minute_update localtime k md =
    let last_tm = localtime (quot_ℤ k.ts 1000) in
    let curr_tm = localtime (quot_ℤ md.ts 1000) in
    not (last_tm.tm_min == curr_tm.tm_min) || not (last_tm.tm_hour == curr_tm.tm_hour)

module _ (F : Double) where
  open F use {D, lt, sub, of_int, to_int}

  -- The part of `updateMarketData` behind "first time update".
  pub first_update : ℤ → MarketData D → KlineCache D
  first_update cur_local_sec md = record {
    start_vol = to_int md.vol;
    last_update_local_sec = cur_local_sec;
    kline = record {
      ts = md.ts;
      open_price = md.last;
      high = md.last;
      low = md.last;
      close = md.last;
      vol = md.vol;
    };
  }

  -- "check vol update": the bar with the tick's price taken into its range.
  pub widen : Kline D → MarketData D → Kline D
  widen k md = record k {
    high = if lt k.high md.last then md.last else k.high;
    low = if lt md.last k.low then md.last else k.low;
  }

  -- Its flag `val_update`; the second test reads a low that the first leaves alone.
  pub val_update : Kline D → MarketData D → Bool
  val_update k md = lt k.high md.last || lt md.last k.low

  -- The branch `if (minute_update)`: the bar goes out, and the tick starts the next one.
  pub next_bar : ℤ → MarketData D → KlineCache D → KlineCache D × Option (Kline D)
  next_bar cur_local_sec md cache = (
    record {
      start_vol = to_int cache.kline.vol;
      last_update_local_sec = cur_local_sec;
      kline = record {
        ts = md.ts;
        open_price = md.last;
        high = md.last;
        low = md.last;
        close = md.last;
        vol = md.vol;
      };
    },
    some (record cache.kline { vol = sub cache.kline.vol (of_int cache.start_vol) }),
  )

  -- The tick joins the bar, which goes out if `grown`.
  pub same_bar : Bool → ℤ → MarketData D → KlineCache D → KlineCache D × Option (Kline D)
  same_bar grown cur_local_sec md cache =
      let k : Kline D = record cache.kline { close = md.last; ts = md.ts; vol = md.vol } in
      (
        record cache { last_update_local_sec = cur_local_sec; kline = k },
        if grown then some (record k { vol = sub md.vol (of_int cache.start_vol) }) else none,
      )

module _ (F : Double) (localtime : ℤ → LocalTime) where
  open F use {D}

  -- The rest of `updateMarketData`, on a cache that has been found.
  pub update_cache : ℤ → MarketData D → KlineCache D → KlineCache D × Option (Kline D)
  unfolding first_update minute_update widen val_update next_bar same_bar
  update_cache cur_local_sec md cache =
      if eqb_ℤ cache.last_update_local_sec (pos 0)
      then (first_update F cur_local_sec md, none)
      else (let widened : KlineCache D = record cache { kline = widen F cache.kline md } in
          if minute_update localtime cache.kline md
          then next_bar F cur_local_sec md widened
          else same_bar F (val_update F cache.kline md) cur_local_sec md widened)

  pub update_market_data :
      ℤ → Bytes → MarketData D → KlineBuilder D → KlineBuilder D × Option (Kline D)
  unfolding update_cache
  update_market_data cur_local_sec key md caches = elim (lookup key caches) [
    | none ↦ (caches, none)
    | some cache ↦ let r = update_cache cur_local_sec md cache in (insert key r.0 caches, r.1)
  ]

abbrev pub emit : {A : Type 0} → Option A → List A → List A
emit none rest = rest
emit (some a) rest = a ∷ rest

-- The calls that the quote handlers make.
pub data Call (D : Type 0) : Type 0 where
  adds : KlineCache D → Bytes → Call D
  dels : Bytes → Call D
  ticks : ℤ → Bytes → MarketData D → Call D

module _ (F : Double) (localtime : ℤ → LocalTime) where
  open F use {D}

  pub call : Call D → KlineBuilder D → KlineBuilder D × Option (Kline D)
  unfolding add del update_market_data
  call (adds uninit key) caches = (add uninit key caches, none)
  call (dels key) caches = (del key caches, none)
  call (ticks cur_local_sec key md) caches =
      update_market_data F localtime cur_local_sec key md caches

  -- A history of calls: the caches behind it, and the bars that went out, in their order.
  pub run : List (Call D) → KlineBuilder D → KlineBuilder D × List (Kline D)
  unfolding call
  run [] caches = (caches, [])
  run (c ∷ cs) caches =
      let (caches', out) = call c caches in
      let (last, rest) = run cs caches' in (last, emit out rest)
