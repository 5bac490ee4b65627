-- ===== src/Kline/Caches.antt =====
-- What every call keeps of the caches, and what it says of the bars that go out
-- (src/common/kline_builder.cpp).
use babeltrader.Common.{
  Bytes, List, [], ◌∷◌, All, false, ◌≡◌, inl, inr, Option, none, some, arith, Option-cases,
  if_cases,
}
use babeltrader.Common.Int.{ℤ, pos, eqb_ℤ}
use babeltrader.Common.Double.{Double, Ordered}
use babeltrader.Common.StdMap.{bytes_key, lookup, Every-insert, Every-erase}
use babeltrader.Structs.{MarketData, Kline}
use babeltrader.Kline.{
  KlineCache, KlineBuilder, LocalTime, add, minute_update, widen, val_update, update_cache,
  update_market_data, Call, adds, dels, ticks, call, run, emit,
}
use babeltrader.Kline.Bars.{IsBar, widen-IsBar, flat-IsBar, closed_at-IsBar, vol-IsBar}

module _ (F : Double) (o : Ordered F) where
  open F use {D, lt}
  open o use {is_number, lt_asymm, le_trans}

  -- A cache that a tick has reached holds a bar.
  abbrev pub CacheIsValid : KlineCache D → Type 0
  CacheIsValid c = eqb_ℤ c.last_update_local_sec (pos 0) ≡ false → IsBar F o c.kline

  abbrev pub IsValid : KlineBuilder D → Type 0
  IsValid caches = (key : Bytes) (c : KlineCache D) → lookup key caches ≡ some c → CacheIsValid c

  -- What goes out, if anything does, is a bar.
  abbrev pub Emits : Option (Kline D) → Type 0
  Emits none = Unit
  Emits (some k) = IsBar F o k

  -- The price of a tick is a number.
  abbrev pub IsQuoted : Call D → Type 0
  IsQuoted (adds uninit key) = Unit
  IsQuoted (dels key) = Unit
  IsQuoted (ticks cur key md) = is_number md.last

  module _ (localtime : ℤ → LocalTime) where
    Keeps : KlineCache D × Option (Kline D) → Type 0
    Keeps r = CacheIsValid r.0 × Emits r.1

    pub start_bar : MarketData D → Kline D
    start_bar md = record {
      ts = md.ts;
      open_price = md.last;
      high = md.last;
      low = md.last;
      close = md.last;
      vol = md.vol;
    }

    pub start_bar-IsBar : (md : MarketData D) → is_number md.last → IsBar F o (start_bar md)
    unfolding start_bar
    start_bar-IsBar md n = flat-IsBar F o (start_bar md) md.last n

    update_cache-Keeps :
        (cur : ℤ) (md : MarketData D) (c : KlineCache D)
        → is_number md.last
        → CacheIsValid c
        → Keeps (update_cache F localtime cur md c)
    unfolding update_cache Keeps start_bar-IsBar start_bar
    update_cache-Keeps cur md c n v =
        if_cases Keeps (eqb_ℤ c.last_update_local_sec (pos 0)) _ _
          (λ _. (λ _. start_bar-IsBar md n, tt))
          λ live.
            if_cases Keeps (minute_update localtime c.kline md) _ _
              (λ _. (
                λ _. start_bar-IsBar md n,
                vol-IsBar F o (widen F c.kline md) _ (widen-IsBar F o c.kline md n (v live)),
              ))
              λ _. (
                λ _. closed_at-IsBar F o c.kline md md.ts md.vol n (v live),
                if_cases Emits (val_update F c.kline md) _ none
                    (λ _. closed_at-IsBar F o c.kline md md.ts _ n (v live)) (λ _. tt),
              )

    add-IsValid :
        (uninit : KlineCache D) (key : Bytes) (m : KlineBuilder D)
        → IsValid m
        → IsValid (add uninit key m)
    unfolding add
    add-IsValid uninit key m v = elim (Option-cases (lookup key m)) [
      | inl e ↦ rw (e, add) (Every-insert CacheIsValid key _ m (λ h. ground arith) v)
      | inr (c, e) ↦ rw (e, add) v
    ]

    update_market_data-IsValid :
        (cur : ℤ) (key : Bytes) (md : MarketData D) (m : KlineBuilder D)
        → is_number md.last
        → IsValid m
        → IsValid (update_market_data F localtime cur key md m).0
          × Emits (update_market_data F localtime cur key md m).1
    unfolding update_market_data Keeps
    update_market_data-IsValid cur key md m n v = elim (Option-cases (lookup key m)) [
      | inl e ↦ rw (e, update_market_data) (v, tt)
      | inr (c, e) ↦
          let kept = update_cache-Keeps cur md c n (v key c e) in
          rw (e, update_market_data) (Every-insert CacheIsValid key _ m kept.0 v, kept.1)
    ]

    -- Every call keeps the caches valid, and a bar that it lets out lies within its range, if the
    -- prices of the ticks are numbers.
    pub call-IsValid :
        (c : Call D) (m : KlineBuilder D)
        → IsQuoted c
        → IsValid m
        → IsValid (call F localtime c m).0 × Emits (call F localtime c m).1
    unfolding call
    call-IsValid (adds uninit key) m q v = (add-IsValid uninit key m v, tt)
    call-IsValid (dels key) m q v = (Every-erase CacheIsValid key m v, tt)
    call-IsValid (ticks cur key md) m q v = update_market_data-IsValid cur key md m q v

    All-emit :
        (out : Option (Kline D)) (ks : List (Kline D))
        → Emits out
        → All (IsBar F o) ks
        → All (IsBar F o) (emit out ks)
    All-emit none ks e h = h
    All-emit (some k) ks e h = (e, h)

    -- After any history of calls from valid caches, if the prices of the ticks are numbers, the caches
    -- are valid again, and every bar that went out has numbers for prices, its open and its close
    -- between its low and its high. A cache is valid if it holds such a bar or no tick has reached it.
    pub run-IsValid :
        (cs : List (Call D)) (m : KlineBuilder D)
        → All IsQuoted cs
        → IsValid m
        → IsValid (run F localtime cs m).0 × All (IsBar F o) (run F localtime cs m).1
    unfolding run
    run-IsValid [] m q v = (v, tt)
    run-IsValid (c ∷ cs) m q v =
        let first = call-IsValid c m q.0 v in
        let rest = run-IsValid cs (call F localtime c m).0 q.1 first.0 in
        (rest.0, All-emit (call F localtime c m).1 _ first.1 rest.1)
