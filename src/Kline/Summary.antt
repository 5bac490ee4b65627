-- ===== src/Kline/Summary.antt =====
-- A bar against the list of the ticks that it stands for (src/common/kline_builder.cpp).
use babeltrader.Common.{
  ◌≡◌, refl, ap, sym, ◌∙◌, if◌then◌else◌, Bool-cases, List, [], ◌∷◌, ◌++◌, inl, inr, if_cases, All,
  Any, All-append, true, false, arith, some, append_assoc, append-nil, Any-append_left,
  Any-append_right,
}
use babeltrader.Common.Int.{ℤ, pos, eqb_ℤ, quot_ℤ}
use babeltrader.Common.Double.{Double, Ordered}
use babeltrader.Structs.{MarketData, Kline}
use babeltrader.Kline.{KlineCache, LocalTime, minute_update, widen, update_cache}
use babeltrader.Kline.Bars.{le, widen-high, widen-low, widen-last_high, widen-low_last, lt_irrefl}

-- The last of the ticks.
abbrev pub last_of : {D : Type 0} → MarketData D → List (MarketData D) → MarketData D
last_of t [] = t
last_of t (u ∷ us) = last_of u us

last_of-append :
    {D : Type 0} (t u : MarketData D) (ts : List (MarketData D)) → last_of t (ts ++ u ∷ []) ≡ u
last_of-append t u [] = refl
last_of-append t u (v ∷ ts) = last_of-append v u ts

module _ (F : Double) (o : Ordered F) where
  open F use {D, lt}
  open o use {is_number}

  -- Every price of the ticks lies in the bar's range, whose ends occur among them; the open is the
  -- first price, and the close, the time and the volume are the last tick's.
  pub record Summarises (k : Kline D) (t : MarketData D) (ts : List (MarketData D)) : Type 0 where
    pub opens : k.open_price ≡ t.last
    pub below : All (λ (u : MarketData D). le F o u.last k.high) (t ∷ ts)
    pub above : All (λ (u : MarketData D). le F o k.low u.last) (t ∷ ts)
    pub high_occurs : Any (λ (u : MarketData D). u.last ≡ k.high) (t ∷ ts)
    pub low_occurs : Any (λ (u : MarketData D). u.last ≡ k.low) (t ∷ ts)
    pub closes : k.close ≡ (last_of t ts).last
    pub timed : k.ts ≡ (last_of t ts).ts
    pub counted : k.vol ≡ (last_of t ts).vol

  abbrev pub Quoted : List (MarketData D) → Type 0
  Quoted = All (λ (u : MarketData D). is_number u.last)

  Any-number :
      (a : D) (ts : List (MarketData D))
      → Quoted ts
      → Any (λ (u : MarketData D). u.last ≡ a) ts
      → is_number a
  Any-number a [] q h = absurd h
  Any-number a (t ∷ ts) q (inl e) = rw (← e) q.0
  Any-number a (t ∷ ts) q (inr h) = Any-number a ts q.1 h

  below-widen :
      (k : Kline D) (md : MarketData D) (ts : List (MarketData D))
      → is_number k.high
      → is_number md.last
      → Quoted ts
      → All (λ (u : MarketData D). le F o u.last k.high) ts
      → All (λ (u : MarketData D). le F o u.last (widen F k md).high) ts
  below-widen k md [] nh n q h = tt
  below-widen k md (t ∷ ts) nh n q h =
      (widen-high F o k md t.last q.0 nh n h.0, below-widen k md ts nh n q.1 h.1)

  above-widen :
      (k : Kline D) (md : MarketData D) (ts : List (MarketData D))
      → is_number k.low
      → is_number md.last
      → Quoted ts
      → All (λ (u : MarketData D). le F o k.low u.last) ts
      → All (λ (u : MarketData D). le F o (widen F k md).low u.last) ts
  above-widen k md [] nh n q h = tt
  above-widen k md (t ∷ ts) nh n q h =
      (widen-low F o k md t.last q.0 nh n h.0, above-widen k md ts nh n q.1 h.1)

  high-widen :
      (k : Kline D) (md : MarketData D) (ts : List (MarketData D))
      → Any (λ (u : MarketData D). u.last ≡ k.high) ts
      → Any (λ (u : MarketData D). u.last ≡ (widen F k md).high) (ts ++ md ∷ [])
  unfolding widen
  high-widen k md ts h =
      if_cases (λ a. Any (λ (u : MarketData D). u.last ≡ a) (ts ++ md ∷ [])) (lt k.high md.last)
        md.last k.high (λ _. Any-append_right _ ts (md ∷ []) (inl refl))
        (λ _. Any-append_left _ ts (md ∷ []) h)

  low-widen :
      (k : Kline D) (md : MarketData D) (ts : List (MarketData D))
      → Any (λ (u : MarketData D). u.last ≡ k.low) ts
      → Any (λ (u : MarketData D). u.last ≡ (widen F k md).low) (ts ++ md ∷ [])
  unfolding widen
  low-widen k md ts h =
      if_cases (λ a. Any (λ (u : MarketData D). u.last ≡ a) (ts ++ md ∷ [])) (lt md.last k.low)
        md.last k.low (λ _. Any-append_right _ ts (md ∷ []) (inl refl))
        (λ _. Any-append_left _ ts (md ∷ []) h)

  widen-Summarises :
      (k : Kline D) (t : MarketData D) (ts : List (MarketData D)) (md : MarketData D)
      → Quoted (t ∷ ts)
      → is_number md.last
      → Summarises k t ts
      → Summarises
          (record (widen F k md) { close = md.last; ts = md.ts; vol = md.vol })
          t
          (ts ++ md ∷ [])
  widen-Summarises k t ts md q n s =
      let nh = Any-number k.high (t ∷ ts) q s.high_occurs in
      let nl = Any-number k.low (t ∷ ts) q s.low_occurs in
      record {
        opens = unfold widen in s.opens;
        below =
            All-append _ (t ∷ ts) (md ∷ []) (below-widen k md (t ∷ ts) nh n q s.below)
              (widen-last_high F o k md n, tt);
        above =
            All-append _ (t ∷ ts) (md ∷ []) (above-widen k md (t ∷ ts) nl n q s.above)
              (widen-low_last F o k md n, tt);
        high_occurs = high-widen k md (t ∷ ts) s.high_occurs;
        low_occurs = low-widen k md (t ∷ ts) s.low_occurs;
        closes = rw last_of-append;
        timed = rw last_of-append;
        counted = rw last_of-append;
      }

  module _ (localtime : ℤ → LocalTime) where
    -- The hour and the minute of a tick.
    abbrev pub clock : MarketData D → LocalTime
    clock t = localtime (quot_ℤ t.ts 1000)

    -- The clock has been read: `time` never gives 0.
    abbrev pub IsLive : KlineCache D → Type 0
    IsLive c = eqb_ℤ c.last_update_local_sec (pos 0) ≡ false

    minute_update-same :
        (k : Kline D) (u md : MarketData D)
        → k.ts ≡ u.ts
        → clock u ≡ clock md
        → minute_update localtime k md ≡ false
    unfolding minute_update
    minute_update-same k u md e same = rw (e, same) (ground arith)

    -- The cache that a tick finds, in the bar of `t` and `ts`.
    abbrev pub Holds : KlineCache D → ℤ → MarketData D → List (MarketData D) → Type 0
    Holds c v t ts = IsLive c × Summarises c.kline t ts × (c.start_vol ≡ v)

    update_cache-Holds :
        (cur : ℤ) (md : MarketData D) (c : KlineCache D) (v : ℤ) (t : MarketData D)
        (ts : List (MarketData D))
        → eqb_ℤ cur (pos 0) ≡ false
        → Quoted (t ∷ ts)
        → is_number md.last
        → clock (last_of t ts) ≡ clock md
        → Holds c v t ts
        → Holds (update_cache F localtime cur md c).0 v t (ts ++ md ∷ [])
    unfolding update_cache
    update_cache-Holds cur md c v t ts lc q n same h =
        rw (h.0, minute_update-same c.kline (last_of t ts) md h.1.timed same)
          (lc, widen-Summarises c.kline t ts md q n h.1, h.2)

    -- Ticks one after the other, each with the clock's second at its arrival.
    abbrev pub updates : List (ℤ × MarketData D) → KlineCache D → KlineCache D
    updates [] c = c
    updates ((cur, md) ∷ rest) c = updates rest (update_cache F localtime cur md c).0

    abbrev pub quotes : List (ℤ × MarketData D) → List (MarketData D)
    quotes [] = []
    quotes ((cur, md) ∷ rest) = md ∷ quotes rest

    -- The arrival second is not 0, the price is a number, and the tick stands in the minute `m`.
    abbrev pub Within : LocalTime → ℤ × MarketData D → Type 0
    Within m (cur, md) = (eqb_ℤ cur (pos 0) ≡ false) × is_number md.last × (clock md ≡ m)

    updates-Holds :
        (m : LocalTime) (rest : List (ℤ × MarketData D)) (c : KlineCache D) (v : ℤ)
        (t : MarketData D) (ts : List (MarketData D))
        → Quoted (t ∷ ts)
        → clock (last_of t ts) ≡ m
        → All (Within m) rest
        → Holds c v t ts
        → Holds (updates rest c) v t (ts ++ quotes rest)
    updates-Holds m [] c v t ts q e w h = rw (append-nil ts) h
    updates-Holds m ((cur, md) ∷ rest) c v t ts q e w h =
        let step = update_cache-Holds cur md c v t ts w.0.0 q w.0.1 (e ∙ sym w.0.2) h in
        rw (append_assoc ts (md ∷ []) (quotes rest)) at (
          updates-Holds m rest (update_cache F localtime cur md c).0 v t (ts ++ md ∷ [])
            (All-append (λ (u : MarketData D). is_number u.last) (t ∷ ts) (md ∷ []) q (w.0.1, tt))
            (ap clock (last_of-append t md ts) ∙ w.0.2) w.1 step)

    start-Summarises :
        (k : Kline D) (t : MarketData D)
        → is_number t.last
        → Summarises
            (record k {
              open_price = t.last;
              high = t.last;
              low = t.last;
              close = t.last;
              ts = t.ts;
              vol = t.vol;
            })
            t
            []
    start-Summarises k t n = record {
      opens = refl;
      below = (lt_irrefl F o t.last n, tt);
      above = (lt_irrefl F o t.last n, tt);
      high_occurs = inl refl;
      low_occurs = inl refl;
      closes = refl;
      timed = refl;
      counted = refl;
    }

    first-Holds :
        (c : KlineCache D) (cur : ℤ) (t : MarketData D)
        → Within (clock t) (cur, t)
        → (IsLive c → minute_update localtime c.kline t ≡ true)
        → Holds
            (update_cache F localtime cur t c).0
            (if eqb_ℤ c.last_update_local_sec (pos 0) then F.to_int t.vol else F.to_int c.kline.vol)
            t
            []
    unfolding update_cache
    first-Holds c cur t w over = elim (Bool-cases (eqb_ℤ c.last_update_local_sec (pos 0))) [
      | inl e ↦ rw e (w.0, start-Summarises (widen F c.kline t) t w.1, refl)
      | inr e ↦ rw (e, over e) (w.0, start-Summarises (widen F c.kline t) t w.1, refl)
    ]

    -- A cache that no tick has reached yet, or whose minute is over, takes a first tick and then ticks
    -- of the same minute of the clock, all with numbers for prices and calls at a time that is not 0:
    -- the cache holds exactly the bar of these ticks, in the first
    -- case with the volume of the first tick, cut to an integer, as the start volume, in the second with
    -- the last volume of the bar before, cut likewise.
    pub updates-Summarises :
        (c : KlineCache D) (cur : ℤ) (t : MarketData D) (rest : List (ℤ × MarketData D))
        → All (Within (clock t)) ((cur, t) ∷ rest)
        → (IsLive c → minute_update localtime c.kline t ≡ true)
        → let last = updates ((cur, t) ∷ rest) c in
          Summarises last.kline t (quotes rest)
          × (last.start_vol ≡ (
              if eqb_ℤ c.last_update_local_sec (pos 0)
              then F.to_int t.vol
              else F.to_int c.kline.vol))
    updates-Summarises c cur t rest w over =
        let h =
          updates-Holds (clock t) rest (update_cache F localtime cur t c).0 _ t [] (w.0.1, tt) refl
            w.1 (first-Holds c cur t w.0 over) in
        (h.1, h.2)

    -- A cache holds the bar of some ticks, and all prices are numbers. Its bar goes out with the first
    -- tick of another minute: its open, its close, its time and its
    -- volume (from the start volume on) are those of its own ticks. Its range is theirs too, but for
    -- the price of that first tick, which it takes in as well.
    pub update_cache-next_minute :
        (cur : ℤ) (md : MarketData D) (c : KlineCache D) (v : ℤ) (t : MarketData D)
        (ts : List (MarketData D))
        → Holds c v t ts
        → minute_update localtime c.kline md ≡ true
        → Quoted (t ∷ ts)
        → is_number md.last
        → (k : Kline D) × ((update_cache F localtime cur md c).1 ≡ some k)
          × (k.open_price ≡ t.last)
          × (k.close ≡ (last_of t ts).last)
          × (k.ts ≡ (last_of t ts).ts)
          × (k.vol ≡ F.sub (last_of t ts).vol (F.of_int v))
          × All (λ (u : MarketData D). le F o u.last k.high) (t ∷ (ts ++ md ∷ []))
          × All (λ (u : MarketData D). le F o k.low u.last) (t ∷ (ts ++ md ∷ []))
          × Any (λ (u : MarketData D). u.last ≡ k.high) (t ∷ (ts ++ md ∷ []))
          × Any (λ (u : MarketData D). u.last ≡ k.low) (t ∷ (ts ++ md ∷ []))
    unfolding update_cache widen
    update_cache-next_minute cur md c v t ts h other q n =
        let s = h.1 in
        let w = widen-Summarises c.kline t ts md q n s in
        rw (h.0, other)
          (
            _,
            refl,
            s.opens,
            s.closes,
            s.timed,
            rw (s.counted, h.2),
            w.below,
            w.above,
            w.high_occurs,
            w.low_occurs,
          )
