-- ===== src/CtpTrade/Running/Invariant.antt =====
-- The invariant of `CTPTradeHandler` (src/ctp-trade/ctp_trade_handler.cpp).
use babeltrader.Common.{ℕ, ◌+◌, ◌≡◌, ◌<◌, false, [], some, arith, inl, inr}
use babeltrader.Common.Int.{pos}
use babeltrader.Common.Double.{Double}
use babeltrader.Common.StdMap.{
  StdMap, nat_key, lookup, insert, erase, lookup-insert_inv, lookup-erase_inv,
}
use babeltrader.CtpTrade.Handler.{
  CtpTradeConf, Libc, CtpTradeHandler, Run, returns, throws, exits, undefined,
}

-- Every number at which a client waits is below the next.
abbrev pub IsBelow : ℕ → StdMap ℕ ℕ → Type 0
IsBelow n m = (id ws : ℕ) → lookup id m ≡ some ws → id < n

pub insert-IsBelow : (n ws : ℕ) (m : StdMap ℕ ℕ) → IsBelow n m → IsBelow (n + 1) (insert n ws m)
insert-IsBelow n ws m h id found e = elim (lookup-insert_inv n id ws found m e) [
  | inl same ↦ omega arith
  | inr old ↦ let below = h id found old in omega arith
]

pub erase-IsBelow : (n id : ℕ) (m : StdMap ℕ ℕ) → IsBelow n m → IsBelow n (erase id m)
erase-IsBelow n id m h j found e = h j found (lookup-erase_inv id j found m e).1

pub more-IsBelow : (n : ℕ) (m : StdMap ℕ ℕ) → IsBelow n m → IsBelow (n + 1) m
more-IsBelow n m h id found e = let below = h id found e in omega arith

module _ {D : Type 0} where
  -- Without a connection nothing is remembered of one, and no client waits at a number that is still to
  -- come.
  abbrev pub IsValid : CtpTradeHandler D → Type 0
  IsValid s =
      (s.api_ready ≡ false
        → (s.ctp_tradeing_day ≡ [])
          × (s.ctp_login_time ≡ [])
          × (s.ctp_front_id ≡ pos 0)
          × (s.ctp_session_id ≡ pos 0))
      × IsBelow s.req_id s.qry_cache.qry_ws_cache

module _ (F : Double) (conf : CtpTradeConf) (libc : Libc) where
  open F use {D}

  -- The handler that a call leaves is valid.
  abbrev pub IsValidRun : Run F → Type 0
  IsValidRun (returns t calls) = IsValid t
  IsValidRun (throws text t calls) = IsValid t
  IsValidRun (exits calls) = Unit
  IsValidRun undefined = Unit

  -- A number that was used up.
  pub one_more : (s : CtpTradeHandler D) → IsValid s → IsValid (record s { req_id = s.req_id + 1 })
  one_more s v = (v.0, more-IsBelow s.req_id s.qry_cache.qry_ws_cache v.1)
