-- ===== src/CtpTrade/Session/Retries.antt =====
-- The attempts to log in come to an end (src/ctp-trade/ctp_trade_handler.cpp). Any number of them may be
-- under way at once, each as a request, as a thread that has not yet looked at the count, or as a thread
-- that sleeps.
use babeltrader.Common.{
  ℕ, suc, ◌+◌, ◌*◌, ◌≤◌, ◌<◌, ◌≡◌, refl, Bool, true, false, [], some, ltb, Bool-cases, ◌⊎◌, inl,
  inr, arith,
}
use Prim.Native.Nat.{zero}
use babeltrader.Common.Int.{pos}
use babeltrader.Common.Double.{Double}
use mathlib.Core.Bool.{false≢true}
use babeltrader.CtpTrade.Fields.Session.{RspInfoField, RspUserLoginField}
use babeltrader.CtpTrade.Handler.{CtpTradeConf, CtpTradeHandler, Run, returns, throws, exits}
use babeltrader.CtpTrade.Session.{failed, on_rsp_user_login, login_thread, login_again, do_login}

-- The handler, the logins that are not answered yet, the threads that have not looked at the count, and
-- those that sleep.
pub record Tries (D : Type 0) : Type 0 where
  pub handler : CtpTradeHandler D
  pub in_flight : ℕ
  pub starting : ℕ
  pub sleeping : ℕ

abbrev pub under_way : {D : Type 0} → Tries D → ℕ
under_way s = s.in_flight + s.starting + s.sleeping

module _ (F : Double) (conf : CtpTradeConf) where
  open F use {D}

  -- The handler that a call leaves, and whether the program goes on.
  abbrev pub left : CtpTradeHandler D → Run F → CtpTradeHandler D
  left s (returns t calls) = t
  left s (throws text t calls) = t
  left s _ = s

  abbrev pub goes_on : Run F → Bool
  goes_on (exits calls) = false
  goes_on _ = true

  -- A login is refused; a thread looks at the count and sleeps; a thread wakes, counts and logs in.
  pub data Step (s : Tries D) : Tries D → Type 0 where
    fails :
        (field : RspUserLoginField) (info : RspInfoField) (id n : ℕ)
        → failed (some info) ≡ true
        → s.in_flight ≡ n + 1
        → Step s (record s {
          handler = left s.handler (on_rsp_user_login F conf (some field) (some info) id s.handler);
          in_flight = n;
          starting = s.starting + 1;
        })
    sleeps :
        (n : ℕ)
        → goes_on (login_thread F conf s.handler) ≡ true
        → s.starting ≡ n + 1
        → Step s (record s {
          handler = left s.handler (login_thread F conf s.handler);
          starting = n;
          sleeping = s.sleeping + 1;
        })
    wakes :
        (n : ℕ)
        → s.sleeping ≡ n + 1
        → Step s (record s {
          handler = left s.handler (login_again F conf s.handler);
          in_flight = s.in_flight + 1;
          sleeping = n;
        })

  -- So many such steps, with any other calls between them that leave the count of attempts alone, as
  -- all do but a login that succeeds.
  pub data Steps (s : Tries D) : ℕ → Tries D → Type 0 where
    here : Steps s 0 s
    next : {n : ℕ} {t u : Tries D} → Steps s n t → Step t u → Steps s (n + 1) u
    elsewhere :
        {n : ℕ} {t : Tries D}
        → Steps s n t
        → (handler : CtpTradeHandler D) → handler.req_login_cnt ≡ t.handler.req_login_cnt
        → Steps s n (record t { handler = handler })

  fails-count :
      (field : RspUserLoginField) (info : RspInfoField) (id : ℕ) (s : CtpTradeHandler D)
      → failed (some info) ≡ true
      → (left s (on_rsp_user_login F conf (some field) (some info) id s)).req_login_cnt
        ≡ s.req_login_cnt
  unfolding on_rsp_user_login
  fails-count field info id s h = rw (h, on_rsp_user_login) refl

  sleeps-count :
      (s : CtpTradeHandler D)
      → goes_on (login_thread F conf s) ≡ true
      → ((left s (login_thread F conf s)).req_login_cnt ≡ s.req_login_cnt) × (s.req_login_cnt < 3)
  unfolding login_thread
  sleeps-count s h = elim (Bool-cases (ltb s.req_login_cnt 3)) [
    | inl e ↦ rw (e, login_thread) (refl, ground arith)
    | inr e ↦ absurd (false≢true (rw (e, login_thread) at h))
  ]

  wakes-count :
      (s : CtpTradeHandler D) → (left s (login_again F conf s)).req_login_cnt ≡ s.req_login_cnt + 1
  unfolding login_again do_login
  wakes-count s = refl

  -- What `n` steps from `s` keep: nothing gets lost, each step is paid for by a stage or by a count, and
  -- the count stays within the attempts that are under way.
  abbrev IsPaid : Tries D → ℕ → Tries D → Type 0
  IsPaid s n t =
      (under_way t ≡ under_way s)
      × (n + 2 * t.in_flight + t.starting + 3 * s.handler.req_login_cnt
          ≡ 2 * s.in_flight + s.starting + 3 * t.handler.req_login_cnt)
      × (t.handler.req_login_cnt + t.sleeping ≤ 2 + under_way s)

  Step-IsPaid : (s : Tries D) (n : ℕ) (t u : Tries D) → IsPaid s n t → Step t u → IsPaid s (n + 1) u
  Step-IsPaid s n t u p (fails field info id m h e) =
      let c = fails-count field info id t.handler h in (omega arith, omega arith, omega arith)
  Step-IsPaid s n t u p (sleeps m g e) =
      let c = sleeps-count t.handler g in (omega arith, omega arith, omega arith)
  Step-IsPaid s n t u p (wakes m e) =
      let c = wakes-count t.handler in (omega arith, omega arith, omega arith)

  Steps-IsPaid :
      (s : Tries D) (n : ℕ) (t : Tries D)
      → s.handler.req_login_cnt + s.sleeping ≤ 2 + under_way s
      → Steps s n t
      → IsPaid s n t
  Steps-IsPaid s n t h here = (refl, omega arith, h)
  Steps-IsPaid s n u h (next {n = m} {t = t} r st) = Step-IsPaid s m t u (Steps-IsPaid s m t h r) st
  Steps-IsPaid s n u h (elsewhere {t = t} r handler e) =
      let p = Steps-IsPaid s n t h r in (p.0, omega arith, omega arith)

  -- One more step can follow.
  abbrev pub Continues : Tries D → Type 0
  Continues t = (u : Tries D) × Step t u

  -- A thread that starts ends the program.
  abbrev pub Ends : Tries D → Type 0
  Ends t = (0 < t.starting) × (goes_on (login_thread F conf t.handler) ≡ false)

  abbrev nobody : RspUserLoginField
  nobody = record {
    trading_day = [];
    login_time = [];
    broker_id = [];
    user_id = [];
    system_name = [];
    front_id = pos 0;
    session_id = pos 0;
    max_order_ref = [];
    shfe_time = [];
    dce_time = [];
    czce_time = [];
    ffex_time = [];
    ine_time = [];
  }

  abbrev no_entry : RspInfoField
  no_entry = record { error_id = pos 3; error_msg = [] }

  zero_or_more : (n : ℕ) → (n ≡ 0) ⊎ ((m : ℕ) × (n ≡ m + 1))
  zero_or_more zero = inl refl
  zero_or_more (suc n) = inr (n, omega arith)

  Continues-or_Ends : (t : Tries D) → 0 < under_way t → Continues t ⊎ Ends t
  Continues-or_Ends t h = elim (zero_or_more t.in_flight) [
    | inr (n, e) ↦ inl (_, fails nobody no_entry 0 n refl e)
    | inl f ↦ elim (zero_or_more t.sleeping) [
      | inr (n, e) ↦ inl (_, wakes n e)
      | inl z ↦ elim (zero_or_more t.starting) [
        | inl w ↦ absurd (omega arith)
        | inr (n, e) ↦ elim (Bool-cases (goes_on (login_thread F conf t.handler))) [
          | inl g ↦ inl (_, sleeps n g e)
          | inr g ↦ inr (omega arith, g)
        ]
      ]
    ]
  ]

  -- While logins fail, the program does not try for ever, also if several attempts overlap: a thread may
  -- look at the count before others have raised it. From a count that with the threads that sleep
  -- is at most two more than the attempts under way, at least one, the attempts make only so many
  -- further steps, whatever else is called between them; and behind any of these either one more
  -- follows, or a thread ends the program when it starts. No attempts come in by a new connection,
  -- and no two threads raise the count at the same moment.
  pub Steps-end :
      (s : Tries D) (n : ℕ) (t : Tries D)
      → s.handler.req_login_cnt + s.sleeping ≤ 2 + under_way s
      → 0 < under_way s
      → Steps s n t
      → (n + 3 * s.handler.req_login_cnt ≤ 2 * s.in_flight + s.starting + 3 * (2 + under_way s))
        × (Continues t ⊎ Ends t)
  Steps-end s n t h some_way r =
      let paid = Steps-IsPaid s n t h r in (omega arith, Continues-or_Ends t (omega arith))
