-- ===== src/Utils/Laws.antt =====
-- Laws of src/common/utils_func.cpp.
use babeltrader.Common.{
  ltb, ◌⊎◌, inl, inr, Bool-cases, leb, ℕ, ◌+◌, ◌*◌, ◌/◌, ◌%◌, ◌<◌, ◌≡◌, refl, ap, ◌↔◌, Bytes, true,
  false, [], ◌∷◌, ◌++◌, none, some, if◌then◌else◌, length, is_digit, arith, All,
}
use babeltrader.Common.Int.{ℤ, pos, ◌+ℤ◌, ◌-ℤ◌, ◌*ℤ◌}
use mathlib.Core.Path.{subst}
use babeltrader.Utils.{
  span_symbol, split_instrument, Tm, xtp_get_timestamp, ctp_get_timestamp, TimeSpec,
  QuoteTransferMonitor, finish,
}

abbrev pub IsLetter : ℕ → Type 0
IsLetter c = is_digit c ≡ false

-- A contract is empty or begins with a digit.
abbrev pub IsContract : Bytes → Type 0
IsContract [] = Unit {0}
IsContract (c ∷ s) = is_digit c ≡ true

abbrev Splits : Bytes → Bytes → Bytes → Type 0
Splits s symbol contract = (symbol ++ contract ≡ s) × All IsLetter symbol × IsContract contract

span_symbol-Splits : (s : Bytes) → Splits s (span_symbol s).0 (span_symbol s).1
unfolding span_symbol
span_symbol-Splits [] = (refl, tt, tt)
span_symbol-Splits (c ∷ s) = ground (arith, span_symbol-Splits s)

span_symbol-append :
    (symbol contract : Bytes)
    → All IsLetter symbol
    → IsContract contract
    → span_symbol (symbol ++ contract) ≡ (symbol, contract)
unfolding span_symbol
span_symbol-append [] [] h k = refl
span_symbol-append [] (c ∷ s) h k = rw k
span_symbol-append (c ∷ symbol) contract h k = rw (h.0, span_symbol-append symbol contract h.1 k)

guarded-inv :
    (P : Bytes × Bytes → Type 0) (p q : Bytes × Bytes)
    → P p
    → (if ltb (length p.0) 64 then some p else none) ≡ some q
    → P q × (length q.0 < 64)
guarded-inv P p q x h = elim (Bool-cases (ltb (length p.0) 64)) [
  | inl e ↦ let same : p ≡ q = ground arith in (subst P same x, rw (← same) (ground arith))
  | inr e ↦ ground arith
]

-- The split of an instrument into symbol and contract succeeds with (symbol, contract) exactly
-- when these spell the instrument, the symbol has no digit and is shorter than the buffer of 64
-- bytes, and the contract is empty or begins with a digit. So a topic that is put together from
-- such a symbol and such a contract is split into the same two again.
pub split_instrument_iff :
    (s symbol contract : Bytes)
    → (split_instrument s ≡ some (symbol, contract)) ↔ (
        (symbol ++ contract ≡ s) × All IsLetter symbol × IsContract contract × (length symbol < 64))
unfolding split_instrument
split_instrument_iff s symbol contract = (
  λ h.
      let r =
        guarded-inv (λ p. Splits s p.0 p.1) (span_symbol s) (symbol, contract)
          (span_symbol-Splits s) h in
      (r.0.0, r.0.1, r.0.2, r.1),
  λ h. rw (← h.0, span_symbol-append symbol contract h.1 h.2) (ground arith),
)

-- The decimal fields YYYYMMDDhhmmssSSS of an XTP timestamp reach `mktime` one by one, and the
-- milliseconds are added to its seconds, for fields of at most their number of digits.
pub xtp_get_timestamp-fields :
    (mktime : Tm → ℤ) (year month day hour minute sec mill : ℕ)
    → month < 100
    → day < 100
    → hour < 100
    → minute < 100
    → sec < 100
    → mill < 1000
    → xtp_get_timestamp mktime (
        (((((year * 100 + month) * 100 + day) * 100 + hour) * 100 + minute) * 100 + sec) * 1000
        + mill)
      ≡ mktime (record {
        tm_year = pos year -ℤ pos 1900;
        tm_mon = pos month -ℤ pos 1;
        tm_mday = pos day;
        tm_hour = pos hour;
        tm_min = pos minute;
        tm_sec = pos sec;
      })
          *ℤ pos 1000
        +ℤ pos mill
unfolding xtp_get_timestamp
xtp_get_timestamp-fields mktime year month day hour minute sec mill hm hd hh hi hs hk =
    rw (f.0, f.1, f.2, f.3, f.4, f.5, f.6)
  where
    n : ℕ
    n =
        (((((year * 100 + month) * 100 + day) * 100 + hour) * 100 + minute) * 100 + sec) * 1000
        + mill

    f :
        (n / 10000000000000 ≡ year)
        × (n / 100000000000 % 100 ≡ month)
        × (n / 1000000000 % 100 ≡ day)
        × (n / 10000000 % 100 ≡ hour)
        × (n / 100000 % 100 ≡ minute)
        × (n / 1000 % 100 ≡ sec)
        × (n % 1000 ≡ mill)
    f = omega arith

pub two_bytes : (xs : Bytes) → length xs ≡ 2 → (a : ℕ) × (b : ℕ) × (xs ≡ a ∷ b ∷ [])
two_bytes [] h = absurd (omega arith)
two_bytes (a ∷ []) h = absurd (omega arith)
two_bytes (a ∷ b ∷ []) h = (a, b, refl)
two_bytes (a ∷ b ∷ c ∷ xs) h = absurd (omega arith)

-- A date YYYYMMDD and a time of day "hh:mm:ss" reach `mktime` field by field.
pub ctp_get_timestamp-fields :
    (atoi : Bytes → ℕ) (mktime : Tm → ℤ) (date hh mm ss : Bytes) (year month day : ℕ) (millisec : ℤ)
    → atoi date ≡ year * 10000 + month * 100 + day
    → month < 100
    → day < 100
    → length hh ≡ 2
    → length mm ≡ 2
    → length ss ≡ 2
    → ctp_get_timestamp atoi mktime date (hh ++ b':' ∷ (mm ++ b':' ∷ ss)) millisec
      ≡ mktime (record {
        tm_year = pos year -ℤ pos 1900;
        tm_mon = pos month -ℤ pos 1;
        tm_mday = pos day;
        tm_hour = pos (atoi hh);
        tm_min = pos (atoi mm);
        tm_sec = pos (atoi ss);
      })
          *ℤ pos 1000
        +ℤ millisec
unfolding ctp_get_timestamp
ctp_get_timestamp-fields atoi mktime date hh mm ss year month day millisec e hm hd lh lm ls =
    let (a, a', ea) = two_bytes hh lh in
    let (b, b', eb) = two_bytes mm lm in
    let (c, c', ec) = two_bytes ss ls in rw (ea, eb, ec, e, d.0, d.1, d.2)
  where
    n : ℕ
    n = year * 10000 + month * 100 + day

    d : (n / 10000 ≡ year) × (n % 10000 / 100 ≡ month) × (n % 100 ≡ day)
    d = omega arith

-- With a positive step, and fewer packages counted than the step, one more `end` either counts the
-- package and logs nothing, or logs exactly `step` packages and starts again from 0; the count is
-- below the step again, which stays as it was.
pub finish-count :
    (now : TimeSpec) (m : QuoteTransferMonitor)
    → m.total_pkg < m.step
    → ((finish now m).0.total_pkg < m.step)
      × ((finish now m).0.step ≡ m.step)
      × ((((finish now m).1 ≡ none) × ((finish now m).0.total_pkg ≡ m.total_pkg + 1))
          ⊎ ((t : ℤ) × ((finish now m).1 ≡ some (m.step, t)) × ((finish now m).0.total_pkg ≡ 0)))
unfolding finish
finish-count now m h = elim (Bool-cases (leb m.step (m.total_pkg + 1))) [
  | inl e ↦
      rw e
        (ground arith, refl, inr (_, ap (λ (k : ℕ). some (k, total_elapsed)) (ground arith), refl))
  | inr e ↦ rw e (ground arith, refl, inl (refl, refl))
]
  where
    total_elapsed : ℤ
    total_elapsed =
        m.total_elapsed_time
        +ℤ ((now.tv_sec -ℤ m.ts.tv_sec) *ℤ pos 1000000000 +ℤ now.tv_nsec -ℤ m.ts.tv_nsec)
