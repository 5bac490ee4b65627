-- ===== src/CtpTrade/Ids.antt =====
-- The ids that clients see, and back (src/ctp-trade/ctp_trade_handler.cpp).
use babeltrader.Common.{
  ℕ, ◌≡◌, ◌≢◌, ◌<◌, ◌≤◌, refl, Bytes, true, false, ◌==◌, [], ◌∷◌, ◌++◌, some, length, take_self,
  All, arith, ◌∙◌, ap, sym, append_assoc, leb,
}
use babeltrader.CtpTrade.{extend_ctp_id, last_part, get_ctp_id_from_extend}

-- A byte that is no separator.
abbrev pub IsPlain : ℕ → Type 0
IsPlain c = c ≢ b'_'

last_part-plain : (s : Bytes) → All IsPlain s → last_part s ≡ (s, false)
unfolding last_part
last_part-plain [] h = refl
last_part-plain (c ∷ s) h = rw (last_part-plain s h.1) (ground arith)

last_part-append : (r s : Bytes) → All IsPlain s → last_part (r ++ b'_' ∷ s) ≡ (s, true)
unfolding last_part
last_part-append [] s h = rw (last_part-plain s h) refl
last_part-append (c ∷ r) s h = rw (last_part-append r s h) refl

-- An id without a separator that is not empty and fits the array with a NUL behind it comes back from
-- the id that was made of it, if that fits its buffer of 256 bytes.
pub get_ctp_id_from_extend-extend_ctp_id :
    (investor_id trading_day ctp_id : Bytes) (ctp_id_size : ℕ)
    → All IsPlain ctp_id
    → 0 < length ctp_id
    → length ctp_id < ctp_id_size
    → length (investor_id ++ b'_' ∷ (trading_day ++ b'_' ∷ ctp_id)) ≤ 255
    → get_ctp_id_from_extend (extend_ctp_id investor_id trading_day ctp_id) ctp_id_size
      ≡ some ctp_id
unfolding extend_ctp_id get_ctp_id_from_extend
get_ctp_id_from_extend-extend_ctp_id investor_id trading_day ctp_id ctp_id_size p n f b =
    let some_bytes : (length ctp_id == 0) ≡ false = ground arith in
    let fits : leb ctp_id_size (length ctp_id) ≡ false = ground arith in
    let split =
      ap last_part (sym (append_assoc investor_id (b'_' ∷ trading_day) (b'_' ∷ ctp_id)))
      ∙ last_part-append (investor_id ++ b'_' ∷ trading_day) ctp_id p in
    rw (some_bytes, take_self 255 _ b, split, some_bytes, fits) refl
