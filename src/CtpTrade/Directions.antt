-- ===== src/CtpTrade/Directions.antt =====
-- `ConvertOrderDirCommon2CTP` and `ConvertOrderDirCTP2Common` (src/ctp-trade/ctp_trade_handler.cpp), on
-- a machine with pointers of eight bytes: the comparisons go over `sizeof` a pointer less one, seven
-- bytes. The characters are those of the interface: direction 0 buys, 1 sells; offset 0 opens, 1
-- closes, 2 and 5 are forced, 3 closes today's, 4 yesterday's.
use babeltrader.Common.{
  ℕ, ◌≡◌, refl, Bytes, codes, ◌==◌, ◌||◌, if◌then◌else◌, strncmp_eq, starts_with, Bool, true, false,
  Bool-cases, inl, inr, ◌⊎◌, arith,
}
use babeltrader.Converter.OrderDir.{Outcome, gives, refuses, undefined, split_order_dir, split_pos}

abbrev dir_char : ℕ → Bytes → Outcome (ℕ × ℕ)
dir_char action p_dir =
    if strncmp_eq 7 p_dir (codes "long")
    then gives (action, if action == b'0' then b'0' else b'1')
    else (if strncmp_eq 7 p_dir (codes "short")
        then gives (action, if action == b'0' then b'1' else b'0')
        else refuses)

-- The action and the direction of a text.
unfoldable pub convert_order_dir_common2ctp : Bytes → Outcome (ℕ × ℕ)
convert_order_dir_common2ctp order_dir = elim (split_order_dir order_dir) [
  | undefined ↦ undefined
  | refuses ↦ refuses
  | gives (p_action, p_dir) ↦
      if strncmp_eq 7 p_action (codes "open")
      then dir_char b'0' p_dir
      else (if strncmp_eq 7 p_action (codes "close")
          then dir_char b'1' p_dir
          else (if strncmp_eq 7 p_action (codes "closetoday")
              then dir_char b'3' p_dir
              else (if strncmp_eq 7 p_action (codes "closehistory")
                  then dir_char b'4' p_dir
                  else refuses)))
]

-- The text that `ConvertOrderDirCTP2Common` sets.
unfoldable pub convert_order_dir_ctp2common : ℕ → ℕ → Bytes
convert_order_dir_ctp2common ctp_dir ctp_offset_flag =
    if ctp_dir == b'0'
    then (if ctp_offset_flag == b'0'
        then codes "open_long"
        else (if ctp_offset_flag == b'3'
            then codes "closetoday_short"
            else (if ctp_offset_flag == b'4'
                then codes "closehistory_short"
                else (if ctp_offset_flag == b'2' || ctp_offset_flag == b'5'
                    then codes "forceclose_short"
                    else codes "close_short"))))
    else (if ctp_offset_flag == b'0'
        then codes "open_short"
        else (if ctp_offset_flag == b'3'
            then codes "closetoday_long"
            else (if ctp_offset_flag == b'4'
                then codes "closehistory_long"
                else (if ctp_offset_flag == b'2' || ctp_offset_flag == b'5'
                    then codes "forceclose_long"
                    else codes "close_long"))))

-- The characters that mean the same to `ConvertOrderDirCTP2Common`.
abbrev pub plain_dir : ℕ → ℕ
plain_dir d = if d == b'0' then b'0' else b'1'

abbrev pub plain_offset : ℕ → ℕ
plain_offset o =
    if o == b'0' then b'0' else (if o == b'3' then b'3' else (if o == b'4' then b'4' else b'1'))

abbrev pub is_forced : ℕ → Bool
is_forced o = o == b'2' || o == b'5'

-- The offsets that the conversion tells apart.
abbrev IsOther : ℕ → Type 0
IsOther o =
    ((o == b'0') ≡ false)
    × ((o == b'3') ≡ false)
    × ((o == b'4') ≡ false)
    × ((o == b'2') ≡ false)
    × ((o == b'5') ≡ false)

offset_cases :
    (o : ℕ) → (o ≡ b'0') ⊎ ((o ≡ b'3') ⊎ ((o ≡ b'4') ⊎ ((o ≡ b'2') ⊎ ((o ≡ b'5') ⊎ IsOther o))))
offset_cases o = ground arith

-- A text that was made of a direction and an offset is read back as the same two, up to characters
-- that mean the same; only a text of a forced close is refused.
pub convert_order_dir_common2ctp-ctp2common :
    (d o : ℕ)
    → convert_order_dir_common2ctp (convert_order_dir_ctp2common d o)
      ≡ (if is_forced o then refuses else gives (plain_offset o, plain_dir d))
unfolding convert_order_dir_common2ctp convert_order_dir_ctp2common split_order_dir split_pos
convert_order_dir_common2ctp-ctp2common d o = elim (Bool-cases (d == b'0')) [
  | inl e ↦ buys e (offset_cases o)
  | inr e ↦ sells e (offset_cases o)
]
  where
    buys :
        (d == b'0') ≡ true
        → (o ≡ b'0') ⊎ ((o ≡ b'3') ⊎ ((o ≡ b'4') ⊎ ((o ≡ b'2') ⊎ ((o ≡ b'5') ⊎ IsOther o))))
        → convert_order_dir_common2ctp (convert_order_dir_ctp2common d o)
          ≡ (if is_forced o then refuses else gives (plain_offset o, plain_dir d))
    buys e (inl q) = rw (q, e) refl
    buys e (inr (inl q)) = rw (q, e) refl
    buys e (inr (inr (inl q))) = rw (q, e) refl
    buys e (inr (inr (inr (inl q)))) = rw (q, e) refl
    buys e (inr (inr (inr (inr (inl q))))) = rw (q, e) refl
    buys e (inr (inr (inr (inr (inr n))))) = rw (e, n.0, n.1, n.2, n.3, n.4) refl

    sells :
        (d == b'0') ≡ false
        → (o ≡ b'0') ⊎ ((o ≡ b'3') ⊎ ((o ≡ b'4') ⊎ ((o ≡ b'2') ⊎ ((o ≡ b'5') ⊎ IsOther o))))
        → convert_order_dir_common2ctp (convert_order_dir_ctp2common d o)
          ≡ (if is_forced o then refuses else gives (plain_offset o, plain_dir d))
    sells e (inl q) = rw (q, e) refl
    sells e (inr (inl q)) = rw (q, e) refl
    sells e (inr (inr (inl q))) = rw (q, e) refl
    sells e (inr (inr (inr (inl q)))) = rw (q, e) refl
    sells e (inr (inr (inr (inr (inl q))))) = rw (q, e) refl
    sells e (inr (inr (inr (inr (inr n))))) = rw (e, n.0, n.1, n.2, n.3, n.4) refl

-- The first `switch` of `ConvertOrderDirCTP2Common`: the text of the hedge flag, or what the order had.
unfoldable pub order_flag1_ctp2common : ℕ → Bytes → Bytes
order_flag1_ctp2common ctp_hedge_flag order_flag1 =
    if ctp_hedge_flag == b'1'
    then codes "speculation"
    else (if ctp_hedge_flag == b'2'
        then codes "arbitrage"
        else (if ctp_hedge_flag == b'3'
            then codes "hedge"
            else (if ctp_hedge_flag == b'5' then codes "marketmaker" else order_flag1)))

-- `ConvertOrderFlag1Common2CTP`; the character 0 is none of the flags.
unfoldable pub convert_order_flag1_common2ctp : Bytes → ℕ
convert_order_flag1_common2ctp order_flag1 =
    if starts_with order_flag1 (codes "speculation")
    then b'1'
    else (if starts_with order_flag1 (codes "hedge")
        then b'3'
        else (if starts_with order_flag1 (codes "arbitrage")
            then b'2'
            else (if starts_with order_flag1 (codes "marketmaker") then b'5' else 0)))

-- Each of the four hedge flags comes back from its text, and with any other flag the text of the order
-- before decides.
pub convert_order_flag1_common2ctp-ctp2common :
    (c : ℕ) (before : Bytes)
    → convert_order_flag1_common2ctp (order_flag1_ctp2common c before) ≡ (
        if c == b'1' || (c == b'2' || (c == b'3' || c == b'5'))
        then c
        else convert_order_flag1_common2ctp before)
unfolding convert_order_flag1_common2ctp order_flag1_ctp2common
convert_order_flag1_common2ctp-ctp2common c before = go flag_cases
  where
    flag_cases :
        (c ≡ b'1')
        ⊎ ((c ≡ b'2')
            ⊎ ((c ≡ b'3')
                ⊎ ((c ≡ b'5')
                    ⊎ (((c == b'1') ≡ false)
                        × ((c == b'2') ≡ false)
                        × ((c == b'3') ≡ false)
                        × ((c == b'5') ≡ false)))))
    flag_cases = ground arith

    go :
        (c ≡ b'1')
          ⊎ ((c ≡ b'2')
              ⊎ ((c ≡ b'3')
                  ⊎ ((c ≡ b'5')
                      ⊎ (((c == b'1') ≡ false)
                          × ((c == b'2') ≡ false)
                          × ((c == b'3') ≡ false)
                          × ((c == b'5') ≡ false)))))
        → convert_order_flag1_common2ctp (order_flag1_ctp2common c before) ≡ (
            if c == b'1' || (c == b'2' || (c == b'3' || c == b'5'))
            then c
            else convert_order_flag1_common2ctp before)
    go (inl q) = rw q refl
    go (inr (inl q)) = rw q refl
    go (inr (inr (inl q))) = rw q refl
    go (inr (inr (inr (inl q)))) = rw q refl
    go (inr (inr (inr (inr n)))) = rw (n.0, n.1, n.2, n.3) refl
