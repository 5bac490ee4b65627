-- ===== src/CtpTrade/Trading/Kept.antt =====
-- What `InsertOrder` leaves behind when it does not succeed (src/ctp-trade/ctp_trade_handler.cpp).
use babeltrader.Common.{
  ℕ, ◌+◌, ◌≡◌, ◌≤◌, refl, sym, ◌∙◌, ap, Bytes, length, take_self, some, none, Bool-cases,
  Option-cases, inl, inr, bytes_eq, if_cases, ltb, ◌==◌,
}
use babeltrader.Common.Int.{ℤ, pos, eqb_ℤ}
use babeltrader.Common.Double.{Double}
use babeltrader.Common.StdMap.{
  StdMap, none-ne-some, bytes_key, lookup, insert, erase, lookup-insert, lookup-erase,
  lookup-insert_self,
}
use babeltrader.Structs.{Order}
use babeltrader.Converter.OrderDir
use babeltrader.CtpTrade.{OrderMaps, record_key, record_order, get_and_clean_record_order}
use babeltrader.CtpTrade.Directions.{convert_order_dir_common2ctp}
use babeltrader.CtpTrade.Fields.Requests.{InputOrderField}
use babeltrader.CtpTrade.Handler.{
  CtpTradeConf, Libc, CtpTradeHandler, Run, returns, throws, exits, undefined,
}
use babeltrader.CtpTrade.Asked.{convert_order_type_common2ctp}
use babeltrader.CtpTrade.Asked.{
  Made, made, refused, insert_order_request, directed, insert_order_refusal,
  convert_insert_order_common2ctp,
}
use babeltrader.CtpTrade.Trading.{not_ready, insert_converted, sent_order, insert_order}

-- An order that waits is found, and waits no more.
pub get_and_clean_record_order-found :
    {D : Type 0} (print : ℤ → Bytes) (user_id order_ref : Bytes) (front_id session_id : ℤ)
    (order : Order D) (m : OrderMaps D)
    → lookup (record_key print user_id order_ref front_id session_id) m.wait_deal_orders
      ≡ some order
    → get_and_clean_record_order print user_id order_ref front_id session_id m ≡ (
      record m {
        wait_deal_orders =
            erase (record_key print user_id order_ref front_id session_id) m.wait_deal_orders;
      },
      some order,
    )
unfolding get_and_clean_record_order
get_and_clean_record_order-found print user_id order_ref front_id session_id order m h =
    rw (h, get_and_clean_record_order) refl

pub get_and_clean_record_order-missing :
    {D : Type 0} (print : ℤ → Bytes) (user_id order_ref : Bytes) (front_id session_id : ℤ)
    (m : OrderMaps D)
    → lookup (record_key print user_id order_ref front_id session_id) m.wait_deal_orders ≡ none
    → get_and_clean_record_order print user_id order_ref front_id session_id m ≡ (m, none)
unfolding get_and_clean_record_order
get_and_clean_record_order-missing print user_id order_ref front_id session_id m h =
    rw (h, get_and_clean_record_order) refl

module _ (F : Double) (conf : CtpTradeConf) (libc : Libc) where
  open F use {D}

  refused-ne-made : {A : Type 0} (text : Bytes) (a : A) → refused text ≡ made a → ⊥
  refused-ne-made text a e = cc

  -- A request was made: only the counter of references has moved.
  pub convert_insert_order-both :
      (order : Order D) (s : CtpTradeHandler D) (req : InputOrderField D)
      → (convert_insert_order_common2ctp F conf libc order s).1 ≡ made req
      → convert_insert_order_common2ctp F conf libc order s
        ≡ (record s { order_ref = s.order_ref + 1 }, made req)
  unfolding convert_insert_order_common2ctp
  convert_insert_order-both order s req h =
      elim (Option-cases (insert_order_refusal F conf libc order)) [
        | inl e ↦
            let opened : convert_insert_order_common2ctp F conf libc order s ≡ (
              record s { order_ref = s.order_ref + 1 },
              insert_order_request F conf libc order s,
            ) =
              rw (e, convert_insert_order_common2ctp) refl in
            opened
            ∙ ap (λ (m : Made (InputOrderField D)). (record s { order_ref = s.order_ref + 1 }, m))
                (sym (ap (λ z. z.1) opened) ∙ h)
        | inr p ↦
            let opened : convert_insert_order_common2ctp F conf libc order s ≡ (s, refused p.0) =
              rw (p.1, convert_insert_order_common2ctp) refl in
            absurd (refused-ne-made p.0 req (sym (ap (λ z. z.1) opened) ∙ h))
      ]

  -- What waits behind a call that throws has waited before.
  abbrev pub IsKept : CtpTradeHandler D → Run F → Type 0
  IsKept s (throws text t calls) =
      (k : Bytes) (order : Order D)
      → lookup k t.order_maps.wait_deal_orders ≡ some order
      → lookup k s.order_maps.wait_deal_orders ≡ some order
  IsKept s (returns t calls) = Unit
  IsKept s (exits calls) = Unit
  IsKept s undefined = Unit

  waited_before :
      (k j : Bytes) (order found : Order D) (m : StdMap Bytes (Order D))
      → lookup k (erase j (insert j order m)) ≡ some found
      → lookup k m ≡ some found
  waited_before k j order found m h = elim (Bool-cases (bytes_eq j k)) [
    | inl e ↦ absurd (none-ne-some found (sym (rw (lookup-erase, e) refl) ∙ h))
    | inr e ↦ sym (rw (lookup-erase, e, lookup-insert, e) refl) ∙ h
  ]

  sent_order-IsKept :
      (ret : ℤ) (order : Order D) (req : InputOrderField D) (s : CtpTradeHandler D)
      → req.investor_id ≡ conf.user_id
      → IsKept s (sent_order F conf libc ret order req s)
  unfolding record_order
  sent_order-IsKept ret order req s same =
      let k = record_key libc.print conf.user_id req.order_ref s.ctp_front_id s.ctp_session_id in
      let found =
        get_and_clean_record_order-found libc.print conf.user_id req.order_ref s.ctp_front_id
          s.ctp_session_id order
          (record_order libc.print conf.user_id order req.order_ref s.ctp_front_id s.ctp_session_id
            s.order_maps)
          (lookup-insert_self k order s.order_maps.wait_deal_orders) in
      if_cases (IsKept s) (eqb_ℤ ret (pos 0)) _ _ (λ _. tt)
        (λ _ j other. rw (same, found) (waited_before j k order other _))

  directed-IsKept :
      (ret : ℤ) (order : Order D) (s : CtpTradeHandler D) (price_type : ℕ)
      → length conf.user_id ≤ 12
      → (dir : OrderDir.Outcome (ℕ × ℕ))
      → IsKept s (
          insert_converted F conf libc ret order
            (record s { order_ref = s.order_ref + 1 }, directed F conf libc order s price_type dir))
  directed-IsKept ret order s price_type short OrderDir.undefined = tt
  directed-IsKept ret order s price_type short OrderDir.refuses = λ k found h. h
  directed-IsKept ret order s price_type short (OrderDir.gives p) =
      sent_order-IsKept ret order _ (record s { order_ref = s.order_ref + 1 })
        (take_self 12 conf.user_id short)

  -- An order whose sending fails, in whichever way, waits for no notice: whoever waits behind a call of
  -- `InsertOrder` that throws has waited before, if the configured user's id fits the 13 bytes of an
  -- `InvestorID`.
  pub insert_order-IsKept :
      (ret : ℤ) (order : Order D) (s : CtpTradeHandler D)
      → length conf.user_id ≤ 12
      → IsKept s (insert_order F conf libc ret order s)
  unfolding insert_order convert_insert_order_common2ctp
  insert_order-IsKept ret order s short =
      if_cases (IsKept s) (not_ready s) _ _ (λ _ k found h. h) (λ _. converted)
    where
      converted : IsKept s (
          insert_converted F conf libc ret order
            (convert_insert_order_common2ctp F conf libc order s))
      converted = elim (Option-cases (insert_order_refusal F conf libc order)) [
        | inl e ↦
            rw (e, convert_insert_order_common2ctp)
              (if_cases made_IsKept (ltb 8 (length order.exchange)) _ _ (λ _. tt)
                (λ _.
                  if_cases made_IsKept (convert_order_type_common2ctp order.order_type == 0) _ _
                    (λ _ k found h. h)
                    (λ _.
                      directed-IsKept ret order s (convert_order_type_common2ctp order.order_type)
                        short (convert_order_dir_common2ctp order.dir))))
        | inr p ↦ rw (p.1, convert_insert_order_common2ctp) (λ k found h. h)
      ]
        where
          made_IsKept : Made (InputOrderField D) → Type 0
          made_IsKept m =
              IsKept s (
                insert_converted F conf libc ret order
                  (record s { order_ref = s.order_ref + 1 }, m))
