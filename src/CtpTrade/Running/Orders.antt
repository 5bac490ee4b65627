-- ===== src/CtpTrade/Running/Orders.antt =====
-- The calls about orders keep the invariant (src/ctp-trade/ctp_trade_handler.cpp).
use babeltrader.Common.{
  ℕ, ◌+◌, List, [], ◌∷◌, Option, none, some, if_both, Option-cases, length, leb, ◌&&◌, inl, inr,
  ◌==◌,
}
use babeltrader.Common.Int.{ℤ, pos, eqb_ℤ}
use babeltrader.Common.Double.{Double}
use babeltrader.Common.StdMap.{nat_key}
use babeltrader.Structs.{Order}
use babeltrader.CtpTrade.{OrderMaps, get_and_clean_record_order}
use babeltrader.CtpTrade.Fields.Requests.{InputOrderField, InputOrderActionField}
use babeltrader.CtpTrade.Fields.Orders.{OrderField}
use babeltrader.CtpTrade.Handler.{
  CtpTradeConf, Libc, CtpTradeHandler, Block, trade_block_order_status, trade_block_order_deal,
  Call,
}
use babeltrader.CtpTrade.Asked
use babeltrader.CtpTrade.Asked.{
  Made, made, refused, is_empty, cancel_order_request, insert_order_refusal, cancel_order_refusal,
  convert_insert_order_common2ctp, convert_cancel_order_common2ctp,
}
use babeltrader.CtpTrade.Trading.{
  not_ready, insert_converted, cancel_converted, noticed, on_block, on_blocks, async_turn,
  insert_order, cancel_order, on_order_status, on_order_deal,
}
use babeltrader.CtpTrade.Running.Invariant.{IsValid, IsValidRun, one_more}

module _ (F : Double) (conf : CtpTradeConf) (libc : Libc) where
  open F use {D}

  insert_made-IsValid :
      (ret : ℤ) (order : Order D) (s : CtpTradeHandler D)
      → IsValid s
      → (m : Made (InputOrderField D))
      → IsValidRun F conf libc (insert_converted F conf libc ret order (s, m))
  insert_made-IsValid ret order s v (refused text) = v
  insert_made-IsValid ret order s v Asked.undefined = tt
  insert_made-IsValid ret order s v (made req) =
      if_both (IsValidRun F conf libc) (eqb_ℤ ret (pos 0)) (one_more F conf libc s v)
        (one_more F conf libc s v)

  cancel_made-IsValid :
      (ret : ℤ) (s : CtpTradeHandler D)
      → IsValid s
      → (m : Made (InputOrderActionField D))
      → IsValidRun F conf libc (cancel_converted F conf libc ret (s, m))
  cancel_made-IsValid ret s v (refused text) = v
  cancel_made-IsValid ret s v Asked.undefined = tt
  cancel_made-IsValid ret s v (made req) =
      if_both (IsValidRun F conf libc) (eqb_ℤ ret (pos 0)) (one_more F conf libc s v)
        (one_more F conf libc s v)

  pub insert_order-IsValid :
      (ret : ℤ) (order : Order D) (s : CtpTradeHandler D)
      → IsValid s
      → IsValidRun F conf libc (insert_order F conf libc ret order s)
  unfolding insert_order convert_insert_order_common2ctp
  insert_order-IsValid ret order s v =
      if_both (IsValidRun F conf libc) (not_ready s) v
        (elim (Option-cases (insert_order_refusal F conf libc order)) [
          | inl e ↦
              rw (e, convert_insert_order_common2ctp)
                (insert_made-IsValid ret order (record s { order_ref = s.order_ref + 1 }) v _)
          | inr p ↦ rw (p.1, convert_insert_order_common2ctp) v
        ])

  pub cancel_order-IsValid :
      (ret : ℤ) (order : Order D) (s : CtpTradeHandler D)
      → IsValid s
      → IsValidRun F conf libc (cancel_order F conf libc ret order s)
  unfolding cancel_order convert_cancel_order_common2ctp
  cancel_order-IsValid ret order s v =
      if_both (IsValidRun F conf libc) (not_ready s) v
        (elim (Option-cases (cancel_order_refusal F conf libc order)) [
          | inl e ↦
              rw (e, convert_cancel_order_common2ctp)
                (cancel_made-IsValid ret
                  (record s {
                    order_ref = s.order_ref + 1;
                    order_action_ref = s.order_action_ref + 1;
                  })
                  v (made (cancel_order_request F conf libc order s)))
          | inr p ↦ rw (p.1, convert_cancel_order_common2ctp) v
        ])

  noticed-IsValid :
      (now : ℤ) (p : OrderField D) (s : CtpTradeHandler D)
      → IsValid s
      → (found : OrderMaps D × Option (Order D)) → IsValid (noticed F conf libc now p s found).0
  noticed-IsValid now p s v (maps, none) = v
  noticed-IsValid now p s v (maps, some recorded) = v

  on_block-IsValid :
      (now : ℤ) (block : Block D) (s : CtpTradeHandler D)
      → IsValid s
      → IsValid (on_block F conf libc now block s).0
  unfolding on_order_status on_order_deal
  on_block-IsValid now (trade_block_order_status p) s v =
      if_both (λ (r : CtpTradeHandler D × List (Call F)). IsValid r.0)
        (is_empty p.order_sys_id && p.order_status == b'a') v
        (noticed-IsValid now p s v (
          get_and_clean_record_order libc.print p.user_id p.order_ref p.front_id p.session_id
            s.order_maps))
  on_block-IsValid now (trade_block_order_deal t) s v = v

  on_blocks-IsValid :
      (clock : ℕ → ℤ) (blocks : List (Block D)) (s : CtpTradeHandler D)
      → IsValid s
      → IsValid (on_blocks F conf libc clock blocks s).0
  unfolding on_blocks
  on_blocks-IsValid clock [] s v = v
  on_blocks-IsValid clock (block ∷ blocks) s v =
      on_blocks-IsValid clock blocks
        (on_block F conf libc (clock (length (block ∷ blocks))) block s).0
        (on_block-IsValid (clock (length (block ∷ blocks))) block s v)

  pub async_turn-IsValid :
      (clock : ℕ → ℤ) (cnt : ℕ) (s : CtpTradeHandler D)
      → IsValid s
      → IsValid (async_turn F conf libc clock cnt s).1.0
  unfolding async_turn
  async_turn-IsValid clock cnt s v =
      let done = on_blocks-IsValid clock s.tunnel (record s { tunnel = [] }) v in
      if_both (λ (r : ℕ × (CtpTradeHandler D × List (Call F))). IsValid r.1.0) (leb 5 (cnt + 1))
        done done
