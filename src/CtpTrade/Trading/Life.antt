-- ===== src/CtpTrade/Trading/Life.antt =====
-- The life of an order through `InsertOrder`, `OnOrderStatus` and `OnOrderDeal`
-- (src/ctp-trade/ctp_trade_handler.cpp).
use babeltrader.Common.{◌+◌, ◌≡◌, false, length, ◌==◌}
use babeltrader.Common.Double.{Double}
use babeltrader.Common.StdMap.{bytes_key}
use babeltrader.Structs.{Order}
use babeltrader.CtpTrade.{record_order}
use babeltrader.CtpTrade.Logs.Texts
use babeltrader.CtpTrade.Fields.Requests.{InputOrderField}
use babeltrader.CtpTrade.Fields.Orders.{OrderField, TradeField}
use babeltrader.CtpTrade.Handler.{CtpTradeConf, Libc, CtpTradeHandler}
use babeltrader.CtpTrade.Trading.Meanwhile.{Meanwhile}

module _ (F : Double) (conf : CtpTradeConf) (libc : Libc) where
  open F use {D}

  -- A notice about the order of a request that was sent in the present session.
  abbrev pub IsAbout : InputOrderField D → CtpTradeHandler D → OrderField D → Type 0
  IsAbout req s p =
      (p.user_id ≡ conf.user_id)
      × (p.order_ref ≡ req.order_ref)
      × (p.front_id ≡ s.ctp_front_id)
      × (p.session_id ≡ s.ctp_session_id)
      × ((length p.order_sys_id == 0) ≡ false)

  -- The handler behind a request that the interface has taken.
  abbrev pub behind : Order D → InputOrderField D → CtpTradeHandler D → CtpTradeHandler D
  behind order req s = record s {
    order_ref = s.order_ref + 1;
    req_id = s.req_id + 1;
    order_maps =
        record_order libc.print conf.user_id order req.order_ref s.ctp_front_id s.ctp_session_id
          s.order_maps;
  }

  -- Two notices about one order, and a notice of a trade of it.
  abbrev pub IsSameOrder : OrderField D → OrderField D → Type 0
  IsSameOrder p q =
      (q.user_id ≡ p.user_id)
      × (q.order_ref ≡ p.order_ref)
      × (q.front_id ≡ p.front_id)
      × (q.session_id ≡ p.session_id)
      × (q.investor_id ≡ p.investor_id)
      × (q.trading_day ≡ p.trading_day)
      × (q.order_sys_id ≡ p.order_sys_id)

  abbrev pub IsTradeOf : OrderField D → TradeField D → Type 0
  IsTradeOf p t =
      (t.investor_id ≡ p.investor_id)
      × (t.trading_day ≡ p.trading_day)
      × (t.order_sys_id ≡ p.order_sys_id)
