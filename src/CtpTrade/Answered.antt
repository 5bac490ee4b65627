-- ===== src/CtpTrade/Answered.antt =====
-- `ConvertRtnOrderCTP2Common` and the other functions that make the structs of
-- src/common/common_struct.h from what the interface tells (src/ctp-trade/ctp_trade_handler.cpp). An
-- `InstrumentID` has at most 30 bytes, so that its symbol fits the buffer of `CTPSplitInstrument`.
pub mod Positions
use babeltrader.Common.{ℕ, Bytes, codes, [], ◌∷◌, if◌then◌else◌, ◌==◌, ◌||◌}
use babeltrader.Common.Int.{ℤ, pos, ◌*ℤ◌}
use babeltrader.Common.Double.{Double}
use babeltrader.Structs.{
  Order, OrderStatusNotify, OrderDealNotify, PositionSummaryType1, PositionDetailType1,
  TradeAccountType1, ProductType1,
}
use babeltrader.Utils.{span_symbol, ctp_get_timestamp}
use babeltrader.CtpTrade.{extend_ctp_id}
use babeltrader.CtpTrade.Directions.{convert_order_dir_ctp2common, order_flag1_ctp2common}
use babeltrader.CtpTrade.Fields.Requests.{InputOrderField}
use babeltrader.CtpTrade.Fields.Orders.{OrderField, TradeField}
use babeltrader.CtpTrade.Fields.Positions.{InvestorPositionField, InvestorPositionDetailField}
use babeltrader.CtpTrade.Fields.Accounts.{TradingAccountField, ProductField, InstrumentField}
use babeltrader.CtpTrade.Handler.{CtpTradeConf, Libc}

-- `text[0]`.
abbrev pub first_char : Bytes → ℕ
first_char [] = 0
first_char (c ∷ s) = c

-- An `OrderStatusEnum`.
unfoldable pub convert_order_status_ctp2common : ℕ → ℕ
convert_order_status_ctp2common order_status =
    if order_status == b'1'
    then 1
    else (if order_status == b'2'
        then 5
        else (if order_status == b'0' then 2 else (if order_status == b'5' then 3 else 0)))

-- An `OrderSubmitStatusEnum`.
unfoldable pub convert_order_submit_status_ctp2common : ℕ → ℕ
convert_order_submit_status_ctp2common order_submit_status =
    if order_submit_status == b'0' || (order_submit_status == b'1' || order_submit_status == b'2')
    then 1
    else (if order_submit_status == b'3'
        then 2
        else (if order_submit_status == b'4'
              || (order_submit_status == b'5' || order_submit_status == b'6')
            then 3
            else 0))

unfoldable pub convert_position_dir_ctp2common : ℕ → Bytes
convert_position_dir_ctp2common ctp_position_dir =
    if ctp_position_dir == b'2'
    then codes "long"
    else (if ctp_position_dir == b'3' then codes "short" else codes "net")

unfoldable pub convert_hedge_flag_ctp2common : ℕ → Bytes
convert_hedge_flag_ctp2common ctp_hedge_flag =
    if ctp_hedge_flag == b'2'
    then codes "arbitrage"
    else (if ctp_hedge_flag == b'3'
        then codes "hedge"
        else (if ctp_hedge_flag == b'5' then codes "marketmaker" else codes "speculation"))

unfoldable pub convert_date_type_ctp2common : ℕ → Bytes
convert_date_type_ctp2common ctp_date_type =
    if ctp_date_type == b'1' then codes "today" else codes "history"

unfoldable pub convert_product_type_ctp2common : ℕ → Bytes
convert_product_type_ctp2common ctp_product_type =
    if ctp_product_type == b'2' then codes "option" else codes "future"

abbrev order_type_text : ℕ → Bytes
order_type_text order_price_type =
    if order_price_type == b'1' then codes "market" else codes "limit"

module _ (F : Double) (libc : Libc) where
  open F use {D, of_int}

  -- `Order order;`, and the notices.
  abbrev pub new_order : Order D
  new_order = record {
    user_id = [];
    order_id = [];
    outside_user_id = [];
    outside_id = [];
    client_order_id = [];
    market = [];
    exchange = [];
    type = [];
    symbol = [];
    contract = [];
    contract_id = [];
    order_type = [];
    order_flag1 = [];
    dir = [];
    price = of_int (pos 0);
    amount = of_int (pos 0);
    total_price = of_int (pos 0);
    ts = pos 0;
  }

  -- At the time `now` in seconds.
  unfoldable pub convert_insert_order_ctp2common : ℤ → InputOrderField D → Order D → Order D
  convert_insert_order_ctp2common now req order =
      let parts = span_symbol req.instrument_id in
      record order {
        market = codes "ctp";
        outside_user_id = req.investor_id;
        exchange = req.exchange_id;
        type = codes "future";
        symbol = parts.0;
        contract = parts.1;
        contract_id = parts.1;
        order_type = order_type_text req.order_price_type;
        order_flag1 = order_flag1_ctp2common (first_char req.comb_hedge_flag) order.order_flag1;
        dir = convert_order_dir_ctp2common req.direction (first_char req.comb_offset_flag);
        price = req.limit_price;
        amount = of_int req.volume_total_original;
        total_price = of_int (pos 0);
        ts = now *ℤ pos 1000;
      }

  -- `ConvertRtnOrderCTP2Common`: what it makes of the order, and the notice.
  unfoldable pub convert_rtn_order_ctp2common : OrderField D → Order D → Order D
  convert_rtn_order_ctp2common p_order order =
      let parts = span_symbol p_order.instrument_id in
      record order {
        outside_id = extend_ctp_id p_order.investor_id p_order.trading_day p_order.order_sys_id;
        market = codes "ctp";
        outside_user_id = p_order.investor_id;
        exchange = p_order.exchange_id;
        type = codes "future";
        symbol = parts.0;
        contract = parts.1;
        contract_id = parts.1;
        order_type = order_type_text p_order.order_price_type;
        order_flag1 = order_flag1_ctp2common (first_char p_order.comb_hedge_flag) order.order_flag1;
        dir = convert_order_dir_ctp2common p_order.direction (first_char p_order.comb_offset_flag);
        price = p_order.limit_price;
        amount = of_int p_order.volume_total_original;
        total_price = of_int (pos 0);
        ts =
            ctp_get_timestamp libc.atoi libc.mktime p_order.insert_date p_order.insert_time (pos 0);
      }

  unfoldable pub rtn_order_status : OrderField D → OrderStatusNotify D
  unfolding convert_order_status_ctp2common convert_order_submit_status_ctp2common
  rtn_order_status p_order = record {
    order_status = convert_order_status_ctp2common p_order.order_status;
    order_submit_status = convert_order_submit_status_ctp2common p_order.order_submit_status;
    amount = of_int p_order.volume_total_original;
    dealed_amount = of_int p_order.volume_traded;
  }

  -- `ConvertRtnTradeCTP2Common`.
  unfoldable pub convert_rtn_trade_ctp2common : TradeField D → Order D → Order D
  convert_rtn_trade_ctp2common p_trade order =
      let parts = span_symbol p_trade.instrument_id in
      record order {
        outside_id = extend_ctp_id p_trade.investor_id p_trade.trading_day p_trade.order_sys_id;
        market = codes "ctp";
        outside_user_id = p_trade.investor_id;
        exchange = p_trade.exchange_id;
        type = codes "future";
        symbol = parts.0;
        contract = parts.1;
        contract_id = parts.1;
        order_flag1 = order_flag1_ctp2common p_trade.hedge_flag order.order_flag1;
        dir = convert_order_dir_ctp2common p_trade.direction p_trade.offset_flag;
      }

  unfoldable pub rtn_trade_deal : TradeField D → OrderDealNotify D
  rtn_trade_deal p_trade = record {
    price = p_trade.price;
    amount = of_int p_trade.volume;
    trading_day = p_trade.trading_day;
    trade_id = extend_ctp_id p_trade.investor_id p_trade.trading_day p_trade.trade_id;
    ts = ctp_get_timestamp libc.atoi libc.mktime p_trade.trade_date p_trade.trade_time (pos 0);
  }
