-- ===== src/CtpTrade/Asked.antt =====
-- `ConvertInsertOrderCommon2CTP` and the other functions that make a request of the interface from
-- what a client asks (src/ctp-trade/ctp_trade_handler.cpp). Each starts from zeroed memory; a `strncpy`
-- or `snprintf` into an array keeps what fits it.
use babeltrader.Common.{
  ℕ, ◌+◌, Bytes, Bool, codes, [], ◌++◌, Option, none, some, if◌then◌else◌, length, take, ltb,
  starts_with, ◌==◌, not, ◌&&◌,
}
use babeltrader.Common.Int.{pos}
use babeltrader.Common.Double.{Double}
use babeltrader.Structs.{
  Order, OrderQuery, TradeQuery, PositionQuery, TradeAccountQuery, ProductQuery,
}
use babeltrader.Converter.OrderDir
use babeltrader.CtpTrade.{get_ctp_id_from_extend}
use babeltrader.CtpTrade.Directions.{convert_order_dir_common2ctp, convert_order_flag1_common2ctp}
use babeltrader.CtpTrade.Fields.Requests.{
  InputOrderField, InputOrderActionField, QryOrderField, QryTradeField, QryInvestorPositionField,
  QryInvestorPositionDetailField, QryTradingAccountField, QryProductField, QryInstrumentField,
}
use babeltrader.CtpTrade.Handler.{CtpTradeConf, Libc, CtpTradeHandler}
use babeltrader.CtpTrade.Logs.{one_char}

-- The request, or the text that is thrown, or behaviour that the language leaves undefined.
pub data Made (A : Type 0) : Type 0 where
  made : A → Made A
  refused : Bytes → Made A
  undefined : Made A

abbrev pub is_empty : Bytes → Bool
is_empty s = length s == 0

-- `ConvertOrderTypeCommon2CTP`; the character 0 is none of the types.
unfoldable pub convert_order_type_common2ctp : Bytes → ℕ
convert_order_type_common2ctp order_type =
    if starts_with order_type (codes "limit")
    then b'2'
    else (if starts_with order_type (codes "market") then b'1' else 0)

-- `"%s%s"` of the symbol and the contract, into an `InstrumentID`.
abbrev pub instrument_text : Bytes → Bytes → Bytes
instrument_text symbol contract = take 29 (symbol ++ contract)

-- Where a query names an instrument only if it has both parts.
abbrev pub instrument_if_both : Bytes → Bytes → Bytes
instrument_if_both symbol contract =
    if not (is_empty symbol) && not (is_empty contract) then instrument_text symbol contract else []

-- What `GetCTPIdFromExtend` leaves in a zeroed array of 21 bytes.
abbrev pub ctp_id_text : Bytes → Bytes
ctp_id_text ext_ctp_id = elim (get_ctp_id_from_extend ext_ctp_id 21) [
  | none ↦ []
  | some ctp_id ↦ ctp_id
]

module _ (F : Double) (conf : CtpTradeConf) (libc : Libc) where
  open F use {D, of_int, to_int, le}

  -- The part of `ConvertInsertOrderCommon2CTP` behind the checks, once the price type and the direction
  -- are known.
  abbrev pub input_order : Order D → CtpTradeHandler D → ℕ → ℕ → ℕ → InputOrderField D
  input_order order s price_type action dir = record {
    broker_id = take 10 conf.broker_id;
    investor_id = take 12 conf.user_id;
    instrument_id = instrument_text order.symbol order.contract;
    order_ref = take 11 (libc.print (pos s.order_ref));
    user_id = take 15 conf.user_id;
    order_price_type = price_type;
    direction = dir;
    comb_offset_flag = one_char action;
    comb_hedge_flag =
        if is_empty order.order_flag1
        then one_char b'1'
        else one_char (convert_order_flag1_common2ctp order.order_flag1);
    limit_price = order.price;
    volume_total_original = to_int order.amount;
    time_condition = b'3';
    gtd_date = [];
    volume_condition = b'1';
    min_volume = pos 1;
    contingent_condition = b'1';
    stop_price = of_int (pos 0);
    force_close_reason = b'0';
    is_auto_suspend = pos 0;
    business_unit = [];
    request_id = pos s.req_id;
    user_force_close = pos 0;
    is_swap_order = pos 0;
    exchange_id = order.exchange;
    invest_unit_id = [];
    account_id = [];
    currency_id = [];
    client_id = [];
    ip_address = [];
    mac_address = [];
  }

  -- What it throws before it changes anything.
  abbrev pub insert_order_refusal : Order D → Option Bytes
  insert_order_refusal order =
      if is_empty order.symbol
      then some (codes "field \"symbol\" need string")
      else (if is_empty order.contract
          then some (codes "field \"contract\" need string")
          else (if is_empty order.order_type
              then some (codes "field \"order_type\" need string")
              else (if le order.amount (of_int (pos 0))
                  then some (codes "field \"amount\" need numeric")
                  else none)))

  abbrev pub directed :
      Order D → CtpTradeHandler D → ℕ → OrderDir.Outcome (ℕ × ℕ) → Made (InputOrderField D)
  directed order s price_type OrderDir.undefined = undefined
  directed order s price_type OrderDir.refuses = refused (codes "unsupport order dir")
  directed order s price_type (OrderDir.gives p) = made (input_order order s price_type p.0 p.1)

  -- What it makes behind the checks. The exchange is copied by its own length: behind eight bytes it
  -- leaves its array without a NUL, or overruns it.
  abbrev pub insert_order_request : Order D → CtpTradeHandler D → Made (InputOrderField D)
  insert_order_request order s =
      let price_type = convert_order_type_common2ctp order.order_type in
      if ltb 8 (length order.exchange)
      then undefined
      else (if price_type == 0
          then refused (codes "unsupport order type")
          else directed order s price_type (convert_order_dir_common2ctp order.dir))

  -- `ConvertInsertOrderCommon2CTP`, with the handler that it leaves.
  unfoldable pub convert_insert_order_common2ctp :
      Order D → CtpTradeHandler D → CtpTradeHandler D × Made (InputOrderField D)
  convert_insert_order_common2ctp order s = elim (insert_order_refusal order) [
    | some text ↦ (s, refused text)
    | none ↦ (record s { order_ref = s.order_ref + 1 }, insert_order_request order s)
  ]

  abbrev pub cancel_order_refusal : Order D → Option Bytes
  cancel_order_refusal order =
      if is_empty order.outside_id
      then some (codes "field \"outside_id\" need string")
      else (if is_empty order.exchange
          then some (codes "field \"exchange\" need string")
          else (if is_empty order.symbol
              then some (codes "field \"symbol\" need string")
              else (if is_empty order.contract
                  then some (codes "field \"contract\" need string")
                  else none)))

  abbrev pub cancel_order_request : Order D → CtpTradeHandler D → InputOrderActionField D
  cancel_order_request order s = record {
    broker_id = take 10 conf.broker_id;
    investor_id = take 12 conf.user_id;
    order_action_ref = pos s.order_action_ref;
    order_ref = take 11 (libc.print (pos s.order_ref));
    request_id = pos s.req_id;
    front_id = pos 0;
    session_id = pos 0;
    exchange_id = take 8 order.exchange;
    order_sys_id = ctp_id_text order.outside_id;
    action_flag = b'0';
    limit_price = of_int (pos 0);
    volume_change = pos 0;
    user_id = take 15 conf.user_id;
    instrument_id = instrument_text order.symbol order.contract;
    invest_unit_id = [];
    ip_address = [];
    mac_address = [];
  }

  unfoldable pub convert_cancel_order_common2ctp :
      Order D → CtpTradeHandler D → CtpTradeHandler D × Made (InputOrderActionField D)
  convert_cancel_order_common2ctp order s = elim (cancel_order_refusal order) [
    | some text ↦ (s, refused text)
    | none ↦ (
      record s { order_ref = s.order_ref + 1; order_action_ref = s.order_action_ref + 1 },
      made (cancel_order_request order s),
    )
  ]

module _ (conf : CtpTradeConf) where
  unfoldable pub convert_query_order_common2ctp : OrderQuery → QryOrderField
  convert_query_order_common2ctp order_qry = record {
    broker_id = take 10 conf.broker_id;
    investor_id = take 12 conf.user_id;
    instrument_id = instrument_if_both order_qry.symbol order_qry.contract;
    exchange_id = take 8 order_qry.exchange;
    order_sys_id = if is_empty order_qry.outside_id then [] else ctp_id_text order_qry.outside_id;
    insert_time_start = [];
    insert_time_end = [];
    invest_unit_id = [];
  }

  unfoldable pub convert_query_trade_common2ctp : TradeQuery → QryTradeField
  convert_query_trade_common2ctp trade_qry = record {
    broker_id = take 10 conf.broker_id;
    investor_id = take 12 conf.user_id;
    instrument_id = instrument_if_both trade_qry.symbol trade_qry.contract;
    exchange_id = take 8 trade_qry.exchange;
    trade_id = if is_empty trade_qry.trade_id then [] else ctp_id_text trade_qry.trade_id;
    trade_time_start = [];
    trade_time_end = [];
    invest_unit_id = [];
  }

  unfoldable pub convert_query_position_common2ctp : PositionQuery → QryInvestorPositionField
  convert_query_position_common2ctp position_qry = record {
    broker_id = take 10 conf.broker_id;
    investor_id = take 12 conf.user_id;
    instrument_id = instrument_if_both position_qry.symbol position_qry.contract;
    exchange_id = take 8 position_qry.exchange;
    invest_unit_id = [];
  }

  unfoldable pub convert_query_position_detail_common2ctp :
      PositionQuery → QryInvestorPositionDetailField
  convert_query_position_detail_common2ctp position_qry = record {
    broker_id = take 10 conf.broker_id;
    investor_id = take 12 conf.user_id;
    instrument_id = instrument_if_both position_qry.symbol position_qry.contract;
    exchange_id = take 8 position_qry.exchange;
    invest_unit_id = [];
  }

  unfoldable pub convert_query_trade_account_common2ctp : TradeAccountQuery → QryTradingAccountField
  convert_query_trade_account_common2ctp tradeaccount_query = record {
    broker_id = take 10 conf.broker_id;
    investor_id = take 12 conf.user_id;
    currency_id =
        if ltb 0 (length tradeaccount_query.currency_id)
        then take 3 tradeaccount_query.currency_id
        else codes "CNY";
    biz_type = 0;
    account_id = [];
  }

-- The requests of `QueryProduct`, for a product and for an instrument.
unfoldable pub product_request : ProductQuery → QryProductField
product_request product_query = record {
  product_id = take 30 product_query.symbol;
  product_class = 0;
  exchange_id = take 8 product_query.exchange;
}

unfoldable pub instrument_request : ProductQuery → QryInstrumentField
instrument_request product_query = record {
  instrument_id = instrument_if_both product_query.symbol product_query.contract;
  exchange_id = take 8 product_query.exchange;
  exchange_inst_id = [];
  product_id = [];
}
