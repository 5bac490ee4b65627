-- ===== src/CtpTrade/Tests/Data.antt =====
-- Orders, notices and a handler for the instances of the laws of CtpTrade, with whole numbers for prices.
use babeltrader.Common.{true, codes, [], ◌∷◌}
use babeltrader.Common.Int.{ℤ, pos}
use babeltrader.Common.Double.{whole_numbers}
use babeltrader.Common.StdMap.{bytes_key, nat_key}
use babeltrader.Structs.{Order, OrderQuery}
use babeltrader.CtpTrade.Fields.Requests.{InputOrderField}
use babeltrader.CtpTrade.Fields.Orders.{OrderField, TradeField}
use babeltrader.CtpTrade.Handler.{CtpTradeConf, Libc, CtpTradeHandler}
use babeltrader.CtpTrade.Asked.{input_order}

abbrev pub conf : CtpTradeConf
conf = record {
  broker_id = codes "9999";
  user_id = codes "8001";
  password = codes "x";
  app_id = [];
  auth_code = [];
}

abbrev pub libc : Libc
libc = record { print = λ n. codes "1"; atoi = λ s. 0; mktime = λ t. pos 0 }

abbrev pub an_order : Order ℤ
an_order = record {
  user_id = codes "u1";
  order_id = codes "7";
  outside_user_id = [];
  outside_id = [];
  client_order_id = codes "c1";
  market = codes "ctp";
  exchange = codes "SHFE";
  type = [];
  symbol = codes "rb";
  contract = codes "1905";
  contract_id = [];
  order_type = codes "limit";
  order_flag1 = [];
  dir = codes "open_long";
  price = pos 3500;
  amount = pos 2;
  total_price = pos 7000;
  ts = pos 1546300800000;
}

abbrev pub a_query : OrderQuery
a_query = record {
  qry_id = codes "q1";
  user_id = [];
  outside_id = [];
  market = codes "ctp";
  exchange = [];
  type = [];
  symbol = [];
  contract = [];
  contract_id = [];
}

-- Behind a login.
abbrev pub connected : CtpTradeHandler ℤ
connected = record {
  api = true;
  api_ready = true;
  req_login_cnt = 0;
  req_id = 4;
  order_ref = 1;
  order_action_ref = 1;
  ctp_tradeing_day = codes "20190131";
  ctp_login_time = [];
  ctp_front_id = pos 1;
  ctp_session_id = pos 2;
  order_maps = record { wait_deal_orders = []; outside_order_maps = [] };
  tunnel = [];
  qry_cache = record {
    qry_ws_cache = (3, 5) ∷ [];
    qry_order_cache = (3, a_query) ∷ [];
    qry_trade_cache = [];
    qry_position_cache = [];
    qry_position_detail_cache = [];
    qry_trade_account_cache = [];
    qry_product_cache = [];
  };
  rsp_qry_order_caches = [];
  rsp_qry_trade_caches = [];
  rsp_qry_position_caches = [];
  rsp_qry_position_detail_caches = [];
  rsp_qry_trade_account_caches = [];
  rsp_qry_product_caches = [];
  rsp_qry_instrument_caches = [];
}

abbrev pub req : InputOrderField ℤ
req =
    input_order whole_numbers conf libc an_order (record connected { order_ref = 1 }) b'2' b'0' b'0'

abbrev pub a_notice : OrderField ℤ
a_notice = record {
  broker_id = [];
  investor_id = codes "8001";
  instrument_id = codes "rb1905";
  order_ref = codes "1";
  user_id = codes "8001";
  order_price_type = b'1';
  direction = b'0';
  comb_offset_flag = codes "0";
  comb_hedge_flag = codes "1";
  limit_price = pos 3500;
  volume_total_original = pos 2;
  time_condition = b'1';
  gtd_date = [];
  volume_condition = b'1';
  min_volume = pos 0;
  contingent_condition = b'1';
  stop_price = pos 0;
  force_close_reason = b'1';
  is_auto_suspend = pos 0;
  business_unit = [];
  request_id = pos 0;
  order_local_id = [];
  exchange_id = [];
  participant_id = [];
  client_id = [];
  exchange_inst_id = [];
  trader_id = [];
  order_submit_status = b'3';
  notify_sequence = pos 0;
  trading_day = codes "20190131";
  settlement_id = pos 0;
  order_sys_id = codes "77";
  order_source = b'1';
  order_status = b'3';
  order_type = b'1';
  volume_traded = pos 0;
  volume_total = pos 0;
  insert_date = [];
  insert_time = [];
  active_time = [];
  suspend_time = [];
  update_time = [];
  cancel_time = [];
  active_trader_id = [];
  clearing_part_id = [];
  sequence_no = pos 0;
  front_id = pos 1;
  session_id = pos 2;
  user_product_info = [];
  status_msg = [];
  user_force_close = pos 0;
  active_user_id = [];
  broker_order_seq = pos 0;
  relative_order_sys_id = [];
  zce_total_traded_volume = pos 0;
  is_swap_order = pos 0;
  branch_id = [];
  invest_unit_id = [];
  account_id = [];
  currency_id = [];
  ip_address = [];
  mac_address = [];
}

abbrev pub a_trade : TradeField ℤ
a_trade = record {
  broker_id = [];
  investor_id = codes "8001";
  instrument_id = codes "rb1905";
  order_ref = codes "1";
  user_id = codes "8001";
  exchange_id = [];
  trade_id = [];
  direction = b'0';
  order_sys_id = codes "77";
  participant_id = [];
  client_id = [];
  trading_role = b'1';
  exchange_inst_id = [];
  offset_flag = b'1';
  hedge_flag = b'1';
  price = pos 0;
  volume = pos 0;
  trade_date = [];
  trade_time = [];
  trade_type = b'1';
  price_source = b'1';
  trader_id = [];
  order_local_id = [];
  clearing_part_id = [];
  business_unit = [];
  sequence_no = pos 0;
  trading_day = codes "20190131";
  settlement_id = pos 0;
  broker_order_seq = pos 0;
  trade_source = b'1';
  invest_unit_id = [];
}
