-- ===== src/Structs/Accounts.antt =====
-- src/common/common_struct.h, the answers about positions, accounts and products.
use babeltrader.Common.{Bytes}
use babeltrader.Common.Int.{ℤ}

pub record PositionSummaryType1 (D : Type 0) : Type 0 where
  pub market : Bytes
  pub outside_user_id : Bytes
  pub exchange : Bytes
  pub type : Bytes
  pub symbol : Bytes
  pub contract : Bytes
  pub contract_id : Bytes
  pub dir : Bytes
  pub order_flag1 : Bytes
  pub date_type : Bytes
  pub amount : D
  pub closed_amount : D
  pub today_amount : D
  pub margin : D
  pub margin_rate_by_money : D
  pub margin_rate_by_vol : D
  pub long_frozen : D
  pub short_frozen : D
  pub frozen_margin : D
  pub trading_day : Bytes
  pub pre_settlement_price : D
  pub settlement_price : D
  pub open_cost : D
  pub position_cost : D
  pub position_profit : D
  pub close_profit_by_date : D
  pub close_profit_by_trade : D

pub record PositionSummaryType2 (D : Type 0) : Type 0 where
  pub market : Bytes
  pub outside_user_id : Bytes
  pub exchange : Bytes
  pub type : Bytes
  pub symbol : Bytes
  pub dir : Bytes
  pub amount : D
  pub avaliable_amount : D
  pub avg_price : D
  pub unrealized_profit : D
  pub purchase_redeemable_qty : D
  pub executable_option : ℤ
  pub lockable_position : ℤ
  pub executable_underlying : ℤ
  pub locked_position : ℤ
  pub usable_locked_position : ℤ

pub record PositionDetailType1 (D : Type 0) : Type 0 where
  pub market : Bytes
  pub outside_user_id : Bytes
  pub exchange : Bytes
  pub type : Bytes
  pub symbol : Bytes
  pub contract : Bytes
  pub contract_id : Bytes
  pub dir : Bytes
  pub order_flag1 : Bytes
  pub open_date : Bytes
  pub trading_day : Bytes
  pub trade_id : Bytes
  pub amount : D
  pub closed_amount : D
  pub closed_money : D
  pub pre_settlement_price : D
  pub settlement_price : D
  pub open_price : D
  pub margin : D
  pub margin_rate_by_money : D
  pub margin_rate_by_vol : D
  pub close_profit_by_date : D
  pub close_profit_by_trade : D
  pub position_profit_by_date : D
  pub position_profit_by_trade : D

pub record TradeAccountType1 (D : Type 0) : Type 0 where
  pub market : Bytes
  pub outside_user_id : Bytes
  pub pre_credit : D
  pub pre_balance : D
  pub pre_margin : D
  pub interest : D
  pub deposit : D
  pub withdraw : D
  pub credit : D
  pub margin : D
  pub commission : D
  pub close_profit : D
  pub position_profit : D
  pub frozen_margin : D
  pub frozen_cash : D
  pub frozen_commision : D
  pub balance : D
  pub available : D
  pub currency_id : Bytes
  pub trading_day : Bytes

pub record TradeAccountType2 (D : Type 0) : Type 0 where
  pub market : Bytes
  pub outside_user_id : Bytes
  pub account_type : Bytes
  pub total_asset : D
  pub available_cash : D
  pub securities_asset : D
  pub fund_buy_amount : D
  pub fund_buy_fee : D
  pub fund_sell_amount : D
  pub fund_sell_fee : D
  pub withholding_amount : D
  pub frozen_margin : D
  pub frozen_exec_cash : D
  pub frozen_exec_fee : D
  pub pay_later : D
  pub preadva_pay : D
  pub orig_banlance : D
  pub banlance : D
  pub deposit_withdraw : D
  pub trade_netting : D
  pub captial_asset : D
  pub force_freeze_amount : D
  pub preferred_amount : D

pub record ProductType1 (D : Type 0) : Type 0 where
  pub market : Bytes
  pub outside_user_id : Bytes
  pub exchange : Bytes
  pub type : Bytes
  pub symbol : Bytes
  pub contract : Bytes
  pub contract_id : Bytes
  pub vol_multiple : D
  pub price_tick : D
  pub long_margin_ratio : D
  pub short_margin_ratio : D
