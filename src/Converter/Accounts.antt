-- ===== src/Converter/Accounts.antt =====
-- The writers of positions, accounts and products (src/common/converter.cpp).
use babeltrader.Common.{List, [], ◌∷◌, codes}
use babeltrader.Common.Double.{Double}
use babeltrader.Structs.{
  PositionSummaryType1, PositionDetailType1, TradeAccountType1, ProductType1, PositionSummaryType2,
  TradeAccountType2,
}
use babeltrader.Json.{Event, key, string, int64, double}

module _ (F : Double) where
  open F use {D}

  unfoldable pub serialize_position_summary_type1 : PositionSummaryType1 D → List (Event D)
  serialize_position_summary_type1 position_summary =
      key (codes "market")
      ∷ string position_summary.market
      ∷ key (codes "outside_user_id")
      ∷ string position_summary.outside_user_id
      ∷ key (codes "exchange")
      ∷ string position_summary.exchange
      ∷ key (codes "type")
      ∷ string position_summary.type
      ∷ key (codes "symbol")
      ∷ string position_summary.symbol
      ∷ key (codes "contract")
      ∷ string position_summary.contract
      ∷ key (codes "contract_id")
      ∷ string position_summary.contract_id
      ∷ key (codes "dir")
      ∷ string position_summary.dir
      ∷ key (codes "order_flag1")
      ∷ string position_summary.order_flag1
      ∷ key (codes "date_type")
      ∷ string position_summary.date_type
      ∷ key (codes "amount")
      ∷ double position_summary.amount
      ∷ key (codes "closed_amount")
      ∷ double position_summary.closed_amount
      ∷ key (codes "today_amount")
      ∷ double position_summary.today_amount
      ∷ key (codes "margin")
      ∷ double position_summary.margin
      ∷ key (codes "margin_rate_by_money")
      ∷ double position_summary.margin_rate_by_money
      ∷ key (codes "margin_rate_by_vol")
      ∷ double position_summary.margin_rate_by_vol
      ∷ key (codes "long_frozen")
      ∷ double position_summary.long_frozen
      ∷ key (codes "short_frozen")
      ∷ double position_summary.short_frozen
      ∷ key (codes "frozen_margin")
      ∷ double position_summary.frozen_margin
      ∷ key (codes "trading_day")
      ∷ string position_summary.trading_day
      ∷ key (codes "pre_settlement_price")
      ∷ double position_summary.pre_settlement_price
      ∷ key (codes "settlement_price")
      ∷ double position_summary.settlement_price
      ∷ key (codes "open_cost")
      ∷ double position_summary.open_cost
      ∷ key (codes "position_cost")
      ∷ double position_summary.position_cost
      ∷ key (codes "position_profit")
      ∷ double position_summary.position_profit
      ∷ key (codes "close_profit_by_date")
      ∷ double position_summary.close_profit_by_date
      ∷ key (codes "close_profit_by_trade")
      ∷ double position_summary.close_profit_by_trade
      ∷ []

  unfoldable pub serialize_position_detail_type1 : PositionDetailType1 D → List (Event D)
  serialize_position_detail_type1 position_detail =
      key (codes "market")
      ∷ string position_detail.market
      ∷ key (codes "outside_user_id")
      ∷ string position_detail.outside_user_id
      ∷ key (codes "exchange")
      ∷ string position_detail.exchange
      ∷ key (codes "type")
      ∷ string position_detail.type
      ∷ key (codes "symbol")
      ∷ string position_detail.symbol
      ∷ key (codes "contract")
      ∷ string position_detail.contract
      ∷ key (codes "contract_id")
      ∷ string position_detail.contract_id
      ∷ key (codes "dir")
      ∷ string position_detail.dir
      ∷ key (codes "order_flag1")
      ∷ string position_detail.order_flag1
      ∷ key (codes "open_date")
      ∷ string position_detail.open_date
      ∷ key (codes "trading_day")
      ∷ string position_detail.trading_day
      ∷ key (codes "trade_id")
      ∷ string position_detail.trade_id
      ∷ key (codes "amount")
      ∷ double position_detail.amount
      ∷ key (codes "closed_amount")
      ∷ double position_detail.closed_amount
      ∷ key (codes "closed_money")
      ∷ double position_detail.closed_money
      ∷ key (codes "pre_settlement_price")
      ∷ double position_detail.pre_settlement_price
      ∷ key (codes "settlement_price")
      ∷ double position_detail.settlement_price
      ∷ key (codes "open_price")
      ∷ double position_detail.open_price
      ∷ key (codes "margin")
      ∷ double position_detail.margin
      ∷ key (codes "margin_rate_by_money")
      ∷ double position_detail.margin_rate_by_money
      ∷ key (codes "margin_rate_by_vol")
      ∷ double position_detail.margin_rate_by_vol
      ∷ key (codes "close_profit_by_date")
      ∷ double position_detail.close_profit_by_date
      ∷ key (codes "close_profit_by_trade")
      ∷ double position_detail.close_profit_by_trade
      ∷ key (codes "position_profit_by_date")
      ∷ double position_detail.position_profit_by_date
      ∷ key (codes "position_profit_by_trade")
      ∷ double position_detail.position_profit_by_trade
      ∷ []

  unfoldable pub serialize_trade_account_type1 : TradeAccountType1 D → List (Event D)
  serialize_trade_account_type1 trade_account =
      key (codes "market")
      ∷ string trade_account.market
      ∷ key (codes "outside_user_id")
      ∷ string trade_account.outside_user_id
      ∷ key (codes "pre_credit")
      ∷ double trade_account.pre_credit
      ∷ key (codes "pre_balance")
      ∷ double trade_account.pre_balance
      ∷ key (codes "pre_margin")
      ∷ double trade_account.pre_margin
      ∷ key (codes "interest")
      ∷ double trade_account.interest
      ∷ key (codes "deposit")
      ∷ double trade_account.deposit
      ∷ key (codes "withdraw")
      ∷ double trade_account.withdraw
      ∷ key (codes "credit")
      ∷ double trade_account.credit
      ∷ key (codes "margin")
      ∷ double trade_account.margin
      ∷ key (codes "commission")
      ∷ double trade_account.commission
      ∷ key (codes "close_profit")
      ∷ double trade_account.close_profit
      ∷ key (codes "position_profit")
      ∷ double trade_account.position_profit
      ∷ key (codes "frozen_margin")
      ∷ double trade_account.frozen_margin
      ∷ key (codes "frozen_cash")
      ∷ double trade_account.frozen_cash
      ∷ key (codes "frozen_commision")
      ∷ double trade_account.frozen_commision
      ∷ key (codes "balance")
      ∷ double trade_account.balance
      ∷ key (codes "available")
      ∷ double trade_account.available
      ∷ key (codes "currency_id")
      ∷ string trade_account.currency_id
      ∷ key (codes "trading_day")
      ∷ string trade_account.trading_day
      ∷ []

  unfoldable pub serialize_product_type1 : ProductType1 D → List (Event D)
  serialize_product_type1 product_type =
      key (codes "market")
      ∷ string product_type.market
      ∷ key (codes "outside_user_id")
      ∷ string product_type.outside_user_id
      ∷ key (codes "exchange")
      ∷ string product_type.exchange
      ∷ key (codes "type")
      ∷ string product_type.type
      ∷ key (codes "symbol")
      ∷ string product_type.symbol
      ∷ key (codes "contract")
      ∷ string product_type.contract
      ∷ key (codes "contract_id")
      ∷ string product_type.contract_id
      ∷ key (codes "vol_multiple")
      ∷ double product_type.vol_multiple
      ∷ key (codes "price_tick")
      ∷ double product_type.price_tick
      ∷ key (codes "long_margin_ratio")
      ∷ double product_type.long_margin_ratio
      ∷ key (codes "short_margin_ratio")
      ∷ double product_type.short_margin_ratio
      ∷ []

  unfoldable pub serialize_position_summary_type2 : PositionSummaryType2 D → List (Event D)
  serialize_position_summary_type2 position_summary =
      key (codes "market")
      ∷ string position_summary.market
      ∷ key (codes "outside_user_id")
      ∷ string position_summary.outside_user_id
      ∷ key (codes "exchange")
      ∷ string position_summary.exchange
      ∷ key (codes "type")
      ∷ string position_summary.type
      ∷ key (codes "symbol")
      ∷ string position_summary.symbol
      ∷ key (codes "dir")
      ∷ string position_summary.dir
      ∷ key (codes "amount")
      ∷ double position_summary.amount
      ∷ key (codes "avaliable_amount")
      ∷ double position_summary.avaliable_amount
      ∷ key (codes "avg_price")
      ∷ double position_summary.avg_price
      ∷ key (codes "unrealized_profit")
      ∷ double position_summary.unrealized_profit
      ∷ key (codes "purchase_redeemable_qty")
      ∷ double position_summary.purchase_redeemable_qty
      ∷ key (codes "executable_option")
      ∷ int64 position_summary.executable_option
      ∷ key (codes "lockable_position")
      ∷ int64 position_summary.lockable_position
      ∷ key (codes "executable_underlying")
      ∷ int64 position_summary.executable_underlying
      ∷ key (codes "locked_position")
      ∷ int64 position_summary.locked_position
      ∷ key (codes "usable_locked_position")
      ∷ int64 position_summary.usable_locked_position
      ∷ []

  unfoldable pub serialize_trade_account_type2 : TradeAccountType2 D → List (Event D)
  serialize_trade_account_type2 trade_account =
      key (codes "market")
      ∷ string trade_account.market
      ∷ key (codes "outside_user_id")
      ∷ string trade_account.outside_user_id
      ∷ key (codes "account_type")
      ∷ string trade_account.account_type
      ∷ key (codes "total_asset")
      ∷ double trade_account.total_asset
      ∷ key (codes "available_cash")
      ∷ double trade_account.available_cash
      ∷ key (codes "securities_asset")
      ∷ double trade_account.securities_asset
      ∷ key (codes "fund_buy_amount")
      ∷ double trade_account.fund_buy_amount
      ∷ key (codes "fund_buy_fee")
      ∷ double trade_account.fund_buy_fee
      ∷ key (codes "fund_sell_amount")
      ∷ double trade_account.fund_sell_amount
      ∷ key (codes "fund_sell_fee")
      ∷ double trade_account.fund_sell_fee
      ∷ key (codes "withholding_amount")
      ∷ double trade_account.withholding_amount
      ∷ key (codes "frozen_margin")
      ∷ double trade_account.frozen_margin
      ∷ key (codes "frozen_exec_cash")
      ∷ double trade_account.frozen_exec_cash
      ∷ key (codes "frozen_exec_fee")
      ∷ double trade_account.frozen_exec_fee
      ∷ key (codes "pay_later")
      ∷ double trade_account.pay_later
      ∷ key (codes "preadva_pay")
      ∷ double trade_account.preadva_pay
      ∷ key (codes "orig_banlance")
      ∷ double trade_account.orig_banlance
      ∷ key (codes "banlance")
      ∷ double trade_account.banlance
      ∷ key (codes "deposit_withdraw")
      ∷ double trade_account.deposit_withdraw
      ∷ key (codes "trade_netting")
      ∷ double trade_account.trade_netting
      ∷ key (codes "captial_asset")
      ∷ double trade_account.captial_asset
      ∷ key (codes "force_freeze_amount")
      ∷ double trade_account.force_freeze_amount
      ∷ key (codes "preferred_amount")
      ∷ double trade_account.preferred_amount
      ∷ []
