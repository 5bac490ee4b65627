-- ===== src/CtpQuotes/Depth.antt =====
-- A tick of the CTP interface and its translation: `CTPQuoteHandler::ConvertMarketData` and
-- `GetUpdateTimeMs` (src/ctp-quotes/ctp_quote_handler.cpp). `atoi` and `mktime` are the C library's.
use babeltrader.Common.{ℕ, Bytes, List, [], ◌∷◌, Option, if◌then◌else◌, ltb, ◌==◌, length, take}
use mathlib.Core.Option
use babeltrader.Common.Int.{ℤ, pos}
use babeltrader.Common.Double.{Double}
use babeltrader.Structs.{Quote, PriceVol, MarketData}
use babeltrader.Enum.{get_exchange_enum, market_ctp, product_type_future, info1_market_data}
use babeltrader.Utils.{Tm, split_instrument_into, ctp_get_timestamp}

-- The fields that the code reads of the `CThostFtdcDepthMarketDataField` that the interface hands in.
pub record DepthMarketData (D : Type 0) : Type 0 where
  pub trading_day : Bytes
  pub instrument_id : Bytes
  pub exchange_id : Bytes
  pub exchange_inst_id : Bytes
  pub last_price : D
  pub pre_settlement_price : D
  pub pre_close_price : D
  pub pre_open_interest : D
  pub open_price : D
  pub highest_price : D
  pub lowest_price : D
  pub volume : ℤ
  pub turnover : D
  pub open_interest : D
  pub close_price : D
  pub settlement_price : D
  pub upper_limit_price : D
  pub lower_limit_price : D
  pub pre_delta : D
  pub curr_delta : D
  pub update_time : Bytes
  pub update_millisec : ℤ
  pub bid_price1 : D
  pub bid_volume1 : ℤ
  pub ask_price1 : D
  pub ask_volume1 : ℤ
  pub bid_price2 : D
  pub bid_volume2 : ℤ
  pub ask_price2 : D
  pub ask_volume2 : ℤ
  pub bid_price3 : D
  pub bid_volume3 : ℤ
  pub ask_price3 : D
  pub ask_volume3 : ℤ
  pub bid_price4 : D
  pub bid_volume4 : ℤ
  pub ask_price4 : D
  pub ask_volume4 : ℤ
  pub bid_price5 : D
  pub bid_volume5 : ℤ
  pub ask_price5 : D
  pub ask_volume5 : ℤ
  pub average_price : D
  pub action_day : Bytes

-- The day that the time of a tick belongs to: behind 20h the day of the connection, before 8h the
-- day after it, else the trading day.
unfoldable pub tick_day : {D : Type 0} → (Bytes → ℕ) → Bytes → Bytes → DepthMarketData D → Bytes
tick_day atoi action_day next_action_day d =
    let hour = atoi (take 2 d.update_time) in
    if length d.update_time == 8
    then (if ltb 20 hour
        then action_day
        else (if ltb hour 8 then next_action_day else d.trading_day))
    else d.trading_day

unfoldable pub get_update_time_ms :
    {D : Type 0} → (Bytes → ℕ) → (Tm → ℤ) → Bytes → Bytes → DepthMarketData D → ℤ
get_update_time_ms atoi mktime action_day next_action_day d =
    ctp_get_timestamp atoi mktime (tick_day atoi action_day next_action_day d) d.update_time
      d.update_millisec

module _ (F : Double) where
  open F use {D, of_int}

  -- `quote`, of which the handler has set every byte to 0. `symbol` and `contract` have 16 bytes.
  unfoldable pub convert_quote : DepthMarketData D → Option Quote
  convert_quote d =
      Option.map
        (λ parts. record {
          market = market_ctp;
          exchange = get_exchange_enum d.exchange_id;
          type = product_type_future;
          info1 = info1_market_data;
          symbol = parts.0;
          contract = parts.1;
          contract_id = [];
          info2 = 0;
        })
        (split_instrument_into 16 d.instrument_id)

  abbrev price_vol : D → ℤ → PriceVol D
  price_vol p v = record { price = p; vol = v }

  -- The five levels behind the tick's own are 0.
  abbrev no_level : PriceVol D
  no_level = record { price = of_int (pos 0); vol = pos 0 }

  abbrev five : PriceVol D → PriceVol D → PriceVol D → PriceVol D → PriceVol D → List (PriceVol D)
  five a b c d e = a ∷ b ∷ c ∷ d ∷ e ∷ no_level ∷ no_level ∷ no_level ∷ no_level ∷ no_level ∷ []

  -- `md`. `trading_day` and `action_day` have 32 bytes, of which the last stays 0.
  unfoldable pub convert_market_data : ℤ → DepthMarketData D → MarketData D
  convert_market_data ts d = record {
    ts = ts;
    last = d.last_price;
    bid_ask_len = 5;
    bids =
        five (price_vol d.bid_price1 d.bid_volume1) (price_vol d.bid_price2 d.bid_volume2)
          (price_vol d.bid_price3 d.bid_volume3) (price_vol d.bid_price4 d.bid_volume4)
          (price_vol d.bid_price5 d.bid_volume5);
    asks =
        five (price_vol d.ask_price1 d.ask_volume1) (price_vol d.ask_price2 d.ask_volume2)
          (price_vol d.ask_price3 d.ask_volume3) (price_vol d.ask_price4 d.ask_volume4)
          (price_vol d.ask_price5 d.ask_volume5);
    vol = of_int d.volume;
    turnover = d.turnover;
    avg_price = d.average_price;
    pre_settlement = d.pre_settlement_price;
    pre_close = d.pre_close_price;
    pre_open_interest = d.pre_open_interest;
    settlement = d.settlement_price;
    close = d.close_price;
    open_interest = d.open_interest;
    upper_limit = d.upper_limit_price;
    lower_limit = d.lower_limit_price;
    open_price = d.open_price;
    high = d.highest_price;
    low = d.lowest_price;
    trading_day = take 31 d.trading_day;
    action_day = take 31 d.action_day;
  }
