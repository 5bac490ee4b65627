-- ===== src/QuoteService/Tests.antt =====
-- Instances of the laws of QuoteService, with whole numbers for prices.
use babeltrader.Common.{codes, List, [], ◌∷◌, arith}
use mathlib.Core.List.{flatten}
use babeltrader.Common.Int.{ℤ, pos}
use babeltrader.Common.Double.{whole_numbers}
use babeltrader.Structs.{Quote, MarketData, OrderBookLevel2}
use babeltrader.QuoteService.{QuoteBlock, market_data_block, level2_block, other_block}
use babeltrader.QuoteService.Batches.{SendsInOrder, async_loop-sends}

abbrev a_quote : Quote
a_quote = record {
  market = 1;
  exchange = 1;
  type = 1;
  info1 = 1;
  symbol = codes "rb";
  contract = codes "1905";
  contract_id = [];
  info2 = 0;
}

abbrev a_tick : MarketData ℤ
a_tick = record {
  ts = pos 1546300800000;
  last = pos 3500;
  bid_ask_len = 1;
  bids = record { price = pos 3499; vol = pos 3 } ∷ [];
  asks = record { price = pos 3501; vol = pos 4 } ∷ [];
  vol = pos 0;
  turnover = pos 0;
  avg_price = pos 0;
  pre_settlement = pos 0;
  pre_close = pos 0;
  pre_open_interest = pos 0;
  settlement = pos 0;
  close = pos 0;
  open_interest = pos 0;
  upper_limit = pos 0;
  lower_limit = pos 0;
  open_price = pos 0;
  high = pos 0;
  low = pos 0;
  trading_day = [];
  action_day = [];
}

abbrev an_entrust : OrderBookLevel2 ℤ
an_entrust = record {
  ts = pos 0;
  seq = pos 0;
  action = 1;
  entrust = record {
    channel_no = pos 0;
    seq = pos 0;
    price = pos 0;
    vol = pos 0;
    dir = 2;
    order_type = 1;
  };
  trade = record {
    channel_no = pos 0;
    seq = pos 0;
    price = pos 0;
    vol = pos 0;
    bid_no = pos 0;
    ask_no = pos 0;
    trade_flag = 0;
  };
}

abbrev reads : List (List (QuoteBlock ℤ))
reads =
    (market_data_block (record { quote_type = 0; quote = a_quote; market_data = a_tick })
      ∷ other_block
      ∷ [])
    ∷ []
    ∷ (level2_block (record { quote_type = 3; quote = a_quote; level2 = an_entrust }) ∷ [])
    ∷ []

async_loop-sends_example : SendsInOrder whole_numbers reads
unfolding flatten
async_loop-sends_example = async_loop-sends whole_numbers reads (
  ((omega arith, omega arith, omega arith, omega arith, omega arith), (omega arith, omega arith)),
  (
    tt,
    (
      (
        (omega arith, omega arith, omega arith, omega arith, omega arith),
        (omega arith, λ _. (omega arith, omega arith), λ e. omega arith),
      ),
      tt,
    ),
  ),
)
