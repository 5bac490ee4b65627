-- ===== src/CtpTrade/Tests.antt =====
-- Instances of the laws of CtpTrade, with whole numbers for prices.
mod Data
mod Whole
use babeltrader.Converter.OrderDir.{gives, refuses}
use babeltrader.CtpTrade.Directions.{
  is_forced, plain_offset, plain_dir, convert_order_dir_common2ctp, convert_order_dir_ctp2common,
  convert_order_dir_common2ctp-ctp2common, convert_order_flag1_common2ctp, order_flag1_ctp2common,
  convert_order_flag1_common2ctp-ctp2common,
}
use babeltrader.Common.{
  if◌then◌else◌, ◌==◌, ◌||◌, ◌≡◌, refl, Bytes, codes, [], ◌∷◌, some, none, arith,
}
use babeltrader.Common.Int.{ℤ, pos}
use babeltrader.Common.StdMap.{bytes_key, lookup}
use babeltrader.Structs.{Order}
use babeltrader.CtpTrade.{
  OrderMaps, extend_ctp_id, get_ctp_id_from_extend, record_order, get_and_clean_record_order,
  clear_order_info_map,
}
use babeltrader.CtpTrade.Ids.{get_ctp_id_from_extend-extend_ctp_id}
use babeltrader.CtpTrade.Orders.{kept, clear_order_info_map-kept}

get_ctp_id_from_extend-extend_ctp_id_example :
    get_ctp_id_from_extend (extend_ctp_id (codes "8001") (codes "20190131") (codes "17")) 21
    ≡ some (codes "17")
get_ctp_id_from_extend-extend_ctp_id_example =
    get_ctp_id_from_extend-extend_ctp_id (codes "8001") (codes "20190131") (codes "17") 21
      (omega arith, (omega arith, tt)) (omega arith) (omega arith) (omega arith)

abbrev an_order : Order ℤ
an_order = record {
  user_id = codes "u1";
  order_id = codes "7";
  outside_user_id = [];
  outside_id = codes "9";
  client_order_id = [];
  market = codes "ctp";
  exchange = codes "SHFE";
  type = [];
  symbol = codes "rb";
  contract = codes "1905";
  contract_id = [];
  order_type = codes "limit";
  order_flag1 = [];
  dir = codes "open_long";
  price = pos 3500;
  amount = pos 2;
  total_price = pos 7000;
  ts = pos 1546300800000;
}

abbrev maps : OrderMaps ℤ
maps = record {
  wait_deal_orders = [];
  outside_order_maps =
      (codes "a", record { completed_ts = pos 100; order = an_order })
      ∷ (codes "b", record { completed_ts = pos 0; order = an_order })
      ∷ [];
}

clear_order_info_map-kept_example :
    lookup (codes "a") (clear_order_info_map (pos 161) maps).outside_order_maps
    ≡ kept (pos 161) (lookup (codes "a") maps.outside_order_maps)
unfolding lookup
clear_order_info_map-kept_example =
    clear_order_info_map-kept (pos 161) (codes "a") maps (refl, (refl, tt))

convert_order_dir_common2ctp-ctp2common_example :
    convert_order_dir_common2ctp (convert_order_dir_ctp2common b'1' b'3')
    ≡ (if is_forced b'3' then refuses else gives (plain_offset b'3', plain_dir b'1'))
convert_order_dir_common2ctp-ctp2common_example = convert_order_dir_common2ctp-ctp2common b'1' b'3'

convert_order_flag1_common2ctp-ctp2common_example :
    convert_order_flag1_common2ctp (order_flag1_ctp2common b'3' []) ≡ (
      if b'3' == b'1' || (b'3' == b'2' || (b'3' == b'3' || b'3' == b'5'))
      then b'3'
      else convert_order_flag1_common2ctp [])
convert_order_flag1_common2ctp-ctp2common_example =
    convert_order_flag1_common2ctp-ctp2common b'3' []
