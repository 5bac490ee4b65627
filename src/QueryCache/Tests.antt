-- ===== src/QueryCache/Tests.antt =====
-- Instances of the laws of QueryCache.
use babeltrader.Common.{◌≡◌, some, none, codes, [], arith}
use babeltrader.Structs.{ProductQuery}
use babeltrader.QueryCache.{empty, cache_qry, get_cache_qry, orders, products}
use babeltrader.QueryCache.Laws.{view, view_ws, get-cache, get_twice, get-cache_others}

abbrev rebar : ProductQuery
rebar = record {
  qry_id = codes "q1";
  market = codes "ctp";
  exchange = codes "SHFE";
  symbol = codes "rb";
  contract = [];
}

get-cache_example :
    ((get_cache_qry products 4 (cache_qry products 4 900 rebar empty)).1 ≡ (some 900, some rebar))
    × (view_ws 4 (get_cache_qry products 4 (cache_qry products 4 900 rebar empty)).0 ≡ none)
    × (view products 4 (get_cache_qry products 4 (cache_qry products 4 900 rebar empty)).0 ≡ none)
get-cache_example = get-cache products 4 900 rebar empty

get_twice_example :
    (get_cache_qry orders 4 (get_cache_qry products 4 (cache_qry products 4 900 rebar empty)).0).1.0
    ≡ none
get_twice_example = get_twice products orders 4 (cache_qry products 4 900 rebar empty)

get-cache_others_example :
    view products 4 (cache_qry products 5 901 rebar (cache_qry products 4 900 rebar empty))
    ≡ view products 4 (cache_qry products 4 900 rebar empty)
get-cache_others_example =
    (get-cache_others products products 5 901 4 rebar (cache_qry products 4 900 rebar empty)
      (omega arith)).1
