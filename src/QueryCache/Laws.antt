-- ===== src/QueryCache/Laws.antt =====
-- Laws of src/common/query_cache.cpp.
use babeltrader.Common.{ℕ, ◌≡◌, ◌≢◌, refl, Option, some, none}
use babeltrader.Common.StdMap.{
  nat_key, lookup, insert, erase, lookup-insert_self, lookup-erase_self, lookup-insert_ne,
  lookup-erase_ne,
}
use babeltrader.QueryCache.{
  QueryCache, Kind, Query, cache_of, cache_qry, get_cache_qry, orders, trades, positions,
  position_details, trade_accounts, products, cache_qry_order, get_and_clear_cache_qry_order,
  cache_qry_trade, get_and_clear_cache_qry_trade, cache_qry_position,
  get_and_clean_cache_qry_position, cache_qry_position_detail,
  get_and_clean_cache_qry_position_detail, cache_qry_trade_account,
  get_and_clean_cache_qry_trade_account, cache_qry_product, get_and_clean_cache_qry_product,
}

-- What the cache answers for a request: who waits, and the query of each kind.
abbrev pub view_ws : ℕ → QueryCache → Option ℕ
view_ws id c = lookup id c.qry_ws_cache

abbrev pub view : (k : Kind) → ℕ → QueryCache → Option (Query k)
view k id c = lookup id (cache_of k c)

ruleset fetched = (lookup-insert_self, lookup-erase_self)

-- For each kind of query: what was cached for a request number comes back as it was, the client and
-- the query; after that the number is free in both maps.
pub get-cache :
    (k : Kind) (id ws : ℕ) (q : Query k) (c : QueryCache)
    → ((get_cache_qry k id (cache_qry k id ws q c)).1 ≡ (some ws, some q))
      × (view_ws id (get_cache_qry k id (cache_qry k id ws q c)).0 ≡ none)
      × (view k id (get_cache_qry k id (cache_qry k id ws q c)).0 ≡ none)
unfolding cache_qry_order get_and_clear_cache_qry_order cache_qry_trade
    get_and_clear_cache_qry_trade cache_qry_position get_and_clean_cache_qry_position
    cache_qry_position_detail get_and_clean_cache_qry_position_detail cache_qry_trade_account
    get_and_clean_cache_qry_trade_account cache_qry_product get_and_clean_cache_qry_product
get-cache orders id ws q c = (simp fetched, simp fetched, simp fetched)
get-cache trades id ws q c = (simp fetched, simp fetched, simp fetched)
get-cache positions id ws q c = (simp fetched, simp fetched, simp fetched)
get-cache position_details id ws q c = (simp fetched, simp fetched, simp fetched)
get-cache trade_accounts id ws q c = (simp fetched, simp fetched, simp fetched)
get-cache products id ws q c = (simp fetched, simp fetched, simp fetched)

get-ws : (k : Kind) (id : ℕ) (c : QueryCache) → (get_cache_qry k id c).1.0 ≡ view_ws id c
unfolding cache_qry_order get_and_clear_cache_qry_order cache_qry_trade
    get_and_clear_cache_qry_trade cache_qry_position get_and_clean_cache_qry_position
    cache_qry_position_detail get_and_clean_cache_qry_position_detail cache_qry_trade_account
    get_and_clean_cache_qry_trade_account cache_qry_product get_and_clean_cache_qry_product
get-ws orders id c = refl
get-ws trades id c = refl
get-ws positions id c = refl
get-ws position_details id c = refl
get-ws trade_accounts id c = refl
get-ws products id c = refl

get-erase_ws :
    (k : Kind) (id : ℕ) (c : QueryCache)
    → (get_cache_qry k id c).0.qry_ws_cache ≡ erase id c.qry_ws_cache
unfolding cache_qry_order get_and_clear_cache_qry_order cache_qry_trade
    get_and_clear_cache_qry_trade cache_qry_position get_and_clean_cache_qry_position
    cache_qry_position_detail get_and_clean_cache_qry_position_detail cache_qry_trade_account
    get_and_clean_cache_qry_trade_account cache_qry_product get_and_clean_cache_qry_product
get-erase_ws orders id c = refl
get-erase_ws trades id c = refl
get-erase_ws positions id c = refl
get-erase_ws position_details id c = refl
get-erase_ws trade_accounts id c = refl
get-erase_ws products id c = refl

cache-insert_ws :
    (k : Kind) (id ws : ℕ) (q : Query k) (c : QueryCache)
    → (cache_qry k id ws q c).qry_ws_cache ≡ insert id ws c.qry_ws_cache
unfolding cache_qry_order get_and_clear_cache_qry_order cache_qry_trade
    get_and_clear_cache_qry_trade cache_qry_position get_and_clean_cache_qry_position
    cache_qry_position_detail get_and_clean_cache_qry_position_detail cache_qry_trade_account
    get_and_clean_cache_qry_trade_account cache_qry_product get_and_clean_cache_qry_product
cache-insert_ws orders id ws q c = refl
cache-insert_ws trades id ws q c = refl
cache-insert_ws positions id ws q c = refl
cache-insert_ws position_details id ws q c = refl
cache-insert_ws trade_accounts id ws q c = refl
cache-insert_ws products id ws q c = refl

-- The six kinds share the map of the clients: once a request has been fetched, as a query of
-- whatever kind, a fetch of its number as any kind finds no client.
pub get_twice :
    (k k' : Kind) (id : ℕ) (c : QueryCache)
    → (get_cache_qry k' id (get_cache_qry k id c).0).1.0 ≡ none
get_twice k k' id c = rw (get-ws, get-erase_ws, lookup-erase_self)

view-cache :
    (k j : Kind) (id ws id' : ℕ) (q : Query k) (c : QueryCache)
    → id ≢ id'
    → view j id' (cache_qry k id ws q c) ≡ view j id' c
unfolding cache_qry_order get_and_clear_cache_qry_order cache_qry_trade
    get_and_clear_cache_qry_trade cache_qry_position get_and_clean_cache_qry_position
    cache_qry_position_detail get_and_clean_cache_qry_position_detail cache_qry_trade_account
    get_and_clean_cache_qry_trade_account cache_qry_product get_and_clean_cache_qry_product
view-cache orders orders id ws id' q c ne = lookup-insert_ne id id' q _ ne
view-cache trades trades id ws id' q c ne = lookup-insert_ne id id' q _ ne
view-cache positions positions id ws id' q c ne = lookup-insert_ne id id' q _ ne
view-cache position_details position_details id ws id' q c ne = lookup-insert_ne id id' q _ ne
view-cache trade_accounts trade_accounts id ws id' q c ne = lookup-insert_ne id id' q _ ne
view-cache products products id ws id' q c ne = lookup-insert_ne id id' q _ ne
view-cache _ _ id ws id' q c ne = refl

view-get :
    (k j : Kind) (id id' : ℕ) (c : QueryCache)
    → id ≢ id'
    → view j id' (get_cache_qry k id c).0 ≡ view j id' c
unfolding cache_qry_order get_and_clear_cache_qry_order cache_qry_trade
    get_and_clear_cache_qry_trade cache_qry_position get_and_clean_cache_qry_position
    cache_qry_position_detail get_and_clean_cache_qry_position_detail cache_qry_trade_account
    get_and_clean_cache_qry_trade_account cache_qry_product get_and_clean_cache_qry_product
view-get orders orders id id' c ne = lookup-erase_ne id id' _ ne
view-get trades trades id id' c ne = lookup-erase_ne id id' _ ne
view-get positions positions id id' c ne = lookup-erase_ne id id' _ ne
view-get position_details position_details id id' c ne = lookup-erase_ne id id' _ ne
view-get trade_accounts trade_accounts id id' c ne = lookup-erase_ne id id' _ ne
view-get products products id id' c ne = lookup-erase_ne id id' _ ne
view-get _ _ id id' c ne = refl

-- Neither call touches what is kept for another request, its client and its query of any kind.
pub get-cache_others :
    (k j : Kind) (id ws id' : ℕ) (q : Query k) (c : QueryCache)
    → id ≢ id'
    → (view_ws id' (cache_qry k id ws q c) ≡ view_ws id' c)
      × (view j id' (cache_qry k id ws q c) ≡ view j id' c)
      × (view_ws id' (get_cache_qry k id c).0 ≡ view_ws id' c)
      × (view j id' (get_cache_qry k id c).0 ≡ view j id' c)
get-cache_others k j id ws id' q c ne = (
  rw (cache-insert_ws, lookup-insert_ne id id' ws c.qry_ws_cache ne),
  view-cache k j id ws id' q c ne,
  rw (get-erase_ws, lookup-erase_ne id id' c.qry_ws_cache ne),
  view-get k j id id' c ne,
)
