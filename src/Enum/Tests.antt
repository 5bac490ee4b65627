-- ===== src/Enum/Tests.antt =====
-- Instances of the laws of Enum, and runs.
use babeltrader.Common.{◌≡◌, refl, ◌↔◌, codes, some, get_elem?}
use babeltrader.Enum.{EnumTable, texts, get_enum, get_market_enum, get_exchange_enum}
use babeltrader.Enum.Laws.{get_enum_iff}

get_enum_iff_example :
    (get_enum EnumTable.exchanges (codes "SSE") ≡ 6)
    ↔ (get_elem? (texts EnumTable.exchanges) 6 ≡ some (codes "SSE"))
get_enum_iff_example = get_enum_iff EnumTable.exchanges 5 (codes "SSE")

get_market_enum_run : get_market_enum (codes "xtp") ≡ 3
unfolding get_market_enum
get_market_enum_run = refl

get_exchange_enum_case : get_exchange_enum (codes "sse") ≡ 0
unfolding get_exchange_enum
get_exchange_enum_case = refl
