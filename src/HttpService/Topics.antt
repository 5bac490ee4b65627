-- ===== src/HttpService/Topics.antt =====
-- Topics in requests (src/common/http_service.cpp).
use babeltrader.Common.{
  ◌<◌, ◌≡◌, refl, Bytes, true, codes, List, [], ◌∷◌, some, get_elem?, length, inr, arith,
}
use babeltrader.Common.Double.{Double}
use babeltrader.Structs.{Quote}
use babeltrader.Enum.{EnumTable, texts}
use babeltrader.Enum.Laws.{get_enum-texts}
use babeltrader.Json.{Event, key, string}
use babeltrader.Json.Reader.{Reader, HasMembers}
use babeltrader.HttpService.{parse_subunsub_msg, field_text}

field_text-fits : (left_over s : Bytes) → length s < 15 → field_text left_over s ≡ s
field_text-fits left_over s h = ground arith

module _ (F : Double) (R : Reader F) where
  open F use {D}
  open R use {V, is_object}

  -- The members of a topic, with the texts of its enumerators.
  abbrev pub topic_members : Bytes → Bytes → Bytes → Bytes → Bytes → Quote → List (Event D)
  topic_members market exchange type info1 info2 q =
      key (codes "market")
      ∷ string market
      ∷ key (codes "exchange")
      ∷ string exchange
      ∷ key (codes "type")
      ∷ string type
      ∷ key (codes "symbol")
      ∷ string q.symbol
      ∷ key (codes "contract")
      ∷ string q.contract
      ∷ key (codes "contract_id")
      ∷ string q.contract_id
      ∷ key (codes "info1")
      ∷ string info1
      ∷ key (codes "info2")
      ∷ string info2
      ∷ []

  -- The texts of a topic fit their fields with a NUL behind them, whatever these held.
  abbrev pub Fits : Quote → Type 0
  Fits q = (length q.symbol < 15) × (length q.contract < 15) × (length q.contract_id < 15)

  -- A request that is an object and names a topic by the texts of its enumerators is read as this topic, if its other
  -- texts have fewer than 15 bytes.
  pub parse_subunsub_msg-topic :
      (left_over : Bytes) (d : V) (q : Quote) (market exchange type info1 info2 : Bytes)
      → get_elem? (texts EnumTable.markets) q.market ≡ some market
      → get_elem? (texts EnumTable.exchanges) q.exchange ≡ some exchange
      → get_elem? (texts EnumTable.product_types) q.type ≡ some type
      → get_elem? (texts EnumTable.quote_info1) q.info1 ≡ some info1
      → get_elem? (texts EnumTable.quote_info2) q.info2 ≡ some info2
      → Fits q
      → is_object d ≡ true
      → HasMembers F R d (topic_members market exchange type info1 info2 q)
      → parse_subunsub_msg F R left_over d ≡ some (inr q)
  unfolding parse_subunsub_msg
  parse_subunsub_msg-topic left_over d q market exchange type info1 info2 a b c e f g o h =
      rw
        (
          o,
          h.0.0,
          h.0.1.0,
          h.0.1.1,
          h.1.0.0,
          h.1.0.1.0,
          h.1.0.1.1,
          h.1.1.0.0,
          h.1.1.0.1.0,
          h.1.1.0.1.1,
          h.1.1.1.0.0,
          h.1.1.1.0.1.0,
          h.1.1.1.0.1.1,
          h.1.1.1.1.0.0,
          h.1.1.1.1.0.1.0,
          h.1.1.1.1.0.1.1,
          h.1.1.1.1.1.0.0,
          h.1.1.1.1.1.0.1.0,
          h.1.1.1.1.1.0.1.1,
          h.1.1.1.1.1.1.0.0,
          h.1.1.1.1.1.1.0.1.0,
          h.1.1.1.1.1.1.0.1.1,
          h.1.1.1.1.1.1.1.0.0,
          h.1.1.1.1.1.1.1.0.1.0,
          h.1.1.1.1.1.1.1.0.1.1,
          get_enum-texts EnumTable.markets q.market market a,
          get_enum-texts EnumTable.exchanges q.exchange exchange b,
          get_enum-texts EnumTable.product_types q.type type c,
          get_enum-texts EnumTable.quote_info1 q.info1 info1 e,
          get_enum-texts EnumTable.quote_info2 q.info2 info2 f,
          field_text-fits left_over q.symbol g.0,
          field_text-fits left_over q.contract g.1,
          field_text-fits left_over q.contract_id g.2,
        )
        refl
