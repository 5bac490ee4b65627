-- ===== src/Json.antt =====
-- The calls that the services make of a `rapidjson::Writer`, in their order. What the library makes
-- of them is not modelled; `Json.Grammar` says which sequences of calls spell one JSON text.
pub mod Grammar
pub mod Numbers
pub mod Reader
pub mod Members
use babeltrader.Common.{Bytes, Bool}
use babeltrader.Common.Int.{ℤ}

-- `Key` and `String` get a text, `Int`, `Int64` and `Double` a number, `Bool` a truth value.
pub data Event (D : Type 0) : Type 0 where
  start_object end_object start_array end_array : Event D
  key string : Bytes → Event D
  int int64 : ℤ → Event D
  double : D → Event D
  bool : Bool → Event D
