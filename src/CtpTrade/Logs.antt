-- ===== src/CtpTrade/Logs.antt =====
-- The logs of `CTPTradeHandler` (src/ctp-trade/ctp_trade_handler.cpp): what the `SerializeCTP…` and
-- `Output…` write, as calls of the writer.
pub mod Requests
pub mod Orders
pub mod Positions
pub mod Accounts
pub mod Sent
pub mod Heard
pub mod Rows
pub mod Connection
pub mod Texts
use babeltrader.Common.{ℕ, Bytes, String, codes, List, [], ◌∷◌, if◌then◌else◌, ◌==◌}
use babeltrader.Common.{◌++◌, Option, none, some, Bool}
use babeltrader.Common.Int.{ℤ, pos}
use babeltrader.Json.{Event, start_object, end_object, key, string, int, bool}
use babeltrader.CtpTrade.Fields.Session.{RspInfoField}

-- `buf` with one character and a NUL behind it, read as a text.
abbrev pub one_char : ℕ → Bytes
one_char c = if c == 0 then [] else c ∷ []

-- A `Key` and the call for its value, one pair after the other.
abbrev pub members : {D : Type 0} → List (String × Event D) → List (Event D)
members [] = []
members ((name, value) ∷ rest) = key (codes name) ∷ value ∷ members rest

module _ {D : Type 0} where
  -- What all have around what they say.
  abbrev pub message : String → List (Event D) → List (Event D)
  message name body =
      start_object ∷ key (codes "msg") ∷ string (codes name) ∷ (body ++ end_object ∷ [])

  abbrev pub data_object : List (Event D) → List (Event D)
  data_object body = key (codes "data") ∷ start_object ∷ (body ++ end_object ∷ [])

  abbrev pub error_members : RspInfoField → List (Event D)
  error_members info =
      key (codes "error_id")
      ∷ int info.error_id
      ∷ key (codes "error_msg")
      ∷ string info.error_msg
      ∷ []

  -- Where the pointer is tested first.
  abbrev pub optional_error : Option RspInfoField → List (Event D)
  optional_error none = key (codes "error_id") ∷ int (pos 0) ∷ []
  optional_error (some info) = error_members info

  abbrev pub row_message : String → Option RspInfoField → ℤ → Bool → List (Event D) → List (Event D)
  row_message name info n_request_id is_last row = message name (
      key (codes "req_id")
      ∷ int n_request_id
      ∷ key (codes "is_last")
      ∷ bool is_last
      ∷ (optional_error info ++ data_object row))

  abbrev pub optional : {A : Type 0} → (A → List (Event D)) → Option A → List (Event D)
  optional f none = []
  optional f (some row) = f row
