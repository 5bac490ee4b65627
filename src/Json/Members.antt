-- ===== src/Json/Members.antt =====
-- A reader for tests: a value is the calls that wrote it, an object the calls for its members, which
-- are all texts and numbers, or objects written by a key and the calls between two brackets.
use babeltrader.Common.{Bytes, bytes_eq, Bool, true, false, List, [], ◌∷◌, if◌then◌else◌}
use babeltrader.Common.Int.{ℤ, pos}
use babeltrader.Common.Double.{whole_numbers}
use babeltrader.Json.{Event, start_object, key, string, int, int64, double}
use babeltrader.Json.Reader.{Reader}

abbrev Value : Type 0
Value = List (Event ℤ)

abbrev finds : Value → Bytes → Bool
finds (key j ∷ es) k = let rest = finds es k in if bytes_eq j k then true else rest
finds (_ ∷ es) k = finds es k
finds [] k = false

abbrev found : Value → Bytes → Value
found (key j ∷ e ∷ es) k = let rest = found es k in if bytes_eq j k then e ∷ es else rest
found (_ ∷ es) k = found es k
found [] k = []

abbrev starts_object : Value → Bool
starts_object (start_object ∷ es) = true
starts_object _ = false

abbrev text_of : Value → Bytes
text_of (string s ∷ es) = s
text_of _ = []

abbrev is_text : Value → Bool
is_text (string s ∷ es) = true
is_text _ = false

abbrev is_whole : Value → Bool
is_whole (int n ∷ es) = true
is_whole (int64 n ∷ es) = true
is_whole _ = false

abbrev is_real : Value → Bool
is_real (double x ∷ es) = true
is_real _ = false

abbrev number_of : Value → ℤ
number_of (int n ∷ es) = n
number_of (int64 n ∷ es) = n
number_of (double x ∷ es) = x
number_of _ = pos 0

abbrev pub members : Reader whole_numbers
members = record {
  V = Value;
  has_member = finds;
  member = found;
  is_object = starts_object;
  is_string = is_text;
  get_string = text_of;
  is_int = is_whole;
  get_int = number_of;
  is_int64 = is_whole;
  get_int64 = number_of;
  is_double = is_real;
  get_double = number_of;
}
