-- ===== src/Common/Text.antt =====
-- Texts as the source holds them (`std::string`, `const char *`): lists of bytes, without the
-- closing NUL. A literal's bytes are its code points, since every literal of the source is ASCII.
use Prim.Native.Nat.{ℕ, zero, suc}
use Prim.Native.Char.{code}
use Prim.Native.String.{String}
use mathlib.Core.Path.{◌≡◌}
use mathlib.Core.Logic.{◌↔◌, ◌≢◌}
use mathlib.Core.Bool.{Bool, true, false, ◌&&◌, ◌||◌}
use mathlib.Core.List.{List, [], ◌∷◌}
use native.Mathlib.Omega.{arith}
use babeltrader.Common.Tests.{ltb, leb, ◌==◌}
use babeltrader.Common.Lists.{All}

abbrev pub Bytes : Type 0
Bytes = List ℕ

abbrev pub codes : String → Bytes
codes String.[] = []
codes (String.◌∷◌ c s) = code c ∷ codes s

-- Equality of two texts (`std::string` comparison, `strcmp(a, b) == 0`).
abbrev pub bytes_eq : Bytes → Bytes → Bool
bytes_eq [] [] = true
bytes_eq [] (b ∷ s) = false
bytes_eq (a ∷ r) [] = false
bytes_eq (a ∷ r) (b ∷ s) = a == b && bytes_eq r s

pub bytes_eq_iff : (r s : Bytes) → (bytes_eq r s ≡ true) ↔ (r ≡ s)
bytes_eq_iff [] [] = ground arith
bytes_eq_iff [] (b ∷ s) = ground arith
bytes_eq_iff (a ∷ r) [] = ground arith
bytes_eq_iff (a ∷ r) (b ∷ s) = ground (arith, bytes_eq_iff r s)

-- Lexicographic order, by which `std::map<std::string, …>` sorts its keys.
abbrev pub bytes_lt : Bytes → Bytes → Bool
bytes_lt [] [] = false
bytes_lt [] (b ∷ s) = true
bytes_lt (a ∷ r) [] = false
bytes_lt (a ∷ r) (b ∷ s) = ltb a b || (a == b && bytes_lt r s)

-- `strncmp(text, prefix, strlen(prefix)) == 0`.
abbrev pub starts_with : Bytes → Bytes → Bool
starts_with text [] = true
starts_with [] (p ∷ ps) = false
starts_with (c ∷ text) (p ∷ ps) = c == p && starts_with text ps

-- `strncmp(a, b, n) == 0`: the first `n` bytes agree, where a text that ends first differs from a
-- longer one.
abbrev pub strncmp_eq : ℕ → Bytes → Bytes → Bool
strncmp_eq zero a b = true
strncmp_eq (suc n) [] [] = true
strncmp_eq (suc n) [] (b ∷ bs) = false
strncmp_eq (suc n) (a ∷ as') [] = false
strncmp_eq (suc n) (a ∷ as') (b ∷ bs) = a == b && strncmp_eq n as' bs

abbrev pub is_digit : ℕ → Bool
is_digit c = leb b'0' c && leb c b'9'

-- No byte of the text is `b`.
abbrev pub Lacks : ℕ → Bytes → Type 0
Lacks b = All (λ c. c ≢ b)
