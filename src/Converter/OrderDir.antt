-- ===== src/Converter/OrderDir.antt =====
-- `SplitOrderDir` (src/common/converter.cpp).
use babeltrader.Common.{Bytes, codes, ◌==◌, [], ◌∷◌, if◌then◌else◌, starts_with}

-- What comes of a text: a value, the answer `false`, or behaviour that the language leaves undefined.
pub data Outcome (A : Type 0) : Type 0 where
  gives : A → Outcome A
  refuses undefined : Outcome A

-- The bytes before the first `_`, and the text from there on.
unfoldable pub split_pos : Bytes → Bytes × Bytes
split_pos [] = ([], [])
split_pos (c ∷ s) =
    let rest = split_pos s in if c == b'_' then ([], c ∷ s) else (c ∷ rest.0, rest.1)

abbrev pub dir_of : Bytes → Bytes → Outcome (Bytes × Bytes)
dir_of action s =
    if starts_with s (codes "long")
    then gives (action, codes "long")
    else (if starts_with s (codes "short") then gives (action, codes "short") else refuses)

-- The text with its length. An empty one is read behind its end; one without `_` that begins like no
-- action of its own runs off the end of the function.
unfoldable pub split_order_dir : Bytes → Outcome (Bytes × Bytes)
split_order_dir [] = undefined
split_order_dir (c ∷ s) =
    let order_dir = c ∷ s in
    elim (split_pos order_dir).0 [
      | [] ↦ refuses
      | ◌∷◌ _ _ ↦ elim (split_pos order_dir).1 [
        | [] ↦
            if starts_with order_dir (codes "buy")
            then gives (codes "buy", codes "net")
            else (if starts_with order_dir (codes "sell")
                then gives (codes "sell", codes "net")
                else undefined)
        | ◌∷◌ _ dir ↦
            if starts_with order_dir (codes "open")
            then dir_of (codes "open") dir
            else (if starts_with order_dir (codes "closetoday")
                then dir_of (codes "closetoday") dir
                else (if starts_with order_dir (codes "closehistory")
                    then dir_of (codes "closehistory") dir
                    else (if starts_with order_dir (codes "close")
                        then dir_of (codes "close") dir
                        else refuses)))
      ]
    ]
