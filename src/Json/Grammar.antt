-- ===== src/Json/Grammar.antt =====
-- When a sequence of writer calls spells one JSON value: brackets match, in an object a key and a
-- value alternate, and no key of an object comes twice. A `String` where a key is due is one.
use babeltrader.Common.{
  Bytes, Bool, false, ◌||◌, ◌≡◌, refl, ◌∙◌, List, [], ◌∷◌, ◌++◌, Option, none, some, if◌then◌else◌,
  bytes_eq, arith,
}
use babeltrader.Json.{
  Event, start_object, end_object, start_array, end_array, key, string, int, int64, double, bool,
}

-- What is open: an object before a key or a value, with the keys that it has, or an array; below them
-- all the place of the text, before and behind it.
pub data Frame : Type 0 where
  before_key before_value : List Bytes → Frame
  in_array top done : Frame

abbrev occurs : Bytes → List Bytes → Bool
occurs k [] = false
occurs k (j ∷ js) = bytes_eq k j || occurs k js

-- A value may stand here; what comes next.
abbrev value : List Frame → Option (List Frame)
value (before_value seen ∷ fs) = some (before_key seen ∷ fs)
value (in_array ∷ fs) = some (in_array ∷ fs)
value (top ∷ fs) = some (done ∷ fs)
value _ = none

abbrev keyed : Bytes → List Frame → Option (List Frame)
keyed k (before_key seen ∷ fs) = if occurs k seen then none else some (before_value (k ∷ seen) ∷ fs)
keyed k _ = none

abbrev texted : Bytes → List Frame → Option (List Frame)
texted k (before_key seen ∷ fs) = keyed k (before_key seen ∷ fs)
texted k fs = value fs

abbrev push : Frame → Option (List Frame) → Option (List Frame)
push f none = none
push f (some fs) = some (f ∷ fs)

abbrev close_object : List Frame → Option (List Frame)
close_object (before_key seen ∷ fs) = some fs
close_object _ = none

abbrev close_array : List Frame → Option (List Frame)
close_array (in_array ∷ fs) = some fs
close_array _ = none

module _ {D : Type 0} where
  abbrev next : Event D → List Frame → Option (List Frame)
  next start_object fs = push (before_key []) (value fs)
  next end_object fs = close_object fs
  next start_array fs = push in_array (value fs)
  next end_array fs = close_array fs
  next (key k) fs = keyed k fs
  next (string s) fs = texted s fs
  next (int n) fs = value fs
  next (int64 n) fs = value fs
  next (double x) fs = value fs
  next (bool b) fs = value fs

  abbrev pub parse : List (Event D) → List Frame → Option (List Frame)
  parse [] fs = some fs
  parse (e ∷ es) fs = elim (next e fs) [ none ↦ none | some gs ↦ parse es gs ]

  pub parse-append :
      (es ds : List (Event D)) (fs gs : List Frame)
      → parse es fs ≡ some gs
      → parse (es ++ ds) fs ≡ parse ds gs
  parse-append [] ds fs gs h = ground arith
  parse-append (e ∷ es) ds fs gs h = go (next e fs) (λ hs q. parse-append es ds hs gs q) h
    where
      go :
          (o : Option (List Frame))
          → ((hs : List Frame) → parse es hs ≡ some gs → parse (es ++ ds) hs ≡ parse ds gs)
          → elim o [ none ↦ none | some hs ↦ parse es hs ] ≡ some gs
          → elim o [ none ↦ none | some hs ↦ parse (es ++ ds) hs ] ≡ parse ds gs
      go none ih h = cc
      go (some hs) ih h = ih hs h

  -- The calls spell one JSON value, and nothing else.
  abbrev pub IsJson : List (Event D) → Type 0
  IsJson es = parse es (top ∷ []) ≡ some (done ∷ [])

  -- A text with entries in the middle that leave what is open as it is.
  pub IsJson-middle :
      (es ms ds : List (Event D)) (fs : List Frame)
      → parse es (top ∷ []) ≡ some fs
      → parse ms fs ≡ some fs
      → parse ds fs ≡ some (done ∷ [])
      → IsJson (es ++ (ms ++ ds))
  IsJson-middle es ms ds fs p q r =
      parse-append es (ms ++ ds) (top ∷ []) fs p ∙ (parse-append ms ds fs fs q ∙ r)

  -- The entries of an array, one after the other.
  abbrev pub entries {ℓ} : {A : Type ℓ} → (A → List (Event D)) → List A → List (Event D)
  entries f [] = []
  entries f (x ∷ xs) = f x ++ entries f xs

  pub parse-entries {ℓ} :
      {A : Type ℓ} (f : A → List (Event D)) (fs : List Frame)
      → ((x : A) → parse (f x) (in_array ∷ fs) ≡ some (in_array ∷ fs))
      → (xs : List A) → parse (entries f xs) (in_array ∷ fs) ≡ some (in_array ∷ fs)
  parse-entries f fs h [] = refl
  parse-entries f fs h (x ∷ xs) =
      parse-append (f x) (entries f xs) (in_array ∷ fs) (in_array ∷ fs) (h x)
      ∙ parse-entries f fs h xs
