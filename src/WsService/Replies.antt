-- ===== src/WsService/Replies.antt =====
-- What a client is told about its message (src/common/ws_service.cpp).
use babeltrader.Common.{
  ℕ, Bytes, String, codes, Bool, true, false, ◌&&◌, ◌≡◌, refl, ap, arith, ◌∙◌, ◌↔◌, ◌⊎◌, inl, inr,
  List, ◌∷◌, Option, none, some, Bool-cases, Option-cases,
}
use babeltrader.Common.Int.{ℤ}
use babeltrader.Common.Double.{Double}
use babeltrader.Common.Raise.{Result, ok, raised}
use babeltrader.Common.StdMap.{bytes_key, lookup}
use babeltrader.Json.{Event}
use babeltrader.Json.Grammar.{Frame, before_key, before_value, parse, parse-append, IsJson}
use babeltrader.Json.Reader.{Reader}
use babeltrader.TradeService.Handlers.{Request}
use babeltrader.WsService.{
  error_text, callbacks, handle, Reply, served, aborts, error, reply_of, reply,
}

one-ne-zero : ◌≡◌ {A = ℕ} 1 0 → ⊥
one-ne-zero h = absurd (omega arith)

two-ne-zero : ◌≡◌ {A = ℕ} 2 0 → ⊥
two-ne-zero h = absurd (omega arith)

-- One of the three.
abbrev pub IsReply : Reply → Type 0
IsReply r =
    (r ≡ served)
    ⊎ ((r ≡ aborts) ⊎ ((error_id : ℤ) × (error_msg : Bytes) × (r ≡ error error_id error_msg)))

Reply-IsReply : (r : Reply) → IsReply r
Reply-IsReply served = inl refl
Reply-IsReply aborts = inr (inl refl)
Reply-IsReply (error error_id error_msg) = inr (inr (error_id, error_msg, refl))

module _ (F : Double) (R : Reader F) (accept : R.V → List (Event F.D)) where
  open F use {D}
  open R use {V, has_member, member, is_object, is_string, get_string}

  -- If the document is written as one value, the error text is one JSON text.
  pub error_text-IsJson :
      (doc : V) (error_id : ℤ) (error_msg : Bytes)
      → ((ks : List Bytes) (fs : List Frame)
          → parse (accept doc) (before_value ks ∷ fs) ≡ some (before_key ks ∷ fs))
      → IsJson (error_text F R accept doc error_id error_msg)
  unfolding error_text
  error_text-IsJson doc error_id error_msg h = parse-append (accept doc) _ _ _ (h _ _) ∙ refl

  -- `doc["msg"]` has a value.
  abbrev pub has_msg : V → Bool
  has_msg doc = is_object doc && has_member doc (codes "msg")

  -- The message is served: it names a handler, which finds its data, and the trading interface does
  -- not throw.
  abbrev pub IsServed : Bool → (Request D → Option String) → V → Type 0
  IsServed has_trade serve doc =
      (has_msg doc ≡ true)
      × (is_string (member doc (codes "msg")) ≡ true)
      × ((callback : V → Result (Request D)) × (lookup (get_string (member doc (codes "msg")))
              (callbacks F R accept has_trade)
            ≡ some callback)
          × ((request : Request D) × (callback doc ≡ ok request) × (serve request ≡ none)))

  Result-cases :
      {A : Type 0} (r : Result A) → ((a : A) × (r ≡ ok a)) ⊎ ((e : String) × (r ≡ raised e))
  Result-cases (ok a) = inl (a, refl)
  Result-cases (raised e) = inr (e, refl)

  -- The three replies are told apart.
  abbrev kind : Reply → ℕ
  kind served = 0
  kind aborts = 1
  kind (error _ _) = 2

  reply-IsServed :
      (has_trade : Bool) (serve : Request D → Option String) (doc : V)
      → kind (reply F R accept has_trade serve doc) ≡ 0
      → IsServed has_trade serve doc
  unfolding reply handle
  reply-IsServed has_trade serve doc h = elim (Bool-cases (has_msg doc)) [
    | inr m ↦ absurd (one-ne-zero (rw (m, reply, handle) at h))
    | inl m ↦ elim (Bool-cases (is_string (member doc (codes "msg")))) [
      | inr e ↦ absurd (two-ne-zero (rw (m, e, reply, handle) at h))
      | inl e ↦
          elim (Option-cases
            (lookup (get_string (member doc (codes "msg"))) (callbacks F R accept has_trade))) [
              | inl u ↦ absurd (two-ne-zero (rw (m, e, u, reply, handle) at h))
              | inr (callback, k) ↦ elim (Result-cases (callback doc)) [
                | inr (what, u) ↦ absurd (two-ne-zero (rw (m, e, k, u, reply, handle) at h))
                | inl (request, q) ↦ elim (Option-cases (serve request)) [
                  | inl n ↦ (m, e, (callback, k, (request, q, n)))
                  | inr (what, u) ↦ absurd (two-ne-zero (rw (m, e, k, q, u, reply, handle) at h))
                ]
              ]
            ]
    ]
  ]

  reply_of-aborts : (r : Result (Option (ℤ × Bytes))) → kind (reply_of F R accept (some r)) ≡ 1 → ⊥
  reply_of-aborts (ok none) h = absurd (omega arith)
  reply_of-aborts (ok (some (error_id, error_msg))) h = absurd (omega arith)
  reply_of-aborts (raised what) h = absurd (omega arith)

  reply-aborts :
      (has_trade : Bool) (serve : Request D → Option String) (doc : V)
      → kind (reply F R accept has_trade serve doc) ≡ 1
      → has_msg doc ≡ false
  unfolding reply handle
  reply-aborts has_trade serve doc h = elim (Bool-cases (has_msg doc)) [
    | inl m ↦ absurd (reply_of-aborts _ (rw (m, reply, handle) at h))
    | inr m ↦ m
  ]

  -- A message is served exactly when it is an object with a "msg" that is a text and names a registered
  -- handler, the handler accepts the data, and the trading interface throws nothing. `Dispatch` aborts
  -- the program exactly when the message is no object or has no "msg". Every other message is answered
  -- with an error.
  pub reply-served_iff :
      (has_trade : Bool) (serve : Request D → Option String) (doc : V)
      → ((reply F R accept has_trade serve doc ≡ served) ↔ IsServed has_trade serve doc)
        × ((reply F R accept has_trade serve doc ≡ aborts) ↔ (has_msg doc ≡ false))
        × IsReply (reply F R accept has_trade serve doc)
  unfolding reply handle
  reply-served_iff has_trade serve doc = (
    (
      λ h. reply-IsServed has_trade serve doc (ap kind h),
      λ h. let (m, e, (callback, k, (request, q, n))) = h in rw (m, e, k, q, n, reply, handle) refl,
    ),
    (λ h. reply-aborts has_trade serve doc (ap kind h), λ m. rw (m, reply, handle) refl),
    Reply-IsReply _,
  )
