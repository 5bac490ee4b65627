-- ===== src/WsService/Clients.antt =====
-- To whom `WsService` sends (src/common/ws_service.cpp).
use babeltrader.Common.{
  ℕ, Bytes, String, codes, Bool, true, false, if◌then◌else◌, ◌≡◌, refl, sym, ◌∙◌, ◌≢◌, List, [],
  ◌∷◌, ◌++◌, Option, none, bytes_eq, if_both, Option-cases, ◌⊎◌, inl, inr, All, All-append, ◌==◌,
  Bool-cases,
}
use babeltrader.Common.Int.{ℤ}
use babeltrader.Common.Double.{Double}
use babeltrader.Common.StdMap.{
  nat_key, lookup, lookup-erase, lookup-insert_ne, lookup-erase_self, none-ne-some,
}
use babeltrader.Json.{Event}
use babeltrader.Json.Reader.{Reader}
use babeltrader.TradeService.Handlers.{Request}
use babeltrader.WsService.{
  WsService, Output, closes, sends, on_connection, on_disconnection, send_msg_to_client,
  on_client_msg_error, on_message, Reply, served, error, aborts, reply, Sent, reported, and_then,
  dispatch, dispatch_all, message_loop_turn,
}

module _ (F : Double) (R : Reader F) (accept : R.V → List (Event F.D)) where
  open F use {D}
  open R use {V}

  abbrev Text : Type 0
  Text = List (Event D)

  -- What the service is called for: by uWS, by its thread, and by the `TradeService` with a text for a
  -- client. Where the answer is up to others, the call carries it.
  pub data Call : Type 0 where
    connects : ℕ → Bytes → Call
    disconnects : ℕ → Call
    receives : (Bytes → Option V) → Bool → ℕ → Bytes → Call
    turns : Bool → (Request D → Option String) → Call
    answers : ℕ → Text → Call

  pub call : Call → WsService V → WsService V × Sent F R accept
  call (connects ws url) s = let (s', out) = on_connection ws url s in (s', (out, true))
  call (disconnects ws) s = (on_disconnection ws s, ([], true))
  call (receives parse tunnel_open ws message) s =
      let (s', out) = on_message F R accept parse tunnel_open ws message s in (s', (out, true))
  call (turns has_trade serve) s = message_loop_turn F R accept has_trade serve s
  call (answers ws text) s = (s, (send_msg_to_client ws text s, true))

  -- All that is sent, up to the end or to an abort.
  pub run : List Call → WsService V → List (Output Text)
  unfolding call
  run [] s = []
  run (c ∷ cs) s =
      let (s', (out, goes_on)) = call c s in
      let rest = run cs s' in out ++ (if goes_on then rest else [])

  -- Nothing is sent to `ws`.
  abbrev pub Spares : ℕ → Output Text → Type 0
  Spares ws (closes j) = Unit {0}
  Spares ws (sends j text) = j ≢ ws

  -- Another client connects, or this one with an address that is not served.
  abbrev pub IsOther : ℕ → Call → Type 0
  IsOther ws (connects j url) = (j ≢ ws) ⊎ (bytes_eq url (codes "/ws") ≡ false)
  IsOther ws _ = Unit {0}

  send-Spares :
      (ws j : ℕ) (text : Text) (s : WsService V)
      → lookup ws s.ws_set ≡ none
      → All (Spares ws) (send_msg_to_client j text s)
  unfolding send_msg_to_client
  send-Spares ws j text s h = elim (Option-cases (lookup j s.ws_set)) [
    | inl e ↦ rw (e, send_msg_to_client) tt
    | inr (u, e) ↦ rw (e, send_msg_to_client) ((λ q. none-ne-some u (sym h ∙ (rw q at e))), tt)
  ]

  on_client_msg_error-Spares :
      (ws j : ℕ) (doc : V) (error_id : ℤ) (error_msg : Bytes) (s : WsService V)
      → lookup ws s.ws_set ≡ none
      → All (Spares ws) (on_client_msg_error F R accept j doc error_id error_msg s)
  unfolding on_client_msg_error
  on_client_msg_error-Spares ws j doc error_id error_msg s h = send-Spares ws j _ s h

  reported-Spares :
      (ws j : ℕ) (doc : V) (s : WsService V) (r : Reply)
      → lookup ws s.ws_set ≡ none
      → All (Spares ws) (reported F R accept j doc s r).0
  unfolding reported
  reported-Spares ws j doc s served h = tt
  reported-Spares ws j doc s (error error_id error_msg) h =
      on_client_msg_error-Spares ws j doc error_id error_msg s h
  reported-Spares ws j doc s aborts h = tt

  and_then-Spares :
      (ws : ℕ) (first rest : Sent F R accept)
      → All (Spares ws) first.0
      → All (Spares ws) rest.0
      → All (Spares ws) (and_then F R accept first rest).0
  and_then-Spares ws (out, true) rest h k = All-append (Spares ws) out rest.0 h k
  and_then-Spares ws (out, false) rest h k = h

  dispatch_all-Spares :
      (ws : ℕ) (has_trade : Bool) (serve : Request D → Option String) (msgs : List (ℕ × V))
      (s : WsService V)
      → lookup ws s.ws_set ≡ none
      → All (Spares ws) (dispatch_all F R accept has_trade serve msgs s).0
  unfolding dispatch_all dispatch
  dispatch_all-Spares ws has_trade serve [] s h = tt
  dispatch_all-Spares ws has_trade serve ((j, doc) ∷ msgs) s h =
      and_then-Spares ws (dispatch F R accept has_trade serve j doc s)
        (dispatch_all F R accept has_trade serve msgs s)
        (reported-Spares ws j doc s (reply F R accept has_trade serve doc) h)
        (dispatch_all-Spares ws has_trade serve msgs s h)

  on_connection-Spares :
      (ws j : ℕ) (url : Bytes) (s : WsService V)
      → IsOther ws (connects j url)
      → lookup ws s.ws_set ≡ none
      → (lookup ws (call (connects j url) s).0.ws_set ≡ none)
        × All (Spares ws) (call (connects j url) s).1.0
  unfolding call on_connection
  on_connection-Spares ws j url s o h = elim (Bool-cases (bytes_eq url (codes "/ws"))) [
    | inl e ↦ elim o [
      | inl n ↦ rw (e, call, on_connection) (lookup-insert_ne j ws tt s.ws_set n ∙ h, tt)
      | inr u ↦ absurd (cc)
    ]
    | inr e ↦ rw (e, call, on_connection) (h, (tt, tt))
  ]

  on_disconnection-gone :
      (ws j : ℕ) (s : WsService V)
      → lookup ws s.ws_set ≡ none
      → lookup ws (on_disconnection j s).ws_set ≡ none
  unfolding on_disconnection
  on_disconnection-gone ws j s h = rw lookup-erase (if_both (λ o. o ≡ none) (j == ws) refl h)

  on_message-Spares :
      (parse : Bytes → Option V) (tunnel_open : Bool) (ws j : ℕ) (message : Bytes) (s : WsService V)
      → lookup ws s.ws_set ≡ none
      → (lookup ws (on_message F R accept parse tunnel_open j message s).0.ws_set ≡ none)
        × All (Spares ws) (on_message F R accept parse tunnel_open j message s).1
  unfolding on_message
  on_message-Spares parse tunnel_open ws j message s h = elim (Option-cases (parse message)) [
    | inl e ↦ rw (e, on_message) (h, tt)
    | inr (doc, e) ↦
        rw (e, on_message)
          (if_both
            (λ (r : WsService V × List (Output Text)).
              (lookup ws r.0.ws_set ≡ none) × All (Spares ws) r.1)
            tunnel_open (h, tt) (h, on_client_msg_error-Spares ws j doc _ _ s h))
  ]

  call-Spares :
      (ws : ℕ) (c : Call) (s : WsService V)
      → IsOther ws c
      → lookup ws s.ws_set ≡ none
      → (lookup ws (call c s).0.ws_set ≡ none) × All (Spares ws) (call c s).1.0
  unfolding call message_loop_turn
  call-Spares ws (connects j url) s o h = on_connection-Spares ws j url s o h
  call-Spares ws (disconnects j) s o h = (on_disconnection-gone ws j s h, tt)
  call-Spares ws (receives parse tunnel_open j message) s o h =
      on_message-Spares parse tunnel_open ws j message s h
  call-Spares ws (turns has_trade serve) s o h =
      (h, dispatch_all-Spares ws has_trade serve s.msg_tunnel s h)
  call-Spares ws (answers j text) s o h = (h, send-Spares ws j text s h)

  run-Spares :
      (ws : ℕ) (cs : List Call) (s : WsService V)
      → All (IsOther ws) cs
      → lookup ws s.ws_set ≡ none
      → All (Spares ws) (run cs s)
  unfolding run
  run-Spares ws [] s o h = tt
  run-Spares ws (c ∷ cs) s o h =
      let (gone, spared) = call-Spares ws c s o.0 h in
      All-append (Spares ws) (call c s).1.0 _ spared
        (if_both (All (Spares ws)) (call c s).1.1 (run-Spares ws cs (call c s).0 o.1 gone) tt)

  -- Once a client has disconnected, the service sends it nothing more, whatever calls follow, also for
  -- the messages of it that wait in the tunnel, until it connects to /ws again.
  pub on_disconnection-silences :
      (ws : ℕ) (cs : List Call) (s : WsService V)
      → All (IsOther ws) cs
      → All (Spares ws) (run cs (on_disconnection ws s))
  unfolding on_disconnection
  on_disconnection-silences ws cs s o = run-Spares ws cs _ o (lookup-erase_self ws s.ws_set)
