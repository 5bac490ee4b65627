-- ===== src/WsService.antt =====
-- src/common/ws_service.h and ws_service.cpp: the clients, and the way of a message to its handler.
-- uWS, rapidjson, the tunnel and the trading interface are not modelled: a client is a number, what the
-- service calls of uWS is part of the result; parsing, `Accept` and what the virtual functions of
-- `TradeService` throw are arguments. Where rapidjson asserts, the program is aborted.
pub mod Clients
pub mod Replies
mod Tests
use babeltrader.Common.{
  ℕ, Bytes, String, codes, Bool, true, false, not, ◌&&◌, List, [], ◌∷◌, ◌++◌, Option, none, some,
  bytes_eq, if◌then◌else◌,
}
use babeltrader.Common.Int.{ℤ, pos}
use babeltrader.Common.Double.{Double}
use babeltrader.Common.Raise.{Result, ok, raised, raise_if, ◌>>=◌, ◌>>◌}
use babeltrader.Common.StdMap.{StdMap, nat_key, bytes_key, lookup, insert, erase}
use babeltrader.Json.{Event, start_object, end_object, key, string, int}
use babeltrader.Json.Reader.{Reader}
use babeltrader.TradeService.Handlers.{
  Request, on_req_insert_order, on_req_cancel_order, on_req_query_order, on_req_query_trade,
  on_req_query_position, on_req_query_position_detail, on_req_query_trade_account,
  on_req_query_product, on_req_query_trading_day,
}

-- `BABELTRADER_ERR_…` and their texts.
abbrev pub wsreq_not_handle : ℤ
wsreq_not_handle = pos 10004

abbrev pub wsreq_failed_handle : ℤ
wsreq_failed_handle = pos 10005

abbrev pub wsreq_failed_tunnel : ℤ
wsreq_failed_tunnel = pos 10006

-- `ws_set_`, and the messages in the tunnel, for parsed documents of type `V`.
pub record WsService (V : Type 0) : Type 0 where
  pub ws_set : StdMap ℕ (Unit {0})
  pub msg_tunnel : List (ℕ × V)

-- The calls of uWS, for texts of type `T`.
pub data Output (T : Type 0) : Type 0 where
  closes : ℕ → Output T
  sends : ℕ → T → Output T

-- What comes of a message: it is served, its client gets an error, or the program is aborted.
pub data Reply : Type 0 where
  served aborts : Reply
  error : ℤ → Bytes → Reply

pub on_disconnection : {V : Type 0} → ℕ → WsService V → WsService V
on_disconnection ws s = record s { ws_set = erase ws s.ws_set }

module _ {V T : Type 0} where
  pub on_connection : ℕ → Bytes → WsService V → WsService V × List (Output T)
  on_connection ws url s =
      if bytes_eq url (codes "/ws")
      then (record s { ws_set = insert ws tt s.ws_set }, [])
      else (s, closes ws ∷ [])

  unfoldable pub send_msg_to_client : ℕ → T → WsService V → List (Output T)
  send_msg_to_client ws msg s = elim (lookup ws s.ws_set) [ none ↦ [] | some _ ↦ sends ws msg ∷ [] ]

module _ (F : Double) (R : Reader F) (accept : R.V → List (Event F.D)) where
  open F use {D}
  open R use {V, has_member, member, is_object, is_string, get_string}

  -- The text of the second `OnClientMsgError`.
  unfoldable pub error_text : V → ℤ → Bytes → List (Event D)
  error_text doc error_id error_msg =
      (start_object
        ∷ key (codes "msg")
        ∷ string (codes "error")
        ∷ key (codes "error_id")
        ∷ int error_id
        ∷ key (codes "error_msg")
        ∷ string error_msg
        ∷ key (codes "data")
        ∷ [])
      ++ (accept doc ++ end_object ∷ [])

  unfoldable pub on_client_msg_error :
      ℕ → V → ℤ → Bytes → WsService V → List (Output (List (Event D)))
  unfolding send_msg_to_client
  on_client_msg_error ws doc error_id error_msg s =
      send_msg_to_client ws (error_text doc error_id error_msg) s

  -- `onMessage`; `tunnel_open` is whether the tunnel takes the message. If the text does not parse,
  -- neither does it the second time, in the first `OnClientMsgError`, which then sends nothing.
  pub on_message :
      (Bytes → Option V)
      → Bool
      → ℕ
      → Bytes
      → WsService V
      → WsService V × List (Output (List (Event D)))
  unfolding on_client_msg_error
  on_message parse tunnel_open ws message s = elim (parse message) [
    | none ↦ (s, [])
    | some doc ↦
        if tunnel_open then (record s { msg_tunnel = s.msg_tunnel ++ (ws, doc) ∷ [] }, []) else (
          s,
          on_client_msg_error ws doc wsreq_failed_tunnel (codes "failed transfer message in tunnel")
              s,
        )
  ]

  -- `RegisterCallbacks`, of a service that has a `TradeService` or none.
  unfoldable pub callbacks : Bool → StdMap Bytes (V → Result (Request D))
  callbacks false = []
  callbacks true =
      (codes "cancel_order", on_req_cancel_order F R)
      ∷ (codes "insert_order", on_req_insert_order F R)
      ∷ (codes "query_order", on_req_query_order F R)
      ∷ (codes "query_position", on_req_query_position F R)
      ∷ (codes "query_positiondetail", on_req_query_position_detail F R)
      ∷ (codes "query_product", on_req_query_product F R)
      ∷ (codes "query_trade", on_req_query_trade F R)
      ∷ (codes "query_tradeaccount", on_req_query_trade_account F R)
      ∷ (codes "query_tradingday", on_req_query_trading_day F R)
      ∷ []

  -- The body of the `try` of `Dispatch`: the error that it reports, or the call of the `TradeService`
  -- that `serve` answers, with a text that it throws or with nothing. `none`: `doc["msg"]` asserts, since
  -- the document is no object or has no such member.
  unfoldable pub handle :
      Bool → (Request D → Option String) → V → Option (Result (Option (ℤ × Bytes)))
  handle has_trade serve doc =
      let msg = member doc (codes "msg") in
      if is_object doc && has_member doc (codes "msg")
      then some (
          raise_if (not (is_string msg)) "field \"msg\" need string"
          >> elim (lookup (get_string msg) (callbacks has_trade)) [
            | none ↦ ok (some (wsreq_not_handle, codes "can't find callback handler"))
            | some callback ↦ callback doc >>= λ request. elim (serve request) [
              | none ↦ ok none
              | some what ↦ raised what
            ]
          ])
      else none

  abbrev pub reply_of : Option (Result (Option (ℤ × Bytes))) → Reply
  reply_of none = aborts
  reply_of (some (ok none)) = served
  reply_of (some (ok (some (error_id, error_msg)))) = error error_id error_msg
  reply_of (some (raised what)) =
      error wsreq_failed_handle (codes "failed handle message" ++ (codes " - " ++ codes what))

  -- `Dispatch`: what comes of the message.
  unfoldable pub reply : Bool → (Request D → Option String) → V → Reply
  unfolding handle
  reply has_trade serve doc = reply_of (handle has_trade serve doc)

  -- What is sent, and whether the program goes on.
  abbrev pub Sent : Type 0
  Sent = List (Output (List (Event D))) × Bool

  unfoldable pub reported : ℕ → V → WsService V → Reply → Sent
  unfolding on_client_msg_error
  reported ws doc s served = ([], true)
  reported ws doc s (error error_id error_msg) =
      (on_client_msg_error ws doc error_id error_msg s, true)
  reported ws doc s aborts = ([], false)

  unfoldable pub dispatch : Bool → (Request D → Option String) → ℕ → V → WsService V → Sent
  unfolding reported reply
  dispatch has_trade serve ws doc s = reported ws doc s (reply has_trade serve doc)

  abbrev pub and_then : Sent → Sent → Sent
  and_then (out, true) rest = (out ++ rest.0, rest.1)
  and_then (out, false) rest = (out, false)

  -- The loop of `MessageLoop` over what it has read from the tunnel.
  unfoldable pub dispatch_all :
      Bool → (Request D → Option String) → List (ℕ × V) → WsService V → Sent
  unfolding dispatch
  dispatch_all has_trade serve [] s = ([], true)
  dispatch_all has_trade serve ((ws, doc) ∷ msgs) s =
      and_then (dispatch has_trade serve ws doc s) (dispatch_all has_trade serve msgs s)

  -- One turn of `MessageLoop`: it reads all that is in the tunnel.
  unfoldable pub message_loop_turn :
      Bool → (Request D → Option String) → WsService V → WsService V × Sent
  unfolding dispatch_all
  message_loop_turn has_trade serve s =
      (record s { msg_tunnel = [] }, dispatch_all has_trade serve s.msg_tunnel s)
