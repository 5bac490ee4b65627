-- ===== src/WsService/Tests.antt =====
-- Instances of the laws of WsService, on documents as calls of a writer.
use babeltrader.Common.{
  ◌≡◌, ◌↔◌, refl, inl, inr, codes, String, true, false, List, [], ◌∷◌, Option, none, some, All,
  arith,
}
use babeltrader.Common.Int.{ℤ}
use babeltrader.Common.Double.{whole_numbers}
use babeltrader.Json.{Event, start_object, end_object, key, string}
use babeltrader.Json.Grammar.{IsJson}
use babeltrader.Json.Members.{members}
use babeltrader.TradeService.Handlers.{Request}
use babeltrader.WsService.{
  WsService, on_disconnection, error_text, served, aborts, reply, wsreq_not_handle,
}
use babeltrader.WsService.Clients.{
  Call, connects, receives, turns, answers, run, Spares, on_disconnection-silences,
}
use babeltrader.WsService.Replies.{IsServed, IsReply, has_msg, reply-served_iff, error_text-IsJson}

abbrev as_written : List (Event ℤ) → List (Event ℤ)
as_written doc = doc

abbrev one_text : List (Event ℤ) → List (Event ℤ)
one_text doc = string (codes "doc") ∷ []

abbrev all_well : Request ℤ → Option String
all_well request = none

abbrev a_query : List (Event ℤ)
a_query =
    start_object
    ∷ key (codes "msg")
    ∷ string (codes "query_tradingday")
    ∷ key (codes "data")
    ∷ start_object
    ∷ key (codes "qry_id")
    ∷ string (codes "q1")
    ∷ end_object
    ∷ end_object
    ∷ []

abbrev two_clients : WsService (List (Event ℤ))
two_clients = record {
  ws_set = (1, tt) ∷ (2, tt) ∷ [];
  msg_tunnel = (1, start_object ∷ end_object ∷ []) ∷ [];
}

abbrev calls : List (Call whole_numbers members as_written)
calls =
    turns true all_well
    ∷ connects 1 (codes "/other")
    ∷ connects 3 (codes "/ws")
    ∷ receives (λ _. some a_query) true 1 []
    ∷ turns true all_well
    ∷ answers 1 []
    ∷ []

on_disconnection-silences_example :
    All
      (Spares whole_numbers members as_written 1)
      (run whole_numbers members as_written calls (on_disconnection 1 two_clients))
on_disconnection-silences_example =
    on_disconnection-silences whole_numbers members as_written 1 calls two_clients
      (tt, (inr refl, (inl (omega arith), (tt, (tt, (tt, tt))))))

reply-served_iff_example :
    ((reply whole_numbers members as_written true all_well a_query ≡ served)
      ↔ IsServed whole_numbers members as_written true all_well a_query)
    × ((reply whole_numbers members as_written true all_well a_query ≡ aborts)
        ↔ (has_msg whole_numbers members as_written a_query ≡ false))
    × IsReply (reply whole_numbers members as_written true all_well a_query)
reply-served_iff_example = reply-served_iff whole_numbers members as_written true all_well a_query

error_text-IsJson_example : IsJson (
    error_text whole_numbers members one_text a_query wsreq_not_handle
      (codes "can't find callback handler"))
error_text-IsJson_example =
    error_text-IsJson whole_numbers members one_text a_query wsreq_not_handle
      (codes "can't find callback handler") (λ ks fs. refl)
