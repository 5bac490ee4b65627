-- ===== src/HttpService/Tests.antt =====
-- Instances of the laws of HttpService.
use babeltrader.Common.{
  ◌≡◌, refl, codes, true, false, List, [], ◌∷◌, ◌++◌, some, none, ◌↔◌, inr, arith,
}
use babeltrader.Common.Int.{ℤ}
use babeltrader.Common.Double.{whole_numbers}
use babeltrader.Structs.{Quote}
use babeltrader.Json.{Event, start_object, end_object}
use babeltrader.Json.Grammar.{IsJson}
use babeltrader.Json.Members.{members}
use babeltrader.HttpService.{parse_subunsub_msg, on_rest_subunsub, get_subtopics}
use babeltrader.HttpService.Topics.{topic_members, parse_subunsub_msg-topic}
use babeltrader.HttpService.Answers.{
  IsFatal, IsAnswered, on_rest_subunsub-decides, get_subtopics-IsJson,
}

abbrev rebar : Quote
rebar = record {
  market = 1;
  exchange = 1;
  type = 1;
  info1 = 2;
  symbol = codes "rb";
  contract = codes "1905";
  contract_id = [];
  info2 = 2;
}

abbrev request : List (Event ℤ)
request =
    start_object
    ∷ (topic_members whole_numbers members (codes "ctp") (codes "SHFE") (codes "future")
          (codes "kline") (codes "1m") rebar
        ++ end_object ∷ [])

parse_subunsub_msg-topic_example :
    parse_subunsub_msg whole_numbers members (codes "?") request ≡ some (inr rebar)
parse_subunsub_msg-topic_example =
    parse_subunsub_msg-topic whole_numbers members (codes "?") request rebar (codes "ctp")
      (codes "SHFE") (codes "future") (codes "kline") (codes "1m") refl refl refl refl refl
      (omega arith, omega arith, omega arith) refl
      (
        (refl, (refl, refl)),
        (
          (refl, (refl, refl)),
          (
            (refl, (refl, refl)),
            (
              (refl, (refl, refl)),
              (
                (refl, (refl, refl)),
                ((refl, (refl, refl)), ((refl, (refl, refl)), ((refl, (refl, refl)), tt))),
              ),
            ),
          ),
        ),
      )

on_rest_subunsub-decides_example :
    ((on_rest_subunsub whole_numbers members [] (inr []) 2 0 ≡ none)
      ↔ IsFatal whole_numbers members (inr []) 2)
    × IsAnswered whole_numbers members (on_rest_subunsub whole_numbers members [] (inr []) 2 0)
on_rest_subunsub-decides_example = on_rest_subunsub-decides whole_numbers members [] (inr []) 2

get_subtopics-IsJson_example :
    (es : List (Event ℤ)) × (get_subtopics whole_numbers members
        ((rebar, true) ∷ (rebar, false) ∷ [])
      ≡ some es)
    × IsJson es
get_subtopics-IsJson_example =
    get_subtopics-IsJson whole_numbers members ((rebar, true) ∷ (rebar, false) ∷ []) (
      (omega arith, omega arith, omega arith, omega arith, omega arith),
      ((omega arith, omega arith, omega arith, omega arith, omega arith), tt),
    )
