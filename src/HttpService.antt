-- ===== src/HttpService.antt =====
-- src/common/http_service.h and http_service.cpp. uWS, rapidjson and the `QuoteService` are not
-- modelled: what is called of them is part of the result, and parsing is an argument.
pub mod Topics
pub mod Answers
mod Tests
use babeltrader.Common.{
  ℕ, ◌<◌, Bytes, Bool, true, false, codes, String, ◌&&◌, ◌==◌, not, ltb, List, [], ◌∷◌, ◌++◌,
  Option, none, some, length, take, bytes_eq, if◌then◌else◌, ◌⊎◌, inl, inr,
}
use mathlib.Core.Option
use babeltrader.Common.Int.{ℤ, pos}
use babeltrader.Common.Double.{Double}
use babeltrader.Structs.{Quote}
use babeltrader.Enum.{
  g_markets, g_exchanges, g_product_types, g_quote_info1, market_unknown, exchange_unknown,
  product_type_unknown, info1_unknown, info2_unknown, get_market_enum, get_exchange_enum,
  get_product_type_enum, get_quote_info1_enum, get_quote_info2_enum,
}
use babeltrader.Json.{Event, start_object, end_object, start_array, end_array, key, string, int}
use babeltrader.Json.Reader.{Reader}
use babeltrader.Converter.Quotes.{joined, named}

abbrev pub httpreq_too_long : ℤ
httpreq_too_long = pos 10001

abbrev pub httpreq_failed_parse : ℤ
httpreq_failed_parse = pos 10002

-- What `SubTopic` and `UnsubTopic` call of the `QuoteService`.
pub data TopicCall : Type 0 where
  subscribes unsubscribes : Quote → TopicCall

-- The answer to a request: its end with a text, or the end of the connection.
pub data Response (D : Type 0) : Type 0 where
  ends : List (Event D) → Response D
  terminates : Response D

-- A text in a field of 16 bytes that `strncpy` has filled with at most 15: behind those stands what
-- the field held, up to the next NUL.
abbrev pub field_text : Bytes → Bytes → Bytes
field_text left_over s = if ltb (length s) 15 then s else take 15 s ++ left_over

module _ (F : Double) (R : Reader F) where
  open F use {D}
  open R use {V, has_member, member, is_object, is_string, get_string}

  -- `d.HasMember(k) && d[k].IsString()`.
  abbrev pub has_text : V → String → Bool
  has_text d k = has_member d (codes k) && is_string (member d (codes k))

  abbrev pub text_at : V → String → Bytes
  text_at d k = get_string (member d (codes k))

  abbrev topic_of : Bytes → V → Bytes ⊎ Quote
  topic_of left_over d =
      if has_text d "symbol"
      then inr (record {
        market =
            if has_text d "market" then get_market_enum (text_at d "market") else market_unknown;
        exchange =
            if has_text d "exchange"
            then get_exchange_enum (text_at d "exchange")
            else exchange_unknown;
        type =
            if has_text d "type"
            then get_product_type_enum (text_at d "type")
            else product_type_unknown;
        info1 =
            if has_text d "info1" then get_quote_info1_enum (text_at d "info1") else info1_unknown;
        symbol = field_text left_over (text_at d "symbol");
        contract =
            if has_text d "contract" then field_text left_over (text_at d "contract") else [];
        contract_id =
            if has_text d "contract_id" then field_text left_over (text_at d "contract_id") else [];
        info2 =
            if has_text d "info2" then get_quote_info2_enum (text_at d "info2") else info2_unknown;
      })
      else inl (codes "failed parse http request data: can't find field 'symbol'")

  -- `ParseSubunsubMsg` behind the parsing. `left_over` is what the texts of `msg` held before. `none`: the
  -- first `HasMember` asserts, since the document is no object.
  unfoldable pub parse_subunsub_msg : Bytes → V → Option (Bytes ⊎ Quote)
  parse_subunsub_msg left_over d = if is_object d then some (topic_of left_over d) else none

  unfoldable pub rest_return : ℤ → Bytes → List (Event D)
  rest_return err_id err_msg =
      start_object
      ∷ key (codes "error_id")
      ∷ int err_id
      ∷ key (codes "error_msg")
      ∷ string err_msg
      ∷ end_object
      ∷ []

  -- The answers, and the topic that is passed on.
  abbrev pub Answers : Type 0
  Answers = List (Response D) × Option Quote

  abbrev pub answered : Bytes ⊎ Quote → Answers
  answered (inl what) = (ends (rest_return httpreq_failed_parse what) ∷ [], none)
  answered (inr msg) = (ends (rest_return (pos 0) []) ∷ [], some msg)

  -- `ParseSubunsubMsg` on what the parsing gives, and what follows it.
  abbrev pub on_parsed : Bytes → (Bytes ⊎ V) → Option Answers
  unfolding parse_subunsub_msg
  on_parsed left_over (inl what) =
      some (
        answered (inl (take 1022 (codes "failed parse http request data" ++ (codes ": " ++ what)))))
  on_parsed left_over (inr d) = Option.map answered (parse_subunsub_msg left_over d)

  -- `OnRestSubunsub`, for `length` bytes of data. `parsed` is the document, or what rapidjson says of
  -- the error. `none` is an assertion of rapidjson that fails, which aborts the program.
  unfoldable pub on_rest_subunsub : Bytes → (Bytes ⊎ V) → ℕ → ℕ → Option Answers
  on_rest_subunsub left_over parsed len remaining_bytes =
      if not (remaining_bytes == 0)
      then some ([], none)
      else (if ltb 4096 len
          then some
              (ends (rest_return httpreq_too_long (codes "http request data too long")) ∷ [], none)
          else on_parsed left_over parsed)

  -- A topic in the answer of `GetSubtopics`, with its flag from `vec_b`.
  unfoldable pub topic_entry : Quote × Bool → Option (List (Event D))
  topic_entry (msg, subed) = joined (
      some (start_object ∷ [])
      ∷ named "market" g_markets msg.market
      ∷ named "exchange" g_exchanges msg.exchange
      ∷ named "type" g_product_types msg.type
      ∷ some (
          key (codes "symbol")
          ∷ string msg.symbol
          ∷ key (codes "contract")
          ∷ string msg.contract
          ∷ key (codes "contract_id")
          ∷ string msg.contract_id
          ∷ [])
      ∷ named "info1" g_quote_info1 msg.info1
      ∷ named "info2" g_quote_info1 msg.info2
      ∷ some (key (codes "subed") ∷ int (if subed then pos 1 else pos 0) ∷ end_object ∷ [])
      ∷ [])

  unfoldable pub topic_entries : List (Quote × Bool) → Option (List (Event D))
  topic_entries [] = some []
  topic_entries (t ∷ ts) = joined (topic_entry t ∷ topic_entries ts ∷ [])

  -- `GetSubtopics`, with what the `QuoteService` lists.
  unfoldable pub get_subtopics : List (Quote × Bool) → Option (List (Event D))
  get_subtopics topics =
      Option.map
        (λ es.
          (start_object
            ∷ key (codes "msg")
            ∷ string (codes "topics")
            ∷ key (codes "data")
            ∷ start_array
            ∷ [])
          ++ (es ++ end_array ∷ end_object ∷ []))
        (topic_entries topics)

  -- `onMessage`: the answers, and the call of the `QuoteService`. `none` is a topic with an enumerator
  -- that no table has, or an assertion of rapidjson.
  unfoldable pub on_message :
      List (Quote × Bool)
      → Bytes
      → Bool
      → Bytes
      → (Bytes ⊎ V)
      → ℕ
      → ℕ
      → Option (List (Response D) × Option TopicCall)
  unfolding on_rest_subunsub
  on_message topics url is_post left_over parsed len remaining_bytes =
      let asked = on_rest_subunsub left_over parsed len remaining_bytes in
      if bytes_eq url (codes "/topic/get")
      then Option.map (λ text. (ends text ∷ [], none)) (get_subtopics topics)
      else (if bytes_eq url (codes "/topic/sub") && is_post
          then Option.map (λ r. (r.0, Option.map subscribes r.1)) asked
          else (if bytes_eq url (codes "/topic/unsub") && is_post
              then Option.map (λ r. (r.0, Option.map unsubscribes r.1)) asked
              else some (terminates ∷ [], none)))
