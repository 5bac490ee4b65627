-- ===== src/CtpQuotes/Requests.antt =====
-- Which topics `SubTopics` asks for, and in which portions (src/ctp-quotes/ctp_quote_handler.cpp).
use babeltrader.Common.{
  ◌+◌, ◌<◌, ◌≤◌, ◌≡◌, refl, ap, ◌∙◌, Bytes, Bool, true, false, List, [], ◌∷◌, ◌++◌, some, if_cases,
  append_assoc, ◌==◌, ==_iff, length, length-append, take, All, arith,
}
use mathlib.Core.List.{map, flatten}
use babeltrader.Common.Int.{pos}
use babeltrader.Common.StdMap.{StdMap}
use babeltrader.CtpQuotes.{
  CtpQuotes, ApiCall, subscribe_market_data, unsubscribe_market_data, all_down, sub_topics_loop,
  sub_all_topics, on_rsp_user_login, on_front_disconnected,
}

-- The instruments that a call subscribes to.
abbrev pub subscribed : ApiCall → List Bytes
subscribed (subscribe_market_data topics) = topics
subscribed (unsubscribe_market_data topics) = []

-- The topics that are not subscribed, as far as a buffer of 64 bytes holds them.
abbrev pub waiting : StdMap Bytes Bool → List Bytes
waiting [] = []
waiting ((topic, true) ∷ m) = waiting m
waiting ((topic, false) ∷ m) = take 63 topic ∷ waiting m

-- A call with at least one topic, and no more than the 16 buffers.
abbrev pub IsPortion : ApiCall → Type 0
IsPortion c = (0 < length (subscribed c)) × (length (subscribed c) ≤ 16)

abbrev Covers : List Bytes → List ApiCall → Type 0
Covers topics calls = (flatten (map subscribed calls) ≡ topics) × All IsPortion calls

sub_topics_loop-Covers :
    (buf : List Bytes) (m : StdMap Bytes Bool)
    → length buf < 16
    → Covers (buf ++ waiting m) (sub_topics_loop buf m)
unfolding sub_topics_loop flatten
sub_topics_loop-Covers [] [] h = (refl, tt)
sub_topics_loop-Covers (t ∷ buf) [] h =
    if_cases (Covers ((t ∷ buf) ++ [])) (length (t ∷ buf) == 0) _ _
      (λ e. absurd (ground (arith, ==_iff (length (t ∷ buf)) 0)))
      (λ e. (refl, ((omega arith, omega arith), tt)))
sub_topics_loop-Covers buf ((topic, true) ∷ m) h = sub_topics_loop-Covers buf m h
sub_topics_loop-Covers buf ((topic, false) ∷ m) h =
    let full = buf ++ take 63 topic ∷ [] in
    let size : length full ≡ length buf + 1 = length-append buf (take 63 topic ∷ []) in
    let called = sub_topics_loop-Covers [] m (omega arith) in
    let next = λ (h' : length full < 16). sub_topics_loop-Covers full m h' in
    if_cases (Covers (buf ++ take 63 topic ∷ waiting m)) (length full == 16) _ _
      (λ e. (
        ap (λ (ts : List Bytes). full ++ ts) called.0 ∙ append_assoc buf _ _,
        (
          (ground (arith, ==_iff (length full) 16), ground (arith, ==_iff (length full) 16)),
          called.1,
        ),
      ))
      λ e.
        let r = next (ground (arith, ==_iff (length full) 16)) in (r.0 ∙ append_assoc buf _ _, r.1)

-- `SubTopics` asks for the topics that are not subscribed, each once and in the order of the map,
-- in calls of one to sixteen topics.
pub sub_all_topics-covers :
    {D : Type 0} (s : CtpQuotes D)
    → (flatten (map subscribed (sub_all_topics s)) ≡ waiting s.sub_topics)
      × All IsPortion (sub_all_topics s)
unfolding sub_all_topics
sub_all_topics-covers s = sub_topics_loop-Covers [] s.sub_topics (omega arith)

waiting-all_down : (m : StdMap Bytes Bool) → waiting (all_down m) ≡ map (λ e. take 63 e.0) m
waiting-all_down [] = refl
waiting-all_down ((topic, flag) ∷ m) =
    ap (λ (ts : List Bytes). take 63 topic ∷ ts) (waiting-all_down m)

-- The calls of a login behind a lost connection.
abbrev pub RequestsAll : {D : Type 0} → CtpQuotes D → Type 0
RequestsAll s =
    (calls : List ApiCall) × (on_rsp_user_login (pos 0) (on_front_disconnected s) ≡ some calls)
    × (flatten (map subscribed calls) ≡ map (λ e. take 63 e.0) s.sub_topics)
    × All IsPortion calls

-- A login that succeeds after the connection was lost asks again for every topic of the map, the
-- subscribed ones too, each once and in order, in calls of one to sixteen topics.
pub reconnect-requests : {D : Type 0} (s : CtpQuotes D) → RequestsAll s
unfolding on_rsp_user_login on_front_disconnected
reconnect-requests s =
    let (e, p) = sub_all_topics-covers (on_front_disconnected s) in
    (_, refl, e ∙ waiting-all_down s.sub_topics, p)
