-- ===== src/QuoteService/Batches.antt =====
-- The batches of `AsyncLoop` (src/common/quote_service.cpp): what goes out, and in which order.
use babeltrader.Common.{
  ◌≡◌, refl, ap, ◌∙◌, List, [], ◌∷◌, ◌++◌, Option, none, some, All, All-split, sym,
}
use mathlib.Core.List.{append-nil, append_assoc, flatten, map}
use babeltrader.Common.Double.{Double}
use babeltrader.Structs.{Quote}
use babeltrader.Json.{Event}
use babeltrader.Json.Grammar.{Frame, in_array, parse, parse-append, IsJson}
use babeltrader.Converter.Quotes.{joined, serialize_quote_begin, serialize_quote_end}
use babeltrader.QuoteService.{
  QuoteBlock, market_data_block, kline_block, order_book_block, level2_block, other_block,
  serialize_block, serialize_blocks, bracket, async_loop,
}
use babeltrader.QuoteService.Texts.{
  AreMembers, IsQuote, IsMarketData, IsLevel2, serialize_quote_begin-total,
  serialize_market_data-total, serialize_order_book-members, serialize_kline-members,
  serialize_level2-total,
}

joined-nil {ℓ} : {A : Type ℓ} (o : Option (List A)) → joined (some [] ∷ o ∷ []) ≡ o
unfolding joined
joined-nil none = refl
joined-nil (some xs) = ap some (append-nil xs)

joined_assoc {ℓ} :
    {A : Type ℓ} (o p q : Option (List A))
    → joined (o ∷ joined (p ∷ q ∷ []) ∷ []) ≡ joined (joined (o ∷ p ∷ []) ∷ q ∷ [])
unfolding joined
joined_assoc none p q = refl
joined_assoc (some xs) none q = refl
joined_assoc (some xs) (some ys) none = refl
joined_assoc (some xs) (some ys) (some zs) = rw (append-nil, append-nil, append-nil, append_assoc)

joined-two {ℓ} : {A : Type ℓ} (xs ys : List A) → joined (some xs ∷ some ys ∷ []) ≡ some (xs ++ ys)
unfolding joined
joined-two xs ys = ap (λ zs. some (xs ++ zs)) (append-nil ys)

module _ (F : Double) where
  open F use {D}

  -- A block whose writer reads no table and no array out of bounds.
  abbrev pub IsBlock : QuoteBlock D → Type 0
  IsBlock (market_data_block msg) = IsQuote F msg.quote × IsMarketData F msg.market_data
  IsBlock (kline_block msg) = IsQuote F msg.quote
  IsBlock (order_book_block msg) = IsQuote F msg.quote
  IsBlock (level2_block msg) = IsQuote F msg.quote × IsLevel2 F msg.level2
  IsBlock other_block = Unit {0}

  -- Written to its end, and what is open stays open.
  abbrev IsEntries : Option (List (Event D)) → Type 0
  IsEntries o =
      (es : List (Event D)) × (o ≡ some es)
      × ((fs : List Frame) → parse es (in_array ∷ fs) ≡ some (in_array ∷ fs))

  -- A quote with its members, which the two writers around them open and close.
  framed :
      (q : Quote) (o : Option (List (Event D)))
      → IsQuote F q
      → AreMembers F o
      → IsEntries (joined (serialize_quote_begin F q ∷ o ∷ some (serialize_quote_end F) ∷ []))
  unfolding joined serialize_quote_end
  framed q o h m =
      let (bs, eb, pb) = serialize_quote_begin-total F q h in
      let (ms, em, pm) = m in
      rw (eb, em)
        (_, refl, λ fs. parse-append bs _ _ _ (pb fs) ∙ (parse-append ms _ _ _ (pm _).1 ∙ refl))

  serialize_block-IsEntries : (b : QuoteBlock D) → IsBlock b → IsEntries (serialize_block F b)
  unfolding serialize_block
  serialize_block-IsEntries (market_data_block msg) h =
      framed msg.quote _ h.0 (serialize_market_data-total F msg.market_data h.1)
  serialize_block-IsEntries (kline_block msg) h =
      framed msg.quote _ h (serialize_kline-members F msg.kline)
  serialize_block-IsEntries (order_book_block msg) h =
      framed msg.quote _ h (serialize_order_book-members F msg.order_book)
  serialize_block-IsEntries (level2_block msg) h =
      framed msg.quote _ h.0 (serialize_level2-total F msg.level2 h.1)
  serialize_block-IsEntries other_block h = ([], refl, λ fs. refl)

  serialize_blocks-IsEntries :
      (bs : List (QuoteBlock D)) → All IsBlock bs → IsEntries (serialize_blocks F bs)
  unfolding serialize_blocks joined
  serialize_blocks-IsEntries [] h = ([], refl, λ fs. refl)
  serialize_blocks-IsEntries (b ∷ bs) h =
      let (xs, ex, px) = serialize_block-IsEntries b h.0 in
      let (ys, ey, py) = serialize_blocks-IsEntries bs h.1 in
      rw (ex, ey, append-nil ys) (_, refl, λ fs. parse-append xs ys _ _ (px fs) ∙ py fs)

  -- Writing two runs of blocks is writing them together.
  serialize_blocks-append :
      (bs cs : List (QuoteBlock D))
      → serialize_blocks F (bs ++ cs) ≡ joined (serialize_blocks F bs ∷ serialize_blocks F cs ∷ [])
  unfolding serialize_blocks
  serialize_blocks-append [] cs = sym (joined-nil (serialize_blocks F cs))
  serialize_blocks-append (b ∷ bs) cs =
      ap (λ o. joined (serialize_block F b ∷ o ∷ [])) (serialize_blocks-append bs cs)
      ∙ joined_assoc (serialize_block F b) (serialize_blocks F bs) (serialize_blocks F cs)

  bracket-IsJson :
      (es : List (Event D))
      → ((fs : List Frame) → parse es (in_array ∷ fs) ≡ some (in_array ∷ fs))
      → IsJson (bracket F es)
  bracket-IsJson es h = parse-append es _ _ _ (h _) ∙ refl

  -- The arrays that go out for the reads, and what stands in them.
  abbrev pub SendsInOrder : List (List (QuoteBlock D)) → Type 0
  SendsInOrder reads =
      (bodies : List (List (Event D))) × (async_loop F reads ≡ some (map (bracket F) bodies))
      × All IsJson (map (bracket F) bodies)
      × (serialize_blocks F (flatten reads) ≡ some (flatten bodies))

  -- If no block makes a writer read out of bounds, `AsyncLoop` sends every batch as one JSON array,
  -- and what stands in the arrays, one after the other, is what the blocks of all reads spell in
  -- their order: between the batches no block is lost, repeated or moved.
  pub async_loop-sends :
      (reads : List (List (QuoteBlock D))) → All IsBlock (flatten reads) → SendsInOrder reads
  unfolding async_loop flatten serialize_blocks
  async_loop-sends [] h = ([], refl, tt, refl)
  async_loop-sends ([] ∷ reads) h = async_loop-sends reads h
  async_loop-sends ((b ∷ bs) ∷ reads) h =
      let (hb, hr) = All-split IsBlock (b ∷ bs) (flatten reads) h in
      let (es, e, p) = serialize_blocks-IsEntries (b ∷ bs) hb in
      let (bodies, q, j, r) = async_loop-sends reads hr in
      (
        es ∷ bodies,
        rw (e, q) (joined-two (bracket F es ∷ []) _),
        (bracket-IsJson es p, j),
        serialize_blocks-append (b ∷ bs) (flatten reads) ∙ rw (e, r) (joined-two es _),
      )
