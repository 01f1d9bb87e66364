-- ===== src/Matching/ZeroAlloc/Reference.antt =====
-- The book in arrays against the book in vectors of MatchingEngine.hpp.
use hft_fix_engine.Base.{
  ℕ, ◌-◌, ◌<◌, ◌≡◌, refl, ap, ◌∙◌, inl, inr, Bool-cases, List, Option, take, ltb, lt→ltb, ℤ, pos,
  eqb_ℤ, eqb_ℤ→eq,
}
use hft_fix_engine.Protocol.ParsedOrder.{ParsedOrder}
use hft_fix_engine.Matching.Book.{Side, buy, sell, MatchingBook, TradeExecution}
use hft_fix_engine.Matching.Book as Book
use hft_fix_engine.Matching.Book.Spec.{settle_order}
use hft_fix_engine.Matching.Book.Refine.{submit_order-settle_order}
use hft_fix_engine.Matching.ZeroAlloc.Level.{max_book_levels, max_cl_ord_id_len}
use hft_fix_engine.Matching.ZeroAlloc.Side.{BookSide}
use hft_fix_engine.Matching.ZeroAlloc.Fills.{Seen}
use hft_fix_engine.Matching.ZeroAlloc.Append.{IsText}
use hft_fix_engine.Matching.ZeroAlloc.Pool.{IsSide, contents}
use hft_fix_engine.Matching.ZeroAlloc.Rest.{HasRoom, add_to_book-Added}
use hft_fix_engine.Matching.ZeroAlloc.Submit.{IsBook, bought, sold, bought-Crossed, sold-Crossed}
use hft_fix_engine.Matching.ZeroAlloc.Book.{
  ZeroAllocHftOrderBook, ZeroAllocTrade, place_rest, submit_order,
}

-- The book as rows of entries.
abbrev pub view : ZeroAllocHftOrderBook → MatchingBook
view b = record {
  symbol = b.symbol;
  bids = contents b.bids;
  asks = contents b.asks;
  total_trades = b.total_trades;
  total_volume = b.total_volume;
}

-- An order with the identifier that the arrays keep.
abbrev pub cut : ParsedOrder → ParsedOrder
cut order = record order { cl_ord_id = take (max_cl_ord_id_len - 1) order.cl_ord_id }

-- A level is free, and the level at the price, if there is one, has a place.
abbrev pub HasSpace : BookSide → ℤ → Type 0
HasSpace s price = (s.level_count < max_book_levels) × HasRoom s price

module _ (own : Side) (s : BookSide) (order : ParsedOrder) (remaining ts : ℕ) where
  -- The rest of an order goes where the reference book puts it.
  pub place_rest_refines :
      IsSide own s
      → HasSpace s order.price
      → IsText order.cl_ord_id
      → contents (place_rest own s order remaining ts)
        ≡ Book.place_rest own (cut order) remaining (contents s)
  unfolding place_rest Book.place_rest
  place_rest_refines side space plain =
      let (room, place) = space in
      elim (Bool-cases (ltb 0 remaining)) [
        | inl e ↦
            rw (e, lt→ltb s.level_count max_book_levels room)
              ((add_to_book-Added own s side order remaining ts room).entered place plain)
        | inr e ↦ rw e refl
      ]

module _ (b : ZeroAllocHftOrderBook) (order : ParsedOrder)
    (out_trades : Option (List ZeroAllocTrade)) (max_trades trade_counter timestamp_ns : ℕ)
    (trades : List TradeExecution) (counter : ℕ) where
  -- On a book as it should be, with space on the side of the order and no zero byte in its identifier,
  -- the arrays do to the book what the reference book does, with the identifier cut to 31 bytes: the
  -- resting entries of both sides in their order, and the totals.
  pub submit_order_refines :
      IsBook b
      → (order.side ≡ pos 1 → HasSpace b.bids order.price)
      → (order.side ≡ pos 2 → HasSpace b.asks order.price)
      → IsText order.cl_ord_id
      → view (submit_order b order out_trades max_trades trade_counter timestamp_ns).1
        ≡ (Book.submit_order (view b) (cut order) trades counter timestamp_ns).book
  unfolding submit_order settle_order
  submit_order_refines is_book bid_space ask_space plain =
      let reference =
        ap (λ (r : Book.Submitted). r.book)
          (submit_order-settle_order (view b) (cut order) trades counter timestamp_ns) in
      elim (Bool-cases (eqb_ℤ order.side (pos 1))) [
        | inl e ↦
            let w = bought b order out_trades max_trades trade_counter timestamp_ns is_book in
            let done =
              bought-Crossed b order out_trades max_trades trade_counter timestamp_ns is_book in
            rw (reference, e)
              (ap
                  (λ bids.
                    let r : MatchingBook = record {
                      symbol = b.symbol;
                      bids = bids;
                      asks = contents w.passive;
                      total_trades = w.total_trades;
                      total_volume = w.total_volume;
                    } in
                    r)
                  (place_rest_refines buy b.bids order w.remaining_qty timestamp_ns is_book.bids
                    (bid_space (eqb_ℤ→eq order.side (pos 1) e)) plain)
                ∙ ap
                    (λ (z : Seen).
                      let r : MatchingBook = record {
                        symbol = b.symbol;
                        bids = Book.place_rest buy (cut order) z.remaining_qty (contents b.bids);
                        asks = z.book;
                        total_trades = z.total_trades;
                        total_volume = z.total_volume;
                      } in
                      r)
                    done.result)
        | inr e ↦ elim (Bool-cases (eqb_ℤ order.side (pos 2))) [
          | inl f ↦
              let w = sold b order out_trades max_trades trade_counter timestamp_ns is_book in
              let done =
                sold-Crossed b order out_trades max_trades trade_counter timestamp_ns is_book in
              rw (reference, e, f)
                (ap
                    (λ asks.
                      let r : MatchingBook = record {
                        symbol = b.symbol;
                        bids = contents w.passive;
                        asks = asks;
                        total_trades = w.total_trades;
                        total_volume = w.total_volume;
                      } in
                      r)
                    (place_rest_refines sell b.asks order w.remaining_qty timestamp_ns is_book.asks
                      (ask_space (eqb_ℤ→eq order.side (pos 2) f)) plain)
                  ∙ ap
                      (λ (z : Seen).
                        let r : MatchingBook = record {
                          symbol = b.symbol;
                          bids = z.book;
                          asks = Book.place_rest sell (cut order) z.remaining_qty (contents b.asks);
                          total_trades = z.total_trades;
                          total_volume = z.total_volume;
                        } in
                        r)
                      done.result)
          | inr f ↦ rw (reference, e, f) refl
        ]
      ]
