-- ===== src/Matching/ZeroAlloc/Submit.antt =====
-- Whole orders: the book in arrays stays as it should be, and does what the reference book does.
use hft_fix_engine.Base.{
  ℕ, ◌^◌, ◌<◌, inl, inr, Bool-cases, List, Option, ltb, ltb→lt, arith, ℤ, pos, negsuc, eqb_ℤ,
  to_u32, Bytes,
}
use hft_fix_engine.Protocol.ParsedOrder.{ParsedOrder}
use hft_fix_engine.Matching.Book.{Side, buy, sell}
use hft_fix_engine.Matching.ZeroAlloc.Level.{max_book_levels}
use hft_fix_engine.Matching.ZeroAlloc.Side.{BookSide}
use hft_fix_engine.Matching.ZeroAlloc.Pool.{IsSide, empty_side-IsSide}
use hft_fix_engine.Matching.ZeroAlloc.Cross.{Crossed, match_loop-fill}
use hft_fix_engine.Matching.ZeroAlloc.Rest.{add_to_book-Added}
use hft_fix_engine.Matching.ZeroAlloc.Book.{
  ZeroAllocHftOrderBook, ZeroAllocTrade, Match, fresh, start, match_loop, place_rest, new_book,
  submit_order,
}

pub record IsBook (b : ZeroAllocHftOrderBook) : Type 0 where
  pub bids : IsSide buy b.bids
  pub asks : IsSide sell b.asks

pub new_book-IsBook : (symbol : Bytes) → IsBook (new_book symbol)
unfolding new_book
new_book-IsBook symbol = record { bids = empty_side-IsSide buy; asks = empty_side-IsSide sell }

to_u32_lt : (z : ℤ) → to_u32 z < 2 ^ 32
to_u32_lt (pos n) = omega arith
to_u32_lt (negsuc n) = omega arith

place_rest-IsSide :
    (own : Side) (s : BookSide) (order : ParsedOrder) (remaining ts : ℕ)
    → IsSide own s
    → IsSide own (place_rest own s order remaining ts)
unfolding place_rest
place_rest-IsSide own s order remaining ts side = elim (Bool-cases (ltb 0 remaining)) [
  | inl e ↦ elim (Bool-cases (ltb s.level_count max_book_levels)) [
    | inl f ↦
        rw (e, f)
          ((add_to_book-Added own s side order remaining ts
            (ltb→lt s.level_count max_book_levels f)).side_kept)
    | inr f ↦ rw (e, f) side
  ]
  | inr e ↦ rw e side
]

module _ (b : ZeroAllocHftOrderBook) (order : ParsedOrder)
    (out_trades : Option (List ZeroAllocTrade)) (max_trades trade_counter timestamp_ns : ℕ)
    (is_book : IsBook b) where
  abbrev pub bought : Match
  bought =
      match_loop buy b.symbol order max_trades timestamp_ns
        (start b b.asks order (fresh out_trades trade_counter))

  abbrev pub sold : Match
  sold =
      match_loop sell b.symbol order max_trades timestamp_ns
        (start b b.bids order (fresh out_trades trade_counter))

  pub bought-Crossed :
      Crossed buy b.symbol order max_trades timestamp_ns sell
        (start b b.asks order (fresh out_trades trade_counter))
        bought
  bought-Crossed =
      match_loop-fill buy b.symbol order max_trades timestamp_ns sell
        (start b b.asks order (fresh out_trades trade_counter))
        (record { passive = is_book.asks; word = to_u32_lt order.quantity })

  pub sold-Crossed :
      Crossed sell b.symbol order max_trades timestamp_ns buy
        (start b b.bids order (fresh out_trades trade_counter))
        sold
  sold-Crossed =
      match_loop-fill sell b.symbol order max_trades timestamp_ns buy
        (start b b.bids order (fresh out_trades trade_counter))
        (record { passive = is_book.bids; word = to_u32_lt order.quantity })

  -- On a book as it should be, whatever the order, both sides keep their levels in strict order and
  -- each with an order, and every level of the pools is in use once or free once; the totals of the
  -- levels are those of their orders.
  pub submit_order-IsBook :
      IsBook (submit_order b order out_trades max_trades trade_counter timestamp_ns).1
  unfolding submit_order
  submit_order-IsBook = elim (Bool-cases (eqb_ℤ order.side (pos 1))) [
    | inl e ↦ rw e (record {
      bids = place_rest-IsSide buy b.bids order bought.remaining_qty timestamp_ns is_book.bids;
      asks = bought-Crossed.passive;
    })
    | inr e ↦ elim (Bool-cases (eqb_ℤ order.side (pos 2))) [
      | inl f ↦
          rw (e, f)
            (record {
              bids = sold-Crossed.passive;
              asks =
                  place_rest-IsSide sell b.asks order sold.remaining_qty timestamp_ns is_book.asks;
            })
      | inr f ↦ rw (e, f) is_book
    ]
  ]
