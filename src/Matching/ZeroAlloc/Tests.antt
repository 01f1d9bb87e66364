-- ===== src/Matching/ZeroAlloc/Tests.antt =====
-- A book with one ask, and a buy order that takes it and rests what is left.
use hft_fix_engine.Base.{
  ℕ, ◌%◌, ◌^◌, ◌≡◌, refl, [], none, some, pos, replicate, length, map, sum, codes, shift_up, ◌<◌,
  arith,
}
use hft_fix_engine.Protocol.ParsedOrder.{ParsedOrder, default_order}
use hft_fix_engine.Matching.Book.{buy, sell}
use hft_fix_engine.Matching.Book as Book
use hft_fix_engine.Matching.ZeroAlloc.Level.{push_back_order, reset}
use hft_fix_engine.Matching.ZeroAlloc.Side.{search_levels}
use hft_fix_engine.Matching.ZeroAlloc.Ring.{queue, quantity}
use hft_fix_engine.Matching.ZeroAlloc.Pool.{Before}
use hft_fix_engine.Matching.ZeroAlloc.Find.{Bounded, IsEnd, search_levels-Bounded}
use hft_fix_engine.Matching.ZeroAlloc.Cross.{Crossed, match_loop-fill}
use hft_fix_engine.Matching.ZeroAlloc.Queries.{waiting, level_queries}
use hft_fix_engine.Matching.ZeroAlloc.Submit.{IsBook, new_book-IsBook, submit_order-IsBook}
use hft_fix_engine.Matching.ZeroAlloc.Reference.{view, cut, submit_order_refines}
use hft_fix_engine.Matching.ZeroAlloc.Book.{
  ZeroAllocHftOrderBook, blank_trade, Match, fresh, start, match_loop, new_book, submit_order,
}
use hft_fix_engine.Matching.ZeroAlloc.Depth.{
  level_price, level_qty, level_order_count, best_ask_price, best_ask_qty, best_bid_qty,
}

abbrev ask : ParsedOrder
ask = record default_order {
  cl_ord_id = codes "A1";
  symbol = codes "ABC";
  side = pos 2;
  quantity = pos 5;
  price = pos 100;
  seq_num = 1;
}

abbrev bid : ParsedOrder
bid = record default_order {
  cl_ord_id = codes "B1";
  symbol = codes "ABC";
  side = pos 1;
  quantity = pos 8;
  price = pos 101;
  seq_num = 2;
}

abbrev book : ZeroAllocHftOrderBook
book = (submit_order (new_book (codes "ABC")) ask none 0 0 7).1

book-IsBook : IsBook book
book-IsBook =
    submit_order-IsBook (new_book (codes "ABC")) ask none 0 0 7 (new_book-IsBook (codes "ABC"))

asks_in_use : book.asks.level_count ≡ 1
unfolding submit_order new_book
asks_in_use = refl

bids_in_use : book.bids.level_count ≡ 0
unfolding submit_order new_book
bids_in_use = refl

best_ask : (best_ask_price book ≡ pos 100) × (best_ask_qty book ≡ 5)
unfolding submit_order new_book best_ask_price best_ask_qty shift_up push_back_order reset
best_ask = (refl, refl)

resting_bid : best_bid_qty (submit_order book bid (some (replicate 4 blank_trade)) 4 0 8).1 ≡ 3
unfolding submit_order new_book best_bid_qty shift_up push_back_order reset
resting_bid = refl

submit_order-IsBook_example :
    IsBook (submit_order book bid (some (replicate 4 blank_trade)) 4 0 8).1
submit_order-IsBook_example =
    submit_order-IsBook book bid (some (replicate 4 blank_trade)) 4 0 8 book-IsBook

submit_order_refines_example :
    view (submit_order book bid (some (replicate 4 blank_trade)) 4 0 8).1
    ≡ (Book.submit_order (view book) (cut bid) [] 0 8).book
submit_order_refines_example =
    submit_order_refines book bid (some (replicate 4 blank_trade)) 4 0 8 [] 0 book-IsBook
      (λ e. (omega (arith, bids_in_use), λ i lt hit. absurd (omega (arith, bids_in_use))))
      (λ e. absurd (let other : pos 1 ≡ pos 2 = e in ground arith)) (refl, (refl, tt))

-- The buy order on the asks of the book.
abbrev crossing : Match
crossing = start book book.asks bid (fresh (some (replicate 4 blank_trade)) 0)

match_loop-fill_example :
    Crossed buy book.symbol bid 4 8 sell crossing (match_loop buy book.symbol bid 4 8 crossing)
match_loop-fill_example =
    match_loop-fill buy book.symbol bid 4 8 sell crossing
      (record { passive = book-IsBook.asks; word = omega arith })

search_levels-Bounded_example :
    Bounded sell book.asks book-IsBook.asks (pos 101) (search_levels sell book.asks (pos 101))
    × IsEnd sell book.asks book-IsBook.asks (pos 101) (search_levels sell book.asks (pos 101))
search_levels-Bounded_example = search_levels-Bounded sell book.asks book-IsBook.asks (pos 101)

level_queries_example :
    (level_qty book.asks 0 ≡ sum (map quantity (queue (waiting book.asks 0))) % 2 ^ 32)
    × (level_order_count book.asks 0 ≡ length (queue (waiting book.asks 0)))
    × (0 < level_order_count book.asks 0)
    × ((j : ℕ)
        → 0 < j
        → j < book.asks.level_count
        → Before sell (level_price book.asks 0) (level_price book.asks j))
level_queries_example = level_queries sell book.asks book-IsBook.asks 0 (omega (arith, asks_in_use))
