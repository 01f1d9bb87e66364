-- ===== src/Matching/Engine/Valid.antt =====
-- The invariant of the engine.
use hft_fix_engine.Base.{
  ℕ, ◌+◌, ◌<◌, ◌≡◌, ◌^◌, ◌%◌, refl, sym, ◌∙◌, List, [], ◌∷◌, All, arith, inl, inr, Bool-cases,
  Bytes, bytes_eq, bytes_eq→eq, add_u64, subst,
}
use hft_fix_engine.Protocol.ParsedOrder.{ParsedOrder}
use hft_fix_engine.Matching.Book.{MatchingBook, TradeExecution, empty_book, submit_order}
use hft_fix_engine.Matching.Book.Valid.{IsValid, submit_order-IsValid}
use hft_fix_engine.Matching.Book.Trades.{submit_order_counts}
use hft_fix_engine.Matching.Engine.{
  Books, MatchingEngine, find_book, put_book, routed_symbol, book_or_new, process_order,
  count_trades, total_trades,
}

-- A book in the engine is valid, its counters are in range, and it carries its symbol.
pub record Holds (entry : Bytes × MatchingBook) : Type 0 where
  pub valid : IsValid entry.1
  pub symbol : entry.1.symbol ≡ entry.0
  pub trades_in_range : entry.1.total_trades < 2 ^ 64
  pub volume_in_range : entry.1.total_volume < 2 ^ 64

pub record EngineIsValid (e : MatchingEngine) : Type 0 where
  pub books_hold : All Holds e.books
  pub counter_in_range : e.trade_counter < 2 ^ 64
  pub numbers_used : e.trade_counter ≡ total_trades e

empty-Holds : (key : Bytes) → Holds (key, empty_book key)
unfolding empty_book
empty-Holds key = record {
  valid = record {
    bids_sorted = tt;
    asks_sorted = tt;
    bids_open = tt;
    asks_open = tt;
    uncrossed = tt;
  };
  symbol = refl;
  trades_in_range = omega arith;
  volume_in_range = omega arith;
}

book_or_new-Holds :
    (key : Bytes) (books : Books)
    → All Holds books
    → Holds (key, book_or_new key (find_book key books))
unfolding find_book
book_or_new-Holds key [] h = empty-Holds key
book_or_new-Holds key ((k, b) ∷ rest) h = elim (Bool-cases (bytes_eq k key)) [
  | inl e ↦ rw (e, find_book) (subst (λ z. Holds (z, b)) (bytes_eq→eq k key e) h.0)
  | inr e ↦ rw (e, find_book) (book_or_new-Holds key rest h.1)
]

put_book-Holds :
    (key : Bytes) (b : MatchingBook) (books : Books)
    → Holds (key, b)
    → All Holds books
    → All Holds (put_book key b books)
unfolding put_book
put_book-Holds key b [] hb h = (hb, tt)
put_book-Holds key b ((k, c) ∷ rest) hb h = elim (Bool-cases (bytes_eq k key)) [
  | inl e ↦ rw (e, put_book) (subst (λ z. Holds (z, b)) (sym (bytes_eq→eq k key e)) hb, h.1)
  | inr e ↦ rw (e, put_book) (h.0, put_book-Holds key b rest hb h.1)
]

sum_trades : Books → ℕ
sum_trades [] = 0
sum_trades ((k, b) ∷ rest) = b.total_trades + sum_trades rest

count_trades-sum :
    (c : ℕ) (books : Books) → c < 2 ^ 64 → count_trades c books ≡ add_u64 c (sum_trades books)
unfolding count_trades sum_trades
count_trades-sum c [] h = omega arith
count_trades-sum c ((k, b) ∷ rest) h =
    omega (arith, count_trades-sum (add_u64 c b.total_trades) rest (omega arith))

-- Adding `n` trades to one book adds `n` to the engine's count.
sum_trades-put_book :
    (key : Bytes) (b : MatchingBook) (books : Books) (n : ℕ)
    → b.total_trades ≡ add_u64 (book_or_new key (find_book key books)).total_trades n
    → sum_trades (put_book key b books) % 2 ^ 64 ≡ (sum_trades books + n) % 2 ^ 64
unfolding sum_trades put_book find_book empty_book
sum_trades-put_book key b [] n h = omega (arith, h)
sum_trades-put_book key b ((k, c) ∷ rest) n h = ground (arith, sum_trades-put_book key b rest n)

-- On a valid engine `process_order` keeps every book valid, under its symbol and with its counters
-- in range, and keeps the number of the last trade equal to the count of all trades, modulo 2 ^ 64.
pub process_order-EngineIsValid :
    (e : MatchingEngine) (order : ParsedOrder) (trades : List TradeExecution) (ts : ℕ)
    → EngineIsValid e
    → EngineIsValid (process_order e order trades ts).engine
unfolding process_order total_trades
process_order-EngineIsValid e order trades ts v =
    let symbol = routed_symbol order in
    let book = book_or_new symbol (find_book symbol e.books) in
    let held = book_or_new-Holds symbol e.books v.books_hold in
    let r = submit_order book order trades e.trade_counter ts in
    let c =
      submit_order_counts book order trades e.trade_counter ts held.trades_in_range
        held.volume_in_range v.counter_in_range held.valid.asks_sorted held.valid.bids_sorted in
    record {
      books_hold =
          put_book-Holds symbol r.book e.books
            (record {
              valid = submit_order-IsValid book order trades e.trade_counter ts held.valid;
              symbol = c.4 ∙ held.symbol;
              trades_in_range = omega (arith, c.2);
              volume_in_range = c.3;
            })
            v.books_hold;
      counter_in_range = omega (arith, c.1);
      numbers_used = omega (
        arith,
        c.1,
        v.numbers_used,
        count_trades-sum 0 e.books (omega arith),
        count_trades-sum 0 (put_book symbol r.book e.books) (omega arith),
        sum_trades-put_book symbol r.book e.books c.0 c.2,
      );
    }
