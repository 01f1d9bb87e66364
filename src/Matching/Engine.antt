-- ===== src/Matching/Engine.antt =====
-- include/hft/matching/MatchingEngine.hpp, `MatchingEngine`: the router of orders to the books of
-- their symbols. The `unordered_map` is an association list with one entry for each symbol; the two
-- totals add over its entries, in whatever order.
pub mod Routing
pub mod Valid
mod Tests
use hft_fix_engine.Base.{
  ℕ, Bool, List, [], ◌∷◌, Option, none, some, if◌then◌else◌, Bytes, bytes_eq, add_u64,
}
use hft_fix_engine.Protocol.ParsedOrder.{ParsedOrder}
use hft_fix_engine.Matching.Book.{MatchingBook, TradeExecution, Submitted, empty_book, submit_order}

abbrev pub Books : Type 0
Books = List (Bytes × MatchingBook)

pub record MatchingEngine : Type 0 where
  pub books : Books
  pub trade_counter : ℕ

unfoldable pub empty_engine : MatchingEngine
empty_engine = record { books = []; trade_counter = 0 }

unfoldable pub find_book : Bytes → Books → Option MatchingBook
find_book key [] = none
find_book key ((k, b) ∷ rest) = if bytes_eq k key then some b else find_book key rest

-- A write through the iterator, or the new entry of `emplace`.
unfoldable pub put_book : Bytes → MatchingBook → Books → Books
put_book key b [] = (key, b) ∷ []
put_book key b ((k, c) ∷ rest) =
    if bytes_eq k key then (k, b) ∷ rest else (k, c) ∷ put_book key b rest

-- An order without a symbol goes to the book of PETR4.
unfoldable pub routed_symbol : ParsedOrder → Bytes
routed_symbol order = elim order.symbol [
  | [] ↦ b'P' ∷ b'E' ∷ b'T' ∷ b'R' ∷ b'4' ∷ []
  | c ∷ cs ↦ c ∷ cs
]

abbrev pub book_or_new : Bytes → Option MatchingBook → MatchingBook
book_or_new symbol none = empty_book symbol
book_or_new symbol (some b) = b

pub record Processed : Type 0 where
  pub engine : MatchingEngine
  pub trades : List TradeExecution
  pub matched : Bool

unfoldable pub process_order : MatchingEngine → ParsedOrder → List TradeExecution → ℕ → Processed
unfolding find_book put_book
process_order e order trades timestamp_ns =
    let symbol = routed_symbol order in
    let book = book_or_new symbol (find_book symbol e.books) in
    let r = submit_order book order trades e.trade_counter timestamp_ns in
    record {
      engine = record { books = put_book symbol r.book e.books; trade_counter = r.trade_counter };
      trades = r.trades;
      matched = r.matched;
    }

unfoldable pub count_trades : ℕ → Books → ℕ
count_trades count [] = count
count_trades count ((k, b) ∷ rest) = count_trades (add_u64 count b.total_trades) rest

unfoldable pub total_trades : MatchingEngine → ℕ
unfolding count_trades
total_trades e = count_trades 0 e.books

unfoldable pub count_volume : ℕ → Books → ℕ
count_volume vol [] = vol
count_volume vol ((k, b) ∷ rest) = count_volume (add_u64 vol b.total_volume) rest

unfoldable pub total_volume : MatchingEngine → ℕ
unfolding count_volume
total_volume e = count_volume 0 e.books
