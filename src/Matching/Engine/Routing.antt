-- ===== src/Matching/Engine/Routing.antt =====
-- Routing: a book sees the orders of its symbol and no others.
use hft_fix_engine.Base.{
  ℕ, ◌≡◌, refl, sym, ap, ◌∙◌, List, [], ◌∷◌, Option, none, some, arith, inl, inr, Bool, Bool-cases,
  if◌then◌else◌, Bytes, bytes_eq, bytes_eq→eq, bytes_eq_refl, pos, eqb_ℤ, codes,
}
use hft_fix_engine.Protocol.ParsedOrder.{ParsedOrder}
use hft_fix_engine.Matching.Book.{MatchingBook, TradeExecution, Submitted, empty_book, submit_order}
use hft_fix_engine.Matching.Book.Spec.{settle_order}
use hft_fix_engine.Matching.Book.Refine.{submit_order-settle_order}
use hft_fix_engine.Matching.Engine.{
  Books, MatchingEngine, find_book, put_book, routed_symbol, book_or_new, process_order,
}

find_book-put_book :
    (j key : Bytes) (b : MatchingBook) (books : Books)
    → find_book j (put_book key b books) ≡ (if bytes_eq key j then some b else find_book j books)
unfolding find_book put_book
find_book-put_book j key b [] = refl
find_book-put_book j key b ((k, c) ∷ rest) = ground (
  arith,
  find_book-put_book j key b rest,
  bytes_eq→eq k key,
  bytes_eq→eq key j,
  bytes_eq→eq k j,
  bytes_eq_refl j,
)

-- The calls of `process_order` for a row of orders, each with its time.
unfoldable pub process_orders :
    MatchingEngine → List TradeExecution → List (ParsedOrder × ℕ) → MatchingEngine
process_orders e trades [] = e
process_orders e trades ((order, ts) ∷ rest) =
    let r = process_order e order trades ts in process_orders r.engine r.trades rest

-- The order is one for the symbol `j`: it names `j`, or it names nothing and `j` is PETR4.
abbrev pub is_for : Bytes → Bytes → Bool
is_for j [] = bytes_eq (codes "PETR4") j
is_for j (c ∷ cs) = bytes_eq (c ∷ cs) j

-- A book of its own for `j`, made at the first order for `j`, that is given the orders for `j` and no
-- others, and that knows nothing of the engine's counter or of what other books traded.
unfoldable pub book_alone :
    Bytes → Option MatchingBook → List (ParsedOrder × ℕ) → Option MatchingBook
book_alone j b [] = b
book_alone j b ((order, ts) ∷ rest) =
    let book : MatchingBook = elim b [ none ↦ empty_book j | some known ↦ known ] in
    let seen = book_alone j (some (submit_order book order [] 0 ts).book) rest in
    let missed = book_alone j b rest in if is_for j order.symbol then seen else missed

settle_order-book :
    (b : MatchingBook) (order : ParsedOrder) (trades : List TradeExecution) (counter ts : ℕ)
    → (settle_order b order trades counter ts).book ≡ (settle_order b order [] 0 ts).book
unfolding settle_order
settle_order-book b order trades counter ts = elim (Bool-cases (eqb_ℤ order.side (pos 1))) [
  | inl e ↦ rw e refl
  | inr e ↦ elim (Bool-cases (eqb_ℤ order.side (pos 2))) [
    | inl e' ↦ rw (e, e') refl
    | inr e' ↦ rw (e, e') refl
  ]
]

-- What an order does to a book does not depend on the numbers given out before it.
submit_order-book :
    (b : MatchingBook) (order : ParsedOrder) (trades : List TradeExecution) (counter ts : ℕ)
    → (submit_order b order trades counter ts).book ≡ (submit_order b order [] 0 ts).book
submit_order-book b order trades counter ts =
    ap (λ (r : Submitted). r.book) (submit_order-settle_order b order trades counter ts)
    ∙ settle_order-book b order trades counter ts
    ∙ sym (ap (λ (r : Submitted). r.book) (submit_order-settle_order b order [] 0 ts))

is_for-routed_symbol :
    (j : Bytes) (order : ParsedOrder) → bytes_eq (routed_symbol order) j ≡ is_for j order.symbol
unfolding routed_symbol
is_for-routed_symbol j order =
    elim order.symbol
      as (λ s.
        bytes_eq (elim s [ [] ↦ b'P' ∷ b'E' ∷ b'T' ∷ b'R' ∷ b'4' ∷ [] | c ∷ cs ↦ c ∷ cs ]) j
        ≡ is_for j s) [ [] ↦ refl | c ∷ cs ↦ refl ]

-- One order, at the book of `j`.
process_order-find_book :
    (e : MatchingEngine) (order : ParsedOrder) (trades : List TradeExecution) (ts : ℕ) (j : Bytes)
    → find_book j (process_order e order trades ts).engine.books
      ≡ book_alone j (find_book j e.books) ((order, ts) ∷ [])
unfolding process_order book_alone
process_order-find_book e order trades ts j =
    let key = routed_symbol order in
    let found = book_or_new key (find_book key e.books) in
    let put =
      find_book-put_book j key (submit_order found order trades e.trade_counter ts).book e.books in
    elim (Bool-cases (bytes_eq key j)) [
      | inl is_its ↦
          let same = bytes_eq→eq key j is_its in
          rw (sym (is_for-routed_symbol j order) ∙ is_its) (
            put
            ∙ rw is_its (
                ap some (
                  submit_order-book found order trades e.trade_counter ts
                  ∙ ap
                      (λ k. (submit_order (book_or_new k (find_book k e.books)) order [] 0 ts).book)
                      same)))
      | inr other ↦ rw (sym (is_for-routed_symbol j order) ∙ other) (put ∙ rw other refl)
    ]

book_alone-cons :
    (j : Bytes) (b : Option MatchingBook) (order : ParsedOrder) (ts : ℕ)
    (rest : List (ParsedOrder × ℕ))
    → book_alone j b ((order, ts) ∷ rest) ≡ book_alone j (book_alone j b ((order, ts) ∷ [])) rest
unfolding book_alone
book_alone-cons j b order ts rest = elim (Bool-cases (is_for j order.symbol)) [
  | inl e ↦ rw e refl
  | inr e ↦ rw e refl
]

-- Whatever orders the engine takes, for whatever symbols, the book of a symbol becomes what a book of
-- its own would become that is given only the orders that name the symbol, the orders without a symbol
-- being given to PETR4; a symbol that no order was for keeps the book that it had, or has none.
pub process_orders-book_alone :
    (e : MatchingEngine) (trades : List TradeExecution) (orders : List (ParsedOrder × ℕ))
    (j : Bytes)
    → find_book j (process_orders e trades orders).books ≡ book_alone j (find_book j e.books) orders
unfolding process_orders book_alone
process_orders-book_alone e trades [] j = refl
process_orders-book_alone e trades ((order, ts) ∷ rest) j =
    let r = process_order e order trades ts in
    process_orders-book_alone r.engine r.trades rest j
    ∙ ap (λ b. book_alone j b rest) (process_order-find_book e order trades ts j)
    ∙ sym (book_alone-cons j (find_book j e.books) order ts rest)
