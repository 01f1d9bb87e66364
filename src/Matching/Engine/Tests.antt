-- ===== src/Matching/Engine/Tests.antt =====
-- A first order through an empty engine: the book of its symbol is made for it.
use hft_fix_engine.Base.{[], ◌∷◌, ◌≡◌, pos, codes, arith, refl}
use hft_fix_engine.Protocol.ParsedOrder.{ParsedOrder, default_order}
use hft_fix_engine.Matching.Engine.{empty_engine, find_book, process_order, total_trades}
use hft_fix_engine.Matching.Engine.Valid.{EngineIsValid, process_order-EngineIsValid}
use hft_fix_engine.Matching.Engine.Routing.{process_orders, book_alone, process_orders-book_alone}

abbrev order : ParsedOrder
order = record default_order {
  symbol = codes "ABC";
  side = pos 1;
  quantity = pos 8;
  price = pos 100;
}

empty_engine-EngineIsValid : EngineIsValid empty_engine
unfolding empty_engine total_trades
empty_engine-EngineIsValid = record {
  books_hold = tt;
  counter_in_range = omega arith;
  numbers_used = refl;
}

process_order-EngineIsValid_example : EngineIsValid (process_order empty_engine order [] 7).engine
process_order-EngineIsValid_example =
    process_order-EngineIsValid empty_engine order [] 7 empty_engine-EngineIsValid

abbrev without_symbol : ParsedOrder
without_symbol = record default_order { side = pos 2; quantity = pos 3; price = pos 90 }

process_orders-book_alone_example :
    find_book
      (codes "PETR4")
      (process_orders empty_engine [] ((order, 7) ∷ (without_symbol, 8) ∷ [])).books
    ≡ book_alone
        (codes "PETR4")
        (find_book (codes "PETR4") empty_engine.books)
        ((order, 7) ∷ (without_symbol, 8) ∷ [])
process_orders-book_alone_example =
    process_orders-book_alone empty_engine [] ((order, 7) ∷ (without_symbol, 8) ∷ [])
      (codes "PETR4")
