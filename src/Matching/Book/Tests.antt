-- ===== src/Matching/Book/Tests.antt =====
-- A book of one bid and two asks, and a buy order that takes the best ask and rests what is left.
use hft_fix_engine.Base.{[], ◌∷◌, ◌≡◌, pos, codes, arith, refl, false}
use hft_fix_engine.Protocol.ParsedOrder.{ParsedOrder, default_order}
use hft_fix_engine.Matching.Book.{
  MatchingBook, LimitOrderEntry, buy, sell, Match, execute, insert_sorted, submit_order,
}
use hft_fix_engine.Matching.Book.Spec.{settle_order}
use hft_fix_engine.Matching.Book.Refine.{submit_order-settle_order}
use hft_fix_engine.Matching.Book.Valid.{IsValid, submit_order-IsValid}
use hft_fix_engine.Matching.Book.Priority.{Placed, insert_sorted-Placed}
use hft_fix_engine.Matching.Book.Trades.{Account, submit_order-Account}

abbrev low_ask : LimitOrderEntry
low_ask = record {
  cl_ord_id = codes "A1";
  side = pos 2;
  price = pos 100;
  remaining_qty = 5;
  seq_num = 1;
}

abbrev high_ask : LimitOrderEntry
high_ask = record {
  cl_ord_id = codes "A2";
  side = pos 2;
  price = pos 101;
  remaining_qty = 7;
  seq_num = 2;
}

abbrev low_bid : LimitOrderEntry
low_bid = record {
  cl_ord_id = codes "B1";
  side = pos 1;
  price = pos 99;
  remaining_qty = 3;
  seq_num = 3;
}

abbrev book : MatchingBook
book = record {
  symbol = codes "ABC";
  bids = low_bid ∷ [];
  asks = low_ask ∷ high_ask ∷ [];
  total_trades = 0;
  total_volume = 0;
}

abbrev order : ParsedOrder
order = record default_order {
  cl_ord_id = codes "C1";
  symbol = codes "ABC";
  side = pos 1;
  quantity = pos 8;
  price = pos 100;
}

book-IsValid : IsValid book
book-IsValid = ground arith

submit_order-settle_order_example : submit_order book order [] 0 7 ≡ settle_order book order [] 0 7
submit_order-settle_order_example = submit_order-settle_order book order [] 0 7

submit_order-IsValid_example : IsValid (submit_order book order [] 0 7).book
submit_order-IsValid_example = submit_order-IsValid book order [] 0 7 book-IsValid

submit_order-Account_example : Account buy book order [] 0 7 (submit_order book order [] 0 7)
submit_order-Account_example =
    submit_order-Account book order [] 0 7 (omega arith) (omega arith) (omega arith) buy refl
      book-IsValid.asks_sorted

insert_sorted-Placed_example :
    Placed sell high_ask (low_ask ∷ []) (insert_sorted sell high_ask (low_ask ∷ []))
insert_sorted-Placed_example = insert_sorted-Placed sell high_ask (low_ask ∷ []) (ground arith)

abbrev opening : Match
opening = record {
  passive = book.asks;
  remaining_qty = 8;
  trades = [];
  trade_counter = 0;
  total_trades = 0;
  total_volume = 0;
  matched = false;
}

-- One trade, at the best ask.
traded : (submit_order book order [] 0 7).trade_counter ≡ 1
unfolding submit_order execute
traded = refl
