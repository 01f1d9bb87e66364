-- ===== src/Matching/ZeroAlloc/Reports.antt =====
-- The reports that a match is to leave in the caller's array, and that `write_report` leaves them.
use hft_fix_engine.Base.{
  ℕ, zero, suc, ◌+◌, ◌-◌, ◌≡◌, refl, sym, ap, ap₂, ◌∙◌, inl, inr, Bool-cases, List, [], ◌∷◌, ◌++◌,
  Option, none, some, map, get_or, set, take, ltb, Bytes, arith, add_u64, ltb→lt, ltb→ge, ℤ,
}
use hft_fix_engine.Protocol.ParsedOrder.{ParsedOrder}
use hft_fix_engine.Matching.Book.{LimitOrderEntry, Side, buy, sell}
use hft_fix_engine.Matching.Book.Spec.{Fill}
use hft_fix_engine.Matching.ZeroAlloc.Level.{BookOrder, PriceLevel}
use hft_fix_engine.Matching.ZeroAlloc.Texts.{
  text, c_text, put_text, copy_sv_to_char-put_text, copy_char_to_char-put_text,
  copy_char_to_char-c_text,
}
use hft_fix_engine.Matching.ZeroAlloc.Ring.{queue}
use hft_fix_engine.Matching.ZeroAlloc.Book.{
  ZeroAllocTrade, Output, blank_trade, report, report_into, write_report,
}

-- An order in the arrays, as an entry of the reference book.
abbrev pub entry_of : BookOrder → LimitOrderEntry
entry_of o = record {
  cl_ord_id = text o.cl_ord_id;
  side = o.side;
  price = o.price;
  remaining_qty = o.remaining_qty;
  seq_num = o.order_id;
}

abbrev pub entries : PriceLevel → List LimitOrderEntry
entries lvl = map entry_of (queue lvl)

-- What a fill is to leave in the array, over the record `old` that stood there.
unfoldable pub filled_report :
    Side → Bytes → ParsedOrder → ℕ → ZeroAllocTrade → ℕ → Fill → ZeroAllocTrade
filled_report buy symbol order timestamp_ns old id f = record {
  trade_id = id;
  symbol = put_text old.symbol (c_text 15 symbol);
  buy_cl_ord_id = put_text old.buy_cl_ord_id (take 31 order.cl_ord_id);
  sell_cl_ord_id = put_text old.sell_cl_ord_id f.entry.cl_ord_id;
  match_price = f.entry.price;
  match_qty = f.qty;
  timestamp_ns = timestamp_ns;
}
filled_report sell symbol order timestamp_ns old id f = record {
  trade_id = id;
  symbol = put_text old.symbol (c_text 15 symbol);
  buy_cl_ord_id = put_text old.buy_cl_ord_id f.entry.cl_ord_id;
  sell_cl_ord_id = put_text old.sell_cl_ord_id (take 31 order.cl_ord_id);
  match_price = f.entry.price;
  match_qty = f.qty;
  timestamp_ns = timestamp_ns;
}

module _ (side : Side) (symbol : Bytes) (order : ParsedOrder) (max_trades timestamp_ns : ℕ) where
  -- The reports of a row of fills in an array with `room` places from `at` on: one report a fill while
  -- there is room, and each with the next number behind `counter`. What has no room is left out.
  unfoldable pub write_from : ℕ → List ZeroAllocTrade → ℕ → ℕ → List Fill → Output
  unfolding filled_report
  write_from room trades at counter [] = record {
    out_trades = some trades;
    trades_generated = at;
    trade_counter = counter;
  }
  write_from zero trades at counter (f ∷ fs) = record {
    out_trades = some trades;
    trades_generated = at;
    trade_counter = counter;
  }
  write_from (suc room) trades at counter (f ∷ fs) =
      let id = add_u64 counter 1 in
      let old = get_or trades at blank_trade in
      write_from room (set trades at (filled_report side symbol order timestamp_ns old id f))
        (at + 1) id fs

  -- The same in the array that the caller gave, if it gave one.
  abbrev write_into : Option (List ZeroAllocTrade) → Output → List Fill → Output
  write_into none o fs = o
  write_into (some trades) o fs =
      write_from (max_trades - o.trades_generated) trades o.trades_generated o.trade_counter fs

  -- The output of a match that makes these fills.
  unfoldable pub write_fills : Output → List Fill → Output
  unfolding write_from
  write_fills o fs = write_into o.out_trades o fs

  write_from_full :
      (room : ℕ) (trades : List ZeroAllocTrade) (at counter : ℕ) (fs : List Fill)
      → room ≡ 0
      → write_from room trades at counter fs
        ≡ record { out_trades = some trades; trades_generated = at; trade_counter = counter }
  unfolding write_from
  write_from_full zero trades at counter [] e = refl
  write_from_full zero trades at counter (f ∷ fs) e = refl
  write_from_full (suc room) trades at counter fs e = absurd (omega arith)

  write_from-nil :
      (room : ℕ) (trades : List ZeroAllocTrade) (at counter : ℕ)
      → write_from room trades at counter []
        ≡ record { out_trades = some trades; trades_generated = at; trade_counter = counter }
  unfolding write_from
  write_from-nil zero trades at counter = refl
  write_from-nil (suc room) trades at counter = refl

  write_into-nil :
      (target : Option (List ZeroAllocTrade)) (o : Output)
      → target ≡ o.out_trades
      → write_into target o [] ≡ o
  write_into-nil none o e = refl
  write_into-nil (some trades) o e =
      write_from-nil (max_trades - o.trades_generated) trades o.trades_generated o.trade_counter
      ∙ ap (λ t. let r : Output = record o { out_trades = t } in r) e

  -- No fill, no report.
  pub write_fills-nil : (o : Output) → write_fills o [] ≡ o
  unfolding write_fills
  write_fills-nil o = write_into-nil o.out_trades o refl

  -- A report with these texts.
  abbrev worded : ℕ → ℤ → ℕ → Bytes → Bytes → Bytes → ZeroAllocTrade
  worded id price qty name bought sold = record {
    trade_id = id;
    symbol = name;
    buy_cl_ord_id = bought;
    sell_cl_ord_id = sold;
    match_price = price;
    match_qty = qty;
    timestamp_ns = timestamp_ns;
  }

  worded_eq :
      (id : ℕ) (price : ℤ) (qty : ℕ) (n n' b b' c c' : Bytes)
      → n ≡ n'
      → b ≡ b'
      → c ≡ c'
      → worded id price qty n b c ≡ worded id price qty n' b' c'
  worded_eq id price qty n n' b b' c c' en eb ec =
      ap₂ (λ x y. worded id price qty x y c) en eb ∙ ap (worded id price qty n' b') ec

  report-filled_report :
      (old : ZeroAllocTrade) (id : ℕ) (x : BookOrder) (qty : ℕ)
      → report side symbol order max_trades timestamp_ns old id x qty
        ≡ filled_report side symbol order timestamp_ns old id
            (record { entry = entry_of x; qty = qty })
  unfolding filled_report
  report-filled_report old id x qty =
      let name = copy_char_to_char-c_text old.symbol symbol 15 in
      elim side
        as (λ k.
          report k symbol order max_trades timestamp_ns old id x qty
          ≡ filled_report k symbol order timestamp_ns old id
              (record { entry = entry_of x; qty = qty })) [
                | buy ↦
                    worded_eq id x.price qty _ _ _ _ _ _ name
                      (copy_sv_to_char-put_text old.buy_cl_ord_id order.cl_ord_id 31)
                      (copy_char_to_char-put_text old.sell_cl_ord_id x.cl_ord_id 31)
                | sell ↦
                    worded_eq id x.price qty _ _ _ _ _ _ name
                      (copy_char_to_char-put_text old.buy_cl_ord_id x.cl_ord_id 31)
                      (copy_sv_to_char-put_text old.sell_cl_ord_id order.cl_ord_id 31)
              ]

  write_from-cons :
      (room : ℕ) (trades : List ZeroAllocTrade) (at counter : ℕ) (x : BookOrder) (qty : ℕ)
      (fs : List Fill)
      → write_from (suc room) trades at counter (record { entry = entry_of x; qty = qty } ∷ fs)
        ≡ write_from room
            (set trades at (
              report side symbol order max_trades timestamp_ns
                (get_or trades at blank_trade)
                (add_u64 counter 1)
                x
                qty))
            (at + 1)
            (add_u64 counter 1)
            fs
  unfolding write_from
  write_from-cons room trades at counter x qty fs =
      ap (λ r. write_from room (set trades at r) (at + 1) (add_u64 counter 1) fs)
        (sym (report-filled_report (get_or trades at blank_trade) (add_u64 counter 1) x qty))

  report_into-write_into :
      (target : Option (List ZeroAllocTrade)) (o : Output) (x : BookOrder) (qty : ℕ)
      (fs : List Fill)
      → target ≡ o.out_trades
      → let q = report_into side symbol order max_trades timestamp_ns target o x qty in
        write_into q.out_trades q fs
        ≡ write_into target o (record { entry = entry_of x; qty = qty } ∷ fs)
  report_into-write_into none o x qty fs e = ap (λ t. write_into t o fs) (sym e)
  report_into-write_into (some trades) o x qty fs e =
      let f : Fill = record { entry = entry_of x; qty = qty } in
      elim (Bool-cases (ltb o.trades_generated max_trades)) [
        | inl room ↦
            let less = ltb→lt o.trades_generated max_trades room in
            let one : max_trades - o.trades_generated
                ≡ suc (max_trades - (o.trades_generated + 1)) =
              omega (arith, less) in
            rw (room, one)
              (sym (
                write_from-cons (max_trades - (o.trades_generated + 1)) trades o.trades_generated
                  o.trade_counter x qty fs))
        | inr full ↦
            let none_left : max_trades - o.trades_generated ≡ 0 =
              omega (arith, ltb→ge o.trades_generated max_trades full) in
            rw full (
              ap (λ t. write_into t o fs) (sym e)
              ∙ write_from_full (max_trades - o.trades_generated) trades o.trades_generated
                  o.trade_counter fs none_left
              ∙ sym (
                  write_from_full (max_trades - o.trades_generated) trades o.trades_generated
                    o.trade_counter (f ∷ fs) none_left))
      ]

  -- A report that the code writes is the first of the reports expected.
  pub write_report-write_fills :
      (o : Output) (x : BookOrder) (qty : ℕ) (fs : List Fill)
      → write_fills (write_report side symbol order max_trades timestamp_ns o x qty) fs
        ≡ write_fills o (record { entry = entry_of x; qty = qty } ∷ fs)
  unfolding write_fills write_report
  write_report-write_fills o x qty fs = report_into-write_into o.out_trades o x qty fs refl

  write_from-append :
      (room : ℕ) (trades : List ZeroAllocTrade) (at counter : ℕ) (fs gs : List Fill)
      → room ≡ max_trades - at
      → write_from room trades at counter (fs ++ gs)
        ≡ write_fills (write_from room trades at counter fs) gs
  unfolding write_from write_fills
  write_from-append zero trades at counter [] gs e = ap (λ k. write_from k trades at counter gs) e
  write_from-append (suc room) trades at counter [] gs e =
      ap (λ k. write_from k trades at counter gs) e
  write_from-append zero trades at counter (f ∷ fs) gs e =
      sym (write_from_full (max_trades - at) trades at counter gs (sym e))
  write_from-append (suc room) trades at counter (f ∷ fs) gs e =
      write_from-append room _ (at + 1) (add_u64 counter 1) fs gs (omega arith)

  write_into-append :
      (target : Option (List ZeroAllocTrade)) (o : Output) (fs gs : List Fill)
      → target ≡ o.out_trades
      → write_into target o (fs ++ gs) ≡ write_fills (write_into target o fs) gs
  unfolding write_fills
  write_into-append none o fs gs e = ap (λ t. write_into t o gs) e
  write_into-append (some trades) o fs gs e =
      write_from-append (max_trades - o.trades_generated) trades o.trades_generated o.trade_counter
        fs gs refl

  pub write_fills-append :
      (o : Output) (fs gs : List Fill)
      → write_fills o (fs ++ gs) ≡ write_fills (write_fills o fs) gs
  unfolding write_fills
  write_fills-append o fs gs = write_into-append o.out_trades o fs gs refl
