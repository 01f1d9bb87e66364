-- ===== src/Matching/Book/Trades.antt =====
-- What one call of `submit_order` trades: quantities, prices, reports and counters.
use hft_fix_engine.Base.{
  ℕ, ◌+◌, ◌<◌, ◌≡◌, ◌^◌, refl, ap, sym, ◌∙◌, take, List, [], ◌++◌, map, pos, All, All-map, sum,
  length, arith, inl, inr, Bool-cases, ltb→ge, true, false, ltb, eqb_ℤ, to_u32, add_u64,
}
use hft_fix_engine.Protocol.ParsedOrder.{ParsedOrder}
use hft_fix_engine.Matching.Book.{
  MatchingBook, LimitOrderEntry, TradeExecution, Side, buy, sell, Submitted, place_rest,
  submit_order,
}
use hft_fix_engine.Matching.Book.Spec.{
  Filled, fill, tally-sum, sum-ones, ones, fill_qty, settled, settle_order,
}
use hft_fix_engine.Matching.Book.Refine.{submit_order-settle_order}
use hft_fix_engine.Matching.Book.Fill.{
  IsSorted, Within, opposite, entry_qty, fill_qty-sum, fill_book_sum, fill-Within,
}
use hft_fix_engine.Matching.Book.Priority.{sum-insert_sorted}
use hft_fix_engine.Matching.Book.Reports.{
  trade_qty, side_code, own_side, passive_side, Numbered, Worsening, Signed, taken_from, offered,
  fill-take, reports, length-reports, reports_qty, reports-Numbered, reports-Signed,
  reports-taken_from, reports-All, reports-Worsening,
}

-- An account of a call that reported the trades `new`.
pub record Account (side : Side) (b : MatchingBook) (order : ParsedOrder)
    (trades : List TradeExecution) (counter ts : ℕ) (r : Submitted) : Type 0 where
  pub new : List TradeExecution
  pub appended : r.trades ≡ trades ++ new
  pub own :
      sum (map entry_qty (own_side side r.book)) + sum (map trade_qty new)
      ≡ sum (map entry_qty (own_side side b)) + to_u32 order.quantity
  pub passive :
      sum (map entry_qty (passive_side side r.book)) + sum (map trade_qty new)
      ≡ sum (map entry_qty (passive_side side b))
  pub within : All (λ t. Within side order.price t.match_price) new
  pub worsening : Worsening side new
  pub signed : All (Signed side order b.symbol ts) new
  pub named : map (taken_from side) new ≡ map offered (take (length new) (passive_side side b))
  pub numbered : Numbered counter new
  pub counted : r.trade_counter ≡ add_u64 counter (length new)
  pub total_trades : r.book.total_trades ≡ add_u64 b.total_trades (length new)
  pub total_volume : r.book.total_volume ≡ add_u64 b.total_volume (sum (map trade_qty new))

sum-place_rest :
    (side : Side) (order : ParsedOrder) (left : ℕ) (own : List LimitOrderEntry)
    → sum (map entry_qty (place_rest side order left own)) ≡ left + sum (map entry_qty own)
unfolding place_rest
sum-place_rest side order left own = elim (Bool-cases (ltb 0 left)) [
  | inl e ↦ rw (e, place_rest) (sum-insert_sorted side _ own)
  | inr e ↦ rw (e, place_rest) (omega (arith, ltb→ge 0 left e))
]

-- The book and the counters before the call.
module _ (b : MatchingBook) (order : ParsedOrder) (trades : List TradeExecution) (counter ts : ℕ)
    (trades_in_range : b.total_trades < 2 ^ 64) (volume_in_range : b.total_volume < 2 ^ 64)
    (counter_in_range : counter < 2 ^ 64) where
  module _ (side : Side) (bids asks : List LimitOrderEntry) where
    abbrev filled : Filled
    filled = fill side order.price (to_u32 order.quantity) (passive_side side b)

    abbrev outcome : Submitted
    outcome = settled b order trades counter ts side filled bids asks

    settled-Account :
        IsSorted (opposite side) (passive_side side b)
        → own_side side outcome.book ≡ place_rest side order filled.left (own_side side b)
        → passive_side side outcome.book ≡ filled.book
        → Account side b order trades counter ts outcome
    settled-Account s own_is passive_is =
        let fs = filled.fills in
        let qty = reports_qty side order b.symbol ts counter fs in
        let count = length-reports side order b.symbol ts counter fs in
        let price = to_u32 order.quantity in
        let book = passive_side side b in
        record {
          new = reports side order b.symbol ts counter fs;
          appended = refl;
          own = omega (
            arith,
            qty,
            ap (λ l. sum (map entry_qty l)) own_is,
            sum-place_rest side order filled.left (own_side side b),
            fill_qty-sum side order.price price book,
          );
          passive = omega (
            arith,
            qty,
            ap (λ l. sum (map entry_qty l)) passive_is,
            fill_book_sum side order.price price book,
          );
          within = reports-All side order b.symbol ts (Within side order.price) counter fs (
              All-map _ (λ f. Within side order.price f.entry.price) fs (λ f h. h.0)
                (fill-Within side order.price price book));
          worsening = reports-Worsening side order b.symbol ts counter price book s;
          signed = reports-Signed side order b.symbol ts counter fs;
          named =
              reports-taken_from side order b.symbol ts counter fs
              ∙ fill-take side order.price price book
              ∙ ap (λ n. map offered (take n book)) (sym count);
          numbered = reports-Numbered side order b.symbol ts counter fs;
          counted =
              tally-sum counter (ones fs) counter_in_range
              ∙ ap (add_u64 counter) (sum-ones fs ∙ sym count);
          total_trades =
              tally-sum b.total_trades (ones fs) trades_in_range
              ∙ ap (add_u64 b.total_trades) (sum-ones fs ∙ sym count);
          total_volume =
              tally-sum b.total_volume (map fill_qty fs) volume_in_range
              ∙ ap (add_u64 b.total_volume) (sym qty);
        }

    counts :
        IsSorted (opposite side) (passive_side side b)
        → (n : ℕ) × (outcome.trade_counter ≡ add_u64 counter n)
          × (outcome.book.total_trades ≡ add_u64 b.total_trades n)
          × (outcome.book.total_volume < 2 ^ 64)
          × (outcome.book.symbol ≡ b.symbol)
    counts s = (
      length filled.fills,
      tally-sum counter (ones filled.fills) counter_in_range
          ∙ ap (add_u64 counter) (sum-ones filled.fills),
      tally-sum b.total_trades (ones filled.fills) trades_in_range
          ∙ ap (add_u64 b.total_trades) (sum-ones filled.fills),
      omega (arith, tally-sum b.total_volume (map fill_qty filled.fills) volume_in_range),
      refl,
    )

  -- A buy or sell order on a book with a sorted passive side and counters below 2 ^ 64: what it
  -- reports is appended to `trades`; the two sides account for the whole quantity; every trade is
  -- within the limit, at prices that get no better; reports carry the aggressor's identifier,
  -- consecutive numbers, symbol and time, and name, one after the other, the identifiers and prices of
  -- the first entries of the passive side as it was, one entry a report; and the counters grow by the
  -- number and the volume of the trades, modulo 2 ^ 64.
  pub submit_order-Account :
      (side : Side)
      → order.side ≡ side_code side
      → IsSorted (opposite side) (passive_side side b)
      → Account side b order trades counter ts (submit_order b order trades counter ts)
  unfolding settle_order
  submit_order-Account buy e s =
      let is_buy : eqb_ℤ order.side (pos 1) ≡ true = ground arith in
      rw (submit_order-settle_order b order trades counter ts)
        (rw (is_buy, settle_order) (settled-Account buy _ _ s refl refl))
  submit_order-Account sell e s =
      let not_buy : eqb_ℤ order.side (pos 1) ≡ false = ground arith in
      let is_sell : eqb_ℤ order.side (pos 2) ≡ true = ground arith in
      rw (submit_order-settle_order b order trades counter ts)
        (rw (not_buy, is_sell, settle_order) (settled-Account sell _ _ s refl refl))

  -- On every side, the numbers given out are as many as the trades counted.
  pub submit_order_counts :
      IsSorted sell b.asks
      → IsSorted buy b.bids
      → let r = submit_order b order trades counter ts in
        (n : ℕ) × (r.trade_counter ≡ add_u64 counter n)
        × (r.book.total_trades ≡ add_u64 b.total_trades n)
        × (r.book.total_volume < 2 ^ 64)
        × (r.book.symbol ≡ b.symbol)
  unfolding settle_order
  submit_order_counts asks bids =
      rw (submit_order-settle_order b order trades counter ts)
        (elim (Bool-cases (eqb_ℤ order.side (pos 1))) [
          | inl e ↦ rw (e, settle_order) (counts buy [] [] asks)
          | inr e ↦ elim (Bool-cases (eqb_ℤ order.side (pos 2))) [
            | inl e' ↦ rw (e, e', settle_order) (counts sell [] [] bids)
            | inr e' ↦ rw (e, e', settle_order) (0, omega arith, omega arith, omega arith, refl)
          ]
        ])
