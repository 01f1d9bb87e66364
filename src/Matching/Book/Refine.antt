-- ===== src/Matching/Book/Refine.antt =====
-- The matching loop of the source is the match of the specification, at the fuel that it is given.
use hft_fix_engine.Base.{
  ℕ, Option, zero, suc, ◌+◌, ◌-◌, ◌<◌, ◌≡◌, refl, ◌∙◌, min, inl, inr, Bool-cases, true, false, List,
  [], ◌∷◌, ◌++◌, append-nil, append_assoc, none, some, length, ◌==◌, ltb, loop, loop-none,
  loop-some, Bytes, add_u64, arith,
}
use hft_fix_engine.Protocol.ParsedOrder.{ParsedOrder}
use hft_fix_engine.Matching.Book.{
  LimitOrderEntry, Side, buy, sell, Match, MatchingBook, TradeExecution, start, submit_order,
  submit_buy, submit_sell, beyond, execution, execute, match_at, match_round, match_loop,
}
use hft_fix_engine.Matching.Book.Spec.{fill, after, executions, tally, settle_order}

module _ (side : Side) (order : ParsedOrder) (symbol : Bytes) (timestamp_ns : ℕ) where
  abbrev round : Match → Option Match
  round = match_round side order symbol timestamp_ns

  abbrev result : Match → List LimitOrderEntry → Match
  result m book =
      after side order symbol timestamp_ns m (fill side order.price m.remaining_qty book)

  -- The loop is left at once: by its condition, by the empty book, or by the `break`.
  loop_stops :
      (n : ℕ) (m : Match)
      → round m ≡ none
      → fill side order.price m.remaining_qty m.passive
        ≡ record { fills = []; book = m.passive; left = m.remaining_qty }
      → loop n round m ≡ result m m.passive
  unfolding tally executions
  loop_stops n m e f = rw (loop-none n round m e, f) (ground (arith, append-nil m.trades))

  match_at-zero :
      (book : List LimitOrderEntry) (m : Match)
      → m.remaining_qty ≡ 0
      → match_at side order symbol timestamp_ns book m ≡ none
  unfolding match_at
  match_at-zero [] m e = refl
  match_at-zero (x ∷ xs) m e = ground arith

  -- The state after a round at `best`, by which of the two quantities is the smaller.
  partly : Match → LimitOrderEntry → List LimitOrderEntry → Match
  partly m x xs = record {
    passive = record x { remaining_qty = x.remaining_qty - m.remaining_qty } ∷ xs;
    remaining_qty = 0;
    trades =
        m.trades
        ++ (execution side order symbol timestamp_ns (add_u64 m.trade_counter 1) x m.remaining_qty
            ∷ []);
    trade_counter = add_u64 m.trade_counter 1;
    total_trades = add_u64 m.total_trades 1;
    total_volume = add_u64 m.total_volume m.remaining_qty;
    matched = true;
  }

  wholly : Match → LimitOrderEntry → List LimitOrderEntry → Match
  wholly m x xs = record {
    passive = xs;
    remaining_qty = m.remaining_qty - x.remaining_qty;
    trades =
        m.trades
        ++ (execution side order symbol timestamp_ns (add_u64 m.trade_counter 1) x x.remaining_qty
            ∷ []);
    trade_counter = add_u64 m.trade_counter 1;
    total_trades = add_u64 m.total_trades 1;
    total_volume = add_u64 m.total_volume x.remaining_qty;
    matched = true;
  }

  module _ (m : Match) (x : LimitOrderEntry) (xs : List LimitOrderEntry)
      (open_qty : (m.remaining_qty == 0) ≡ false)
      (within : beyond side order.price x.price ≡ false) where
    round-partly :
        ltb m.remaining_qty x.remaining_qty ≡ true
        → round (record m { passive = x ∷ xs }) ≡ some (partly m x xs)
    unfolding match_round match_at execute partly
    round-partly lt = ground arith

    round-wholly :
        ltb m.remaining_qty x.remaining_qty ≡ false
        → round (record m { passive = x ∷ xs }) ≡ some (wholly m x xs)
    unfolding match_round match_at execute wholly
    round-wholly ge = ground arith

    loop-partly :
        (n : ℕ)
        → ltb m.remaining_qty x.remaining_qty ≡ true
        → loop (suc n) round (record m { passive = x ∷ xs }) ≡ result m (x ∷ xs)
    unfolding match_round partly fill tally executions
    loop-partly n lt =
        loop-some n round _ (partly m x xs) (round-partly lt)
        ∙ loop-none n round (partly m x xs)
            (match_at-zero (partly m x xs).passive (partly m x xs) refl)
        ∙ ground arith

    loop-wholly :
        (n : ℕ)
        → ltb m.remaining_qty x.remaining_qty ≡ false
        → loop n round (wholly m x xs) ≡ result (wholly m x xs) xs
        → loop (suc n) round (record m { passive = x ∷ xs }) ≡ result m (x ∷ xs)
    unfolding wholly fill tally executions
    loop-wholly n ge ih =
        loop-some n round _ (wholly m x xs) (round-wholly ge)
        ∙ ih
        ∙ ground (
          arith,
          append_assoc m.trades
              (execution side order symbol timestamp_ns (add_u64 m.trade_counter 1) x
                  x.remaining_qty
                ∷ [])
              (executions side order symbol timestamp_ns (add_u64 m.trade_counter 1)
                (fill side order.price (m.remaining_qty - x.remaining_qty) xs).fills),
        )

  pub loop-fill :
      (book : List LimitOrderEntry) (n : ℕ) (m : Match)
      → length book + min m.remaining_qty 1 < n
      → loop n round (record m { passive = book }) ≡ result m book
  unfolding fill match_round match_at wholly
  loop-fill [] n m h = loop_stops n (record m { passive = [] }) refl refl
  loop-fill (x ∷ xs) zero m h = absurd (omega arith)
  loop-fill (x ∷ xs) (suc n) m h = elim (Bool-cases (m.remaining_qty == 0)) [
    | inl none_left ↦
        loop_stops (suc n) (record m { passive = x ∷ xs }) (ground arith) (ground arith)
    | inr open_qty ↦ elim (Bool-cases (beyond side order.price x.price)) [
      | inl limit ↦ loop_stops (suc n) (record m { passive = x ∷ xs }) (ground arith) (ground arith)
      | inr within ↦ elim (Bool-cases (ltb m.remaining_qty x.remaining_qty)) [
        | inl lt ↦ loop-partly m x xs open_qty within n lt
        | inr ge ↦
            loop-wholly m x xs open_qty within n ge (loop-fill xs n (wholly m x xs) (omega arith))
      ]
    ]
  ]

  -- The fuel of the loop is enough: it ends as the specified match does.
  pub match_loop-fill :
      (m : Match)
      → match_loop side order symbol timestamp_ns m
        ≡ after side order symbol timestamp_ns m (fill side order.price m.remaining_qty m.passive)
  unfolding match_loop
  match_loop-fill m = loop-fill m.passive (length m.passive + 2) m (omega arith)

  -- What a match leaves, no round changes.
  fill_exit :
      (qty : ℕ) (book : List LimitOrderEntry) (m : Match)
      → m.remaining_qty ≡ (fill side order.price qty book).left
      → match_at side order symbol timestamp_ns (fill side order.price qty book).book m ≡ none
  unfolding fill match_at
  fill_exit qty [] m e = refl
  fill_exit qty (x ∷ xs) m e = ground (arith, fill_exit (qty - x.remaining_qty) xs m)

  -- The loop is left by its own condition or by the `break`, not by the end of its fuel.
  pub match_loop_exit :
      (m : Match)
      → match_round side order symbol timestamp_ns (match_loop side order symbol timestamp_ns m)
        ≡ none
  unfolding match_round
  match_loop_exit m = rw (match_loop-fill m) (
      fill_exit m.remaining_qty m.passive
        (after side order symbol timestamp_ns m (fill side order.price m.remaining_qty m.passive))
        refl)

-- `submit_order` computes the specified match on every side, with the reports, the counters and
-- the resting entry that go with it.
pub submit_order-settle_order :
    (b : MatchingBook) (order : ParsedOrder) (trades : List TradeExecution)
    (counter timestamp_ns : ℕ)
    → submit_order b order trades counter timestamp_ns
      ≡ settle_order b order trades counter timestamp_ns
unfolding submit_order submit_buy submit_sell settle_order
submit_order-settle_order b order trades counter timestamp_ns = ground (
  arith,
  match_loop-fill buy order b.symbol timestamp_ns (start b b.asks order trades counter),
  match_loop-fill sell order b.symbol timestamp_ns (start b b.bids order trades counter),
)
