-- ===== src/Matching/ZeroAlloc/Cross.antt =====
-- The outer loop: an order crosses the levels of the other side as it crosses the reference book.
use hft_fix_engine.Base.{
  ℕ, zero, suc, ◌+◌, ◌-◌, ◌<◌, ◌≤◌, ◌≡◌, refl, sym, subst, ap, ◌∙◌, inl, inr, Bool-cases, true,
  List, [], ◌∷◌, ◌++◌, min, map, All, ◌==◌, Bytes, arith, ℤ, loop, loop-none, loop-some, ==→eq,
  take,
}
use hft_fix_engine.Protocol.ParsedOrder.{ParsedOrder}
use hft_fix_engine.Matching.Book.{LimitOrderEntry, Side, beyond}
use hft_fix_engine.Matching.Book.Spec.{Filled, fill, tally}
use hft_fix_engine.Matching.ZeroAlloc.Level.{BookOrder, front_order}
use hft_fix_engine.Matching.ZeroAlloc.Side.{level_at}
use hft_fix_engine.Matching.ZeroAlloc.Ring.{behind, queue-front_order}
use hft_fix_engine.Matching.ZeroAlloc.Reports.{entry_of, write_fills}
use hft_fix_engine.Matching.ZeroAlloc.Fills.{settled, settled-nil, fill_zero, fill-nil}
use hft_fix_engine.Matching.ZeroAlloc.Pool.{
  IsSide, IsLevel, contents, flatten, levels_at, best, others, rows-best,
}
use hft_fix_engine.Matching.ZeroAlloc.Book.{Match, match_level, match_round, match_loop}
use hft_fix_engine.Matching.ZeroAlloc.Round.{seen_match, crossed, IsMatch, Round, match_level-Round}

fill_stops :
    (side : Side) (limit : ℤ) (qty : ℕ) (x : LimitOrderEntry) (xs : List LimitOrderEntry)
    → beyond side limit x.price ≡ true
    → fill side limit qty (x ∷ xs) ≡ record { fills = []; book = x ∷ xs; left = qty }
unfolding fill
fill_stops side limit qty x xs h = elim (Bool-cases (qty == 0)) [
  | inl e ↦ rw e refl
  | inr e ↦ rw (e, h) refl
]

module _ (side : Side) (symbol : Bytes) (order : ParsedOrder) (max_trades timestamp_ns : ℕ) where
  -- The loop from `m` ends in `w`.
  pub record Crossed (own : Side) (m w : Match) : Type 0 where
    pub passive : IsSide own w.passive
    pub result :
        seen_match side symbol order max_trades timestamp_ns w
        ≡ crossed side symbol order max_trades timestamp_ns m
    pub no_more : w.remaining_qty ≤ m.remaining_qty

  -- The loop is left at once.
  stays :
      (own : Side) (m : Match)
      → IsMatch side symbol order max_trades timestamp_ns own m
      → fill side order.price m.remaining_qty (contents m.passive)
        ≡ record { fills = []; book = contents m.passive; left = m.remaining_qty }
      → Crossed own m m
  unfolding write_fills tally
  stays own m is_match unmatched = record {
    passive = is_match.passive;
    result = sym (
        ap
          (settled side symbol order max_trades timestamp_ns m.output m.total_trades m.total_volume)
          unmatched
        ∙ settled-nil side symbol order max_trades timestamp_ns m.output m.total_trades
            m.total_volume m.remaining_qty (contents m.passive));
    no_more = omega arith;
  }

  goes_on :
      (own : Side) (m t w : Match)
      → Round side symbol order max_trades timestamp_ns own m t
      → Crossed own t w
      → Crossed own m w
  goes_on own m t w round rest = record {
    passive = rest.passive;
    result = rest.result ∙ round.result;
    no_more = omega (arith, rest.no_more, round.less);
  }

  no_levels : (m : Match) → m.passive.level_count ≡ 0 → [] ≡ contents m.passive
  no_levels m e = ap (λ k. flatten (levels_at m.passive (take k m.passive.levels))) (sym e)

  -- The best level holds an order, and it is at the price of the level.
  out_of_reach :
      (own : Side) (m : Match) (is_match : IsMatch side symbol order max_trades timestamp_ns own m)
      (n : ℕ)
      → m.passive.level_count ≡ suc n
      → beyond side order.price (level_at m.passive (best m.passive)).price ≡ true
      → fill side order.price m.remaining_qty (contents m.passive)
        ≡ record { fills = []; book = contents m.passive; left = m.remaining_qty }
  out_of_reach own m is_match n count limit =
      let level = level_at m.passive (best m.passive) in
      let row = rows-best own m.passive is_match.passive n count in
      let top : IsLevel level = (subst (All IsLevel) row is_match.passive.good).0 in
      let some_orders = top.some_orders in
      let k = level.order_count - 1 in
      let orders : level.order_count ≡ suc k = omega arith in
      let front = queue-front_order level top.ring k orders in
      let x = entry_of (front_order level) in
      let xs =
        map entry_of (behind level k) ++ flatten (levels_at m.passive (others m.passive n)) in
      let shape : contents m.passive ≡ x ∷ xs =
        ap flatten row
        ∙ ap (λ os. map entry_of os ++ flatten (levels_at m.passive (others m.passive n))) front in
      let prices = subst (All (λ (o : BookOrder). o.price ≡ level.price)) front top.ring.priced in
      ap (fill side order.price m.remaining_qty) shape
      ∙ fill_stops side order.price m.remaining_qty x xs
          (ap (beyond side order.price) prices.0 ∙ limit)
      ∙ ap (λ b. let f : Filled = record { fills = []; book = b; left = m.remaining_qty } in f)
          (sym shape)

  match_from :
      (own : Side) (fuel : ℕ) (m : Match)
      → IsMatch side symbol order max_trades timestamp_ns own m
      → m.passive.level_count + min m.remaining_qty 1 < fuel
      → Crossed own m (loop fuel (match_round side symbol order max_trades timestamp_ns) m)
  unfolding match_round
  match_from own zero m is_match h = absurd (omega arith)
  match_from own (suc fuel) m is_match h =
      let round = match_round side symbol order max_trades timestamp_ns in
      let t = match_level side symbol order max_trades timestamp_ns m (best m.passive) in
      elim (Bool-cases (m.passive.level_count == 0)) [
        | inl e ↦
            let nothing = no_levels m (==→eq m.passive.level_count 0 e) in
            rw (loop-none (suc fuel) round m (rw e refl)) (
              stays own m is_match (
                ap (fill side order.price m.remaining_qty) (sym nothing)
                ∙ fill-nil side order.price m.remaining_qty
                ∙ ap
                    (λ b.
                      let f : Filled = record { fills = []; book = b; left = m.remaining_qty } in f)
                    nothing))
        | inr some_levels ↦
            let n = m.passive.level_count - 1 in
            let count : m.passive.level_count ≡ suc n = ground arith in
            elim (Bool-cases (m.remaining_qty == 0)) [
              | inl e ↦ rw (loop-none (suc fuel) round m (rw (some_levels, e) refl)) (
                  stays own m is_match (
                    fill_zero side order.price m.remaining_qty (contents m.passive)
                      (==→eq m.remaining_qty 0 e)))
              | inr some_left ↦
                  elim (Bool-cases
                    (beyond side order.price (level_at m.passive (best m.passive)).price)) [
                      | inl limit ↦
                          rw
                            (loop-none (suc fuel) round m (rw (some_levels, some_left, limit) refl))
                            (stays own m is_match (out_of_reach own m is_match n count limit))
                      | inr within ↦
                          let step =
                            match_level-Round side symbol order max_trades timestamp_ns own m
                              is_match n count some_left within in
                          rw (loop-some fuel round m t (rw (some_levels, some_left, within) refl)) (
                            goes_on own m t (loop fuel round t) step
                              (match_from own fuel t step.is_match (omega (arith, step.fewer, h))))
                    ]
            ]
      ]

  -- On a side as it should be, for a quantity below 2 ^ 32, the matching loops on the arrays do what
  -- the reference match does on the row of resting orders: the orders that stay, the quantity left,
  -- the totals, and the caller's output: without an array it is untouched; in an array each fill has
  -- its report, in order from the first free place on, until `max_trades` are there, with consecutive
  -- numbers, both identifiers, price, quantity, symbol and time, and the count and the trade counter
  -- grow by the reports written. The side stays as it should be.
  pub match_loop-fill :
      (own : Side) (m : Match)
      → IsMatch side symbol order max_trades timestamp_ns own m
      → Crossed own m (match_loop side symbol order max_trades timestamp_ns m)
  unfolding match_loop
  match_loop-fill own m is_match =
      match_from own (m.passive.level_count + 2) m is_match (omega arith)
