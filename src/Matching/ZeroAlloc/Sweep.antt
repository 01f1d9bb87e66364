-- ===== src/Matching/ZeroAlloc/Sweep.antt =====
-- The inner loop: sweeping one level is the reference match on its orders.
use hft_fix_engine.Base.{
  ℕ, zero, suc, ◌+◌, ◌-◌, ◌<◌, ◌≤◌, ◌≡◌, refl, sym, ap, ◌∙◌, ◌⊎◌, inl, inr, Bool-cases, [], min,
  map, ◌==◌, Bytes, arith, loop, loop-none, loop-some, ==→eq,
}
use hft_fix_engine.Protocol.ParsedOrder.{ParsedOrder}
use hft_fix_engine.Common.SpscQueue.Window.{window}
use hft_fix_engine.Matching.Book.{Side}
use hft_fix_engine.Matching.Book.Spec.{Filled, fill, tally}
use hft_fix_engine.Matching.ZeroAlloc.Level.{blank_order, max_orders_per_level}
use hft_fix_engine.Matching.ZeroAlloc.Ring.{IsRing}
use hft_fix_engine.Matching.ZeroAlloc.Reports.{entry_of, entries, write_fills}
use hft_fix_engine.Matching.ZeroAlloc.Fills.{settled, settled-nil, fill_zero, fill-nil}
use hft_fix_engine.Matching.ZeroAlloc.Book.{Sweep, match_front, sweep_round, sweep_level}
use hft_fix_engine.Matching.ZeroAlloc.Strike.{seen, matched, IsOpen, Step, match_front-Step}

module _ (side : Side) (symbol : Bytes) (order : ParsedOrder) (max_trades timestamp_ns : ℕ) where
  -- The loop from `m` ends in `w`.
  pub record Swept (m w : Sweep) : Type 0 where
    pub ring : IsRing w.level
    pub price : w.level.price ≡ m.level.price
    pub result :
        seen side symbol order max_trades timestamp_ns w
        ≡ matched side symbol order max_trades timestamp_ns m
    pub no_more : w.remaining_qty ≤ m.remaining_qty
    pub done : (w.level.order_count ≡ 0) ⊎ (w.remaining_qty ≡ 0)

  -- The loop is left at once.
  stays :
      (m : Sweep)
      → IsOpen side symbol order max_trades timestamp_ns m
      → (m.level.order_count ≡ 0) ⊎ (m.remaining_qty ≡ 0)
      → Swept m m
  unfolding tally write_fills
  stays m o (inl no_orders) =
      let empty : entries m.level ≡ [] =
        ap
          (λ n.
            map entry_of
              (window blank_order max_orders_per_level m.level.orders m.level.head_order_idx n))
          no_orders in
      let unmatched =
        ap (fill side order.price m.remaining_qty) empty
        ∙ fill-nil side order.price m.remaining_qty
        ∙ ap (λ b. let f : Filled = record { fills = []; book = b; left = m.remaining_qty } in f)
            (sym empty) in
      record {
        ring = o.ring;
        price = refl;
        result = sym (
            ap
              (settled side symbol order max_trades timestamp_ns m.output m.total_trades
                m.total_volume)
              unmatched
            ∙ settled-nil side symbol order max_trades timestamp_ns m.output m.total_trades
                m.total_volume m.remaining_qty (entries m.level));
        no_more = omega arith;
        done = inl no_orders;
      }
  stays m o (inr none_left) = record {
    ring = o.ring;
    price = refl;
    result = sym (
        ap
          (settled side symbol order max_trades timestamp_ns m.output m.total_trades m.total_volume)
          (fill_zero side order.price m.remaining_qty (entries m.level) none_left)
        ∙ settled-nil side symbol order max_trades timestamp_ns m.output m.total_trades
            m.total_volume m.remaining_qty (entries m.level));
    no_more = omega arith;
    done = inr none_left;
  }

  goes_on :
      (m t w : Sweep) → Step side symbol order max_trades timestamp_ns m t → Swept t w → Swept m w
  goes_on m t w step rest = record {
    ring = rest.ring;
    price = rest.price ∙ step.price;
    result = rest.result ∙ step.result;
    no_more = omega (arith, rest.no_more, step.less);
    done = rest.done;
  }

  sweep_from :
      (fuel : ℕ) (m : Sweep)
      → IsOpen side symbol order max_trades timestamp_ns m
      → m.level.order_count + min m.remaining_qty 1 < fuel
      → Swept m (loop fuel (sweep_round side symbol order max_trades timestamp_ns) m)
  unfolding sweep_round
  sweep_from zero m o h = absurd (omega arith)
  sweep_from (suc fuel) m o h =
      let round = sweep_round side symbol order max_trades timestamp_ns in
      let t = match_front side symbol order max_trades timestamp_ns m in
      elim (Bool-cases (m.level.order_count == 0)) [
        | inl e ↦
            rw (loop-none (suc fuel) round m (rw e refl))
              (stays m o (inl (==→eq m.level.order_count 0 e)))
        | inr some_orders ↦ elim (Bool-cases (m.remaining_qty == 0)) [
          | inl e ↦
              rw (loop-none (suc fuel) round m (rw (some_orders, e) refl))
                (stays m o (inr (==→eq m.remaining_qty 0 e)))
          | inr some_left ↦
              let count : m.level.order_count ≡ suc (m.level.order_count - 1) = ground arith in
              let step =
                match_front-Step side symbol order max_trades timestamp_ns m o
                  (m.level.order_count - 1) count some_left in
              rw (loop-some fuel round m t (rw (some_orders, some_left) refl)) (
                goes_on m t (loop fuel round t) step
                  (sweep_from fuel t step.open_level (omega (arith, step.fewer, h))))
        ]
      ]

  -- Sweeping a level that the order trades with is the reference match on its orders, and goes on
  -- until the level is empty or the order is filled.
  pub sweep_level-fill :
      (m : Sweep)
      → IsOpen side symbol order max_trades timestamp_ns m
      → Swept m (sweep_level side symbol order max_trades timestamp_ns m)
  unfolding sweep_level
  sweep_level-fill m o = sweep_from (m.level.order_count + 2) m o (omega arith)
