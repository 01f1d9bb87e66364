-- ===== src/Matching/ZeroAlloc/Queries.antt =====
-- What the queries answer.
use hft_fix_engine.Base.{
  ℕ, suc, ◌-◌, ◌%◌, ◌^◌, ◌<◌, ◌≡◌, sym, ◌∙◌, length, map, sum, get_or, lt→ltb, arith,
}
use hft_fix_engine.Common.SpscQueue.Window.{length-window}
use hft_fix_engine.Matching.Book.{Side}
use hft_fix_engine.Matching.ZeroAlloc.Level.{PriceLevel, blank_order, max_orders_per_level}
use hft_fix_engine.Matching.ZeroAlloc.Side.{BookSide, level_at}
use hft_fix_engine.Matching.ZeroAlloc.Ring.{queue, quantity}
use hft_fix_engine.Matching.ZeroAlloc.Pool.{IsSide, IsLevel, Before}
use hft_fix_engine.Matching.ZeroAlloc.Place.{parts_good}
use hft_fix_engine.Matching.ZeroAlloc.Find.{rising}
use hft_fix_engine.Matching.ZeroAlloc.Depth.{level_price, level_qty, level_order_count}

-- The orders that wait at a position.
abbrev pub waiting : BookSide → ℕ → PriceLevel
waiting s i = level_at s (get_or s.levels i 0)

module _ (own : Side) (s : BookSide) (side : IsSide own s) where
  pub waiting-IsLevel : (i : ℕ) → i < s.level_count → IsLevel (waiting s i)
  waiting-IsLevel i lt = (parts_good own s side i (s.level_count - suc i) (omega arith)).1.0

  -- At a position in use, on a side as it should be, the queries give the number of the orders that
  -- wait there, at least one, and their quantities added up modulo 2 ^ 32; prices get strictly worse
  -- from one position to the next.
  pub level_queries :
      (i : ℕ)
      → i < s.level_count
      → (level_qty s i ≡ sum (map quantity (queue (waiting s i))) % 2 ^ 32)
        × (level_order_count s i ≡ length (queue (waiting s i)))
        × (0 < level_order_count s i)
        × ((j : ℕ) → i < j → j < s.level_count → Before own (level_price s i) (level_price s j))
  unfolding level_qty level_order_count level_price
  level_queries i lt =
      let good = waiting-IsLevel i lt in
      let few = good.ring.count_in in
      let some_orders = good.some_orders in
      let in_use = lt→ltb i s.level_count lt in
      let whole : (waiting s i).order_count % 2 ^ 32 ≡ (waiting s i).order_count = omega arith in
      let counted =
        length-window blank_order max_orders_per_level (waiting s i).orders
          (waiting s i).head_order_idx (waiting s i).order_count in
      (
        rw in_use good.ring.totalled,
        rw in_use (whole ∙ sym counted),
        rw in_use (omega (arith, whole)),
        λ j less inside.
            rw (in_use, lt→ltb j s.level_count inside)
              (rising own s side (waiting s i).price i j less inside),
      )
