-- ===== src/Matching/ZeroAlloc/Round.antt =====
-- A round of the outer loop, at the best level of the other side.
use hft_fix_engine.Base.{
  ℕ, suc, ◌+◌, ◌^◌, ◌<◌, ◌≤◌, ◌≡◌, refl, sym, subst, ap, ap₂, ◌∙◌, inl, inr, Bool-cases, false,
  List, [], ◌∷◌, ◌++◌, min, map, All, ◌==◌, Bytes, arith, ℤ, add_u64, ==→eq, ==→ne, map-append,
}
use hft_fix_engine.Protocol.ParsedOrder.{ParsedOrder}
use hft_fix_engine.Common.SpscQueue.Window.{window}
use hft_fix_engine.Matching.Book.{LimitOrderEntry, Side, beyond}
use hft_fix_engine.Matching.Book.Spec.{Filled, fill, fill_qty, ones, tally}
use hft_fix_engine.Matching.ZeroAlloc.Level.{BookOrder, blank_order, max_orders_per_level}
use hft_fix_engine.Matching.ZeroAlloc.Side.{BookSide, level_at, put_level}
use hft_fix_engine.Matching.ZeroAlloc.Ring.{queue}
use hft_fix_engine.Matching.ZeroAlloc.Reports.{entry_of, entries, write_fills, write_fills-append}
use hft_fix_engine.Matching.ZeroAlloc.Fills.{Seen, settled, fill_zero, fill-append, IsWithin}
use hft_fix_engine.Matching.ZeroAlloc.Strike.{seen}
use hft_fix_engine.Matching.ZeroAlloc.Sweep.{Swept, sweep_level-fill}
use hft_fix_engine.Matching.ZeroAlloc.Pool.{
  IsSide, IsLevel, contents, flatten, levels_at, best, others, closed, rows-best, rows-put_level,
  rows-closed, put_level-IsSide, closed-IsSide, drop_first-release_level,
}
use hft_fix_engine.Matching.ZeroAlloc.Book.{Output, Sweep, Match, sweep_level, match_level}

tally-append : (n : ℕ) (ks ls : List ℕ) → tally n (ks ++ ls) ≡ tally (tally n ks) ls
unfolding tally
tally-append n [] ls = refl
tally-append n (k ∷ ks) ls = tally-append (add_u64 n k) ks ls

-- Orders that all have a price are all within the limit, if the price is.
entries-IsWithin :
    (side : Side) (limit price : ℤ) (os : List BookOrder)
    → beyond side limit price ≡ false
    → All (λ (o : BookOrder). o.price ≡ price) os
    → All (IsWithin side limit) (map entry_of os)
entries-IsWithin side limit price [] within h = tt
entries-IsWithin side limit price (o ∷ os) within h =
    (ap (beyond side limit) h.0 ∙ within, entries-IsWithin side limit price os within h.1)

module _ (side : Side) (symbol : Bytes) (order : ParsedOrder) (max_trades timestamp_ns : ℕ) where
  abbrev pub seen_match : Match → Seen
  seen_match m = record {
    book = contents m.passive;
    remaining_qty = m.remaining_qty;
    output = m.output;
    total_trades = m.total_trades;
    total_volume = m.total_volume;
  }

  -- What the reference match makes of the other side.
  abbrev pub crossed : Match → Seen
  crossed m =
      settled side symbol order max_trades timestamp_ns m.output m.total_trades m.total_volume
        (fill side order.price m.remaining_qty (contents m.passive))

  -- A match that goes on with the orders behind those that it has seen.
  abbrev add_on : Filled → Seen → Seen
  add_on f z = record {
    book = z.book ++ f.book;
    remaining_qty = f.left;
    output = write_fills side symbol order max_trades timestamp_ns z.output f.fills;
    total_trades = tally z.total_trades (ones f.fills);
    total_volume = tally z.total_volume (map fill_qty f.fills);
  }

  abbrev then_on : List LimitOrderEntry → Seen → Seen
  then_on rest z = add_on (fill side order.price z.remaining_qty rest) z

  settled-append :
      (o : Output) (trades volume qty : ℕ) (xs rest : List LimitOrderEntry)
      → All (IsWithin side order.price) xs
      → settled side symbol order max_trades timestamp_ns o trades volume
          (fill side order.price qty (xs ++ rest))
        ≡ then_on rest (
            settled side symbol order max_trades timestamp_ns o trades volume
              (fill side order.price qty xs))
  settled-append o trades volume qty xs rest within =
      let f = fill side order.price qty xs in
      let g = fill side order.price f.left rest in
      ap (settled side symbol order max_trades timestamp_ns o trades volume)
        (fill-append side order.price qty xs rest within)
      ∙ ap₂
          (λ (out : Output) (t : ℕ).
            let z : Seen = record {
              book = f.book ++ g.book;
              remaining_qty = g.left;
              output = out;
              total_trades = t;
              total_volume = tally volume (map fill_qty (f.fills ++ g.fills));
            } in
            z)
          (write_fills-append side symbol order max_trades timestamp_ns o f.fills g.fills)
          (ap (tally trades) (map-append (λ f. 1) f.fills g.fills)
            ∙ tally-append trades (ones f.fills) (ones g.fills))
      ∙ ap
          (λ (v : ℕ).
            let z : Seen =
              record (then_on rest
                (settled side symbol order max_trades timestamp_ns o trades volume f)) {
                  total_volume = v;
                } in
            z)
          (ap (tally volume) (map-append fill_qty f.fills g.fills)
            ∙ tally-append volume (map fill_qty f.fills) (map fill_qty g.fills))

  -- A match with a side of the book as it should be.
  pub record IsMatch (own : Side) (m : Match) : Type 0 where
    pub passive : IsSide own m.passive
    pub word : m.remaining_qty < 2 ^ 32

  -- What a round keeps and changes.
  pub record Round (own : Side) (m t : Match) : Type 0 where
    pub is_match : IsMatch own t
    pub result : crossed t ≡ crossed m
    pub fewer :
        t.passive.level_count + min t.remaining_qty 1
        < m.passive.level_count + min m.remaining_qty 1
    pub less : t.remaining_qty ≤ m.remaining_qty

  -- The sweep of the best level.
  abbrev sweep_best : Match → Sweep
  sweep_best m = record {
    level = level_at m.passive (best m.passive);
    remaining_qty = m.remaining_qty;
    output = m.output;
    total_trades = m.total_trades;
    total_volume = m.total_volume;
  }

  module _ (own : Side) (m : Match) (is_match : IsMatch own m) (n : ℕ)
      (count : m.passive.level_count ≡ suc n) (some_left : (m.remaining_qty == 0) ≡ false)
      (within : beyond side order.price (level_at m.passive (best m.passive)).price ≡ false) where
    top : IsLevel (level_at m.passive (best m.passive))
    top =
        (subst (All IsLevel) (rows-best own m.passive is_match.passive n count)
          is_match.passive.good).0

    swept : Sweep
    swept = sweep_level side symbol order max_trades timestamp_ns (sweep_best m)

    swept-Swept : Swept side symbol order max_trades timestamp_ns (sweep_best m) swept
    unfolding swept
    swept-Swept =
        sweep_level-fill side symbol order max_trades timestamp_ns (sweep_best m)
          (record { ring = top.ring; within = within; word = is_match.word })

    abbrev rest : List LimitOrderEntry
    rest = flatten (levels_at m.passive (others m.passive n))

    crossed-swept : crossed m ≡ then_on rest (seen side symbol order max_trades timestamp_ns swept)
    crossed-swept =
        ap
          (λ ls.
            settled side symbol order max_trades timestamp_ns m.output m.total_trades m.total_volume
              (fill side order.price m.remaining_qty (flatten ls)))
          (rows-best own m.passive is_match.passive n count)
        ∙ settled-append m.output m.total_trades m.total_volume m.remaining_qty
            (entries (level_at m.passive (best m.passive))) rest
            (entries-IsWithin side order.price (level_at m.passive (best m.passive)).price
              (queue (level_at m.passive (best m.passive))) within top.ring.priced)
        ∙ ap (then_on rest) (sym swept-Swept.result)

    -- The state after the round, with the side that it leaves.
    abbrev left_with : BookSide → Match
    left_with s = record {
      passive = s;
      remaining_qty = swept.remaining_qty;
      output = swept.output;
      total_trades = swept.total_trades;
      total_volume = swept.total_volume;
    }

    closing-Round :
        swept.level.order_count ≡ 0
        → Round own m (left_with (closed own m.passive is_match.passive n count swept.level))
    closing-Round no_orders =
        let now = swept-Swept in
        let word = is_match.word in
        let no_more = now.no_more in
        let open_qty = ==→ne m.remaining_qty 0 some_left in
        let empty : [] ≡ entries swept.level =
          ap
            (λ k. map entry_of (
              window blank_order max_orders_per_level swept.level.orders swept.level.head_order_idx
                k))
            (sym no_orders) in
        let z = seen side symbol order max_trades timestamp_ns swept in
        record {
          is_match = record {
            passive =
                closed-IsSide own m.passive is_match.passive n count swept.level
                  now.ring.full_array;
            word = omega arith;
          };
          result =
              ap
                (λ ls.
                  settled side symbol order max_trades timestamp_ns swept.output swept.total_trades
                    swept.total_volume (fill side order.price swept.remaining_qty (flatten ls)))
                (rows-closed own m.passive is_match.passive n count swept.level)
              ∙ ap (λ b. let y : Seen = record z { book = b } in then_on rest y) empty
              ∙ sym crossed-swept;
          fewer = omega arith;
          less = no_more;
        }

    filled_up : (swept.level.order_count == 0) ≡ false → swept.remaining_qty ≡ 0
    filled_up some_orders = elim swept-Swept.done [
      | inl e ↦ absurd (==→ne swept.level.order_count 0 some_orders e)
      | inr e ↦ e
    ]

    keeping-Round :
        (swept.level.order_count == 0) ≡ false
        → Round own m (left_with (put_level m.passive (best m.passive) swept.level))
    unfolding write_fills tally
    keeping-Round some_orders =
        let now = swept-Swept in
        let full = filled_up some_orders in
        let open_qty = ==→ne m.remaining_qty 0 some_left in
        let z = seen side symbol order max_trades timestamp_ns swept in
        record {
          is_match = record {
            passive =
                put_level-IsSide own m.passive is_match.passive n count swept.level
                  (record { ring = now.ring; some_orders = ground arith }) now.price;
            word = omega arith;
          };
          result =
              ap
                (settled side symbol order max_trades timestamp_ns swept.output swept.total_trades
                  swept.total_volume)
                (ap (λ ls. fill side order.price swept.remaining_qty (flatten ls))
                    (rows-put_level own m.passive is_match.passive n count swept.level)
                  ∙ fill_zero side order.price swept.remaining_qty (entries swept.level ++ rest)
                      full)
              ∙ ap (λ f. add_on f z)
                  (sym (fill_zero side order.price swept.remaining_qty rest full))
              ∙ sym crossed-swept;
          fewer = omega arith;
          less = omega arith;
        }

    -- One round at a level that the order trades with.
    pub match_level-Round :
        Round own m (match_level side symbol order max_trades timestamp_ns m (best m.passive))
    unfolding swept
    match_level-Round = elim (Bool-cases (swept.level.order_count == 0)) [
      | inl e ↦
          rw (e, drop_first-release_level own m.passive is_match.passive n count swept.level)
            (closing-Round (==→eq swept.level.order_count 0 e))
      | inr e ↦ rw e (keeping-Round e)
    ]
