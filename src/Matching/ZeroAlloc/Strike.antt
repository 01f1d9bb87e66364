-- ===== src/Matching/ZeroAlloc/Strike.antt =====
-- A round of the inner loop, at the oldest order of a level.
use hft_fix_engine.Base.{
  ℕ, suc, ◌+◌, ◌-◌, ◌^◌, ◌<◌, ◌≤◌, ◌≡◌, refl, sym, subst, ap, ap₂, ◌∙◌, inl, inr, Bool-cases, true,
  false, [], ◌∷◌, min, map, All, ltb, ◌==◌, Bytes, arith, add_u64, ltb→lt, ltb→ge,
}
use hft_fix_engine.Protocol.ParsedOrder.{ParsedOrder}
use hft_fix_engine.Matching.Book.{Side, beyond}
use hft_fix_engine.Matching.Book.Spec.{Filled, fill, fill_qty, ones, tally}
use hft_fix_engine.Matching.ZeroAlloc.Level.{BookOrder, PriceLevel, front_order, take_from_front}
use hft_fix_engine.Matching.ZeroAlloc.Ring.{
  behind, hit, IsRing, queue-front_order, queue-take_from_front, consumed, queue-consumed,
  order_count-consumed, price-consumed, consumed-IsRing, take_from_front-IsRing,
}
use hft_fix_engine.Matching.ZeroAlloc.Reports.{entry_of, entries, write_report-write_fills}
use hft_fix_engine.Matching.ZeroAlloc.Fills.{
  Seen, settled, fill_zero, fill-partly, fill-wholly, joined, IsWithin,
}
use hft_fix_engine.Matching.ZeroAlloc.Book.{Output, Sweep, match_front, write_report}

module _ (side : Side) (symbol : Bytes) (order : ParsedOrder) (max_trades timestamp_ns : ℕ) where
  abbrev single : BookOrder → ℕ → Filled
  single x qty = record {
    fills = record { entry = entry_of x; qty = qty } ∷ [];
    book = [];
    left = 0;
  }

  abbrev pub seen : Sweep → Seen
  seen m = record {
    book = entries m.level;
    remaining_qty = m.remaining_qty;
    output = m.output;
    total_trades = m.total_trades;
    total_volume = m.total_volume;
  }

  -- What the reference match makes of the level.
  abbrev pub matched : Sweep → Seen
  matched m =
      settled side symbol order max_trades timestamp_ns m.output m.total_trades m.total_volume
        (fill side order.price m.remaining_qty (entries m.level))

  -- A level that the order trades with.
  pub record IsOpen (m : Sweep) : Type 0 where
    pub ring : IsRing m.level
    pub within : beyond side order.price m.level.price ≡ false
    pub word : m.remaining_qty < 2 ^ 32

  -- The state after a match of `qty`, with the level that it leaves.
  abbrev struck : Sweep → ℕ → PriceLevel → Sweep
  struck m qty lvl = record {
    level = lvl;
    remaining_qty = m.remaining_qty - qty;
    output =
        write_report side symbol order max_trades timestamp_ns m.output (front_order m.level) qty;
    total_trades = add_u64 m.total_trades 1;
    total_volume = add_u64 m.total_volume qty;
  }

  match_front-partly :
      (m : Sweep)
      → m.remaining_qty < (front_order m.level).remaining_qty
      → match_front side symbol order max_trades timestamp_ns m
        ≡ struck m m.remaining_qty (take_from_front m.level m.remaining_qty)
  unfolding match_front
  match_front-partly m lt =
      let x = front_order m.level in
      let least : min m.remaining_qty x.remaining_qty ≡ m.remaining_qty = omega arith in
      let left : (x.remaining_qty - m.remaining_qty == 0) ≡ false = ground arith in
      rw (least, left) refl

  match_front-wholly :
      (m : Sweep)
      → (front_order m.level).remaining_qty ≤ m.remaining_qty
      → match_front side symbol order max_trades timestamp_ns m
        ≡ struck m
            (front_order m.level).remaining_qty
            (consumed m.level (front_order m.level).remaining_qty)
  unfolding match_front
  match_front-wholly m le =
      let x = front_order m.level in
      let least : min m.remaining_qty x.remaining_qty ≡ x.remaining_qty = omega arith in
      let gone : (x.remaining_qty - x.remaining_qty == 0) ≡ true = ground arith in
      rw (least, gone) refl

  -- One fill in front of those that follow.
  settled-joined :
      (o : Output) (trades volume : ℕ) (x : BookOrder) (qty : ℕ) (f : Filled)
      → settled side symbol order max_trades timestamp_ns
          (write_report side symbol order max_trades timestamp_ns o x qty)
          (add_u64 trades 1)
          (add_u64 volume qty)
          f
        ≡ settled side symbol order max_trades timestamp_ns o trades volume
            (joined (single x qty) f)
  unfolding tally
  settled-joined o trades volume x qty f =
      ap
        (λ out.
          let r : Seen = record {
            book = f.book;
            remaining_qty = f.left;
            output = out;
            total_trades = tally (add_u64 trades 1) (ones f.fills);
            total_volume = tally (add_u64 volume qty) (map fill_qty f.fills);
          } in
          r)
        (write_report-write_fills side symbol order max_trades timestamp_ns o x qty f.fills)

  module _ (m : Sweep) (open_level : IsOpen m) (n : ℕ) (count : m.level.order_count ≡ suc n)
      (some_left : (m.remaining_qty == 0) ≡ false) where
    entries-front :
        entries m.level ≡ entry_of (front_order m.level) ∷ map entry_of (behind m.level n)
    entries-front = ap (map entry_of) (queue-front_order m.level open_level.ring n count)

    front-IsWithin : IsWithin side order.price (entry_of (front_order m.level))
    front-IsWithin =
        let prices =
          subst (All (λ (o : BookOrder). o.price ≡ m.level.price))
            (queue-front_order m.level open_level.ring n count) open_level.ring.priced in
        ap (beyond side order.price) prices.0 ∙ open_level.within

    matched-partly :
        m.remaining_qty < (front_order m.level).remaining_qty
        → matched (struck m m.remaining_qty (take_from_front m.level m.remaining_qty)) ≡ matched m
    matched-partly lt =
        let x = front_order m.level in
        let q = m.remaining_qty in
        let taken = take_from_front m.level q in
        let rest = entry_of (hit x q) ∷ map entry_of (behind m.level n) in
        let none_left : q - q ≡ 0 = omega arith in
        let ended : Filled = record { fills = []; book = rest; left = 0 } in
        ap
          (settled side symbol order max_trades timestamp_ns
            (write_report side symbol order max_trades timestamp_ns m.output x q)
            (add_u64 m.total_trades 1) (add_u64 m.total_volume q))
          (fill_zero side order.price (q - q) (entries taken) none_left
            ∙ ap₂ (λ b l. let f : Filled = record { fills = []; book = b; left = l } in f)
                (ap (map entry_of) (queue-take_from_front m.level open_level.ring n count q))
                none_left)
        ∙ settled-joined m.output m.total_trades m.total_volume x q ended
        ∙ ap
            (settled side symbol order max_trades timestamp_ns m.output m.total_trades
              m.total_volume)
            (sym (
              ap (fill side order.price q) entries-front
              ∙ fill-partly side order.price q (entry_of x) (map entry_of (behind m.level n))
                  some_left front-IsWithin lt))

    matched-wholly :
        (front_order m.level).remaining_qty ≤ m.remaining_qty
        → matched (
            struck m
              (front_order m.level).remaining_qty
              (consumed m.level (front_order m.level).remaining_qty))
          ≡ matched m
    matched-wholly le =
        let x = front_order m.level in
        let q = x.remaining_qty in
        let rest = map entry_of (behind m.level n) in
        ap
          (λ es.
            settled side symbol order max_trades timestamp_ns
              (write_report side symbol order max_trades timestamp_ns m.output x q)
              (add_u64 m.total_trades 1) (add_u64 m.total_volume q)
              (fill side order.price (m.remaining_qty - q) es))
          (ap (map entry_of) (queue-consumed m.level open_level.ring n count q))
        ∙ settled-joined m.output m.total_trades m.total_volume x q
            (fill side order.price (m.remaining_qty - q) rest)
        ∙ ap
            (settled side symbol order max_trades timestamp_ns m.output m.total_trades
              m.total_volume)
            (sym (
              ap (fill side order.price m.remaining_qty) entries-front
              ∙ fill-wholly side order.price m.remaining_qty (entry_of x) rest some_left
                  front-IsWithin le))

  -- What a round at an order keeps and changes.
  pub record Step (m t : Sweep) : Type 0 where
    pub open_level : IsOpen t
    pub price : t.level.price ≡ m.level.price
    pub result : matched t ≡ matched m
    pub fewer :
        t.level.order_count + min t.remaining_qty 1 < m.level.order_count + min m.remaining_qty 1
    pub less : t.remaining_qty ≤ m.remaining_qty

  pub match_front-Step :
      (m : Sweep)
      → IsOpen m
      → (n : ℕ) → m.level.order_count ≡ suc n
      → (m.remaining_qty == 0) ≡ false
      → Step m (match_front side symbol order max_trades timestamp_ns m)
  unfolding take_from_front
  match_front-Step m o n count some_left =
      let x = front_order m.level in
      elim (Bool-cases (ltb m.remaining_qty x.remaining_qty)) [
        | inl e ↦
            let lt = ltb→lt m.remaining_qty x.remaining_qty e in
            let word = o.word in
            rw (match_front-partly m lt) (record {
              open_level = record {
                ring =
                    take_from_front-IsRing m.level o.ring n count m.remaining_qty o.word
                      (omega arith);
                within = o.within;
                word = omega arith;
              };
              price = refl;
              result = matched-partly m o n count some_left lt;
              fewer = ground arith;
              less = omega arith;
            })
        | inr e ↦
            let le = ltb→ge m.remaining_qty x.remaining_qty e in
            let word = o.word in
            let price = price-consumed m.level o.ring n count x.remaining_qty in
            let fewer = order_count-consumed m.level o.ring n count x.remaining_qty in
            rw (match_front-wholly m le) (record {
              open_level = record {
                ring = consumed-IsRing m.level o.ring n count (omega arith);
                within = ap (beyond side order.price) price ∙ o.within;
                word = omega arith;
              };
              price = price;
              result = matched-wholly m o n count some_left le;
              fewer = omega (arith, fewer, count);
              less = omega arith;
            })
      ]
