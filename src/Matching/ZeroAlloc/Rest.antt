-- ===== src/Matching/ZeroAlloc/Rest.antt =====
-- The rest of an order goes to its place in the book of its own side.
use hft_fix_engine.Base.{
  ℕ, zero, suc, ◌+◌, ◌-◌, ◌<◌, ◌≤◌, ◌≡◌, refl, sym, subst, ap, ◌∙◌, inl, inr, Bool-cases,
  Option-cases, List, [], ◌∷◌, ◌++◌, none, some, map, map-append, All, length, get_or, take, drop,
  ltb, ltb→lt, ltb→ge, ge→ltb, arith, ℤ,
}
use hft_fix_engine.Protocol.ParsedOrder.{ParsedOrder}
use hft_fix_engine.Common.SpscQueue.Window.{window}
use hft_fix_engine.Matching.Book.{Side, LimitOrderEntry, insert_sorted}
use hft_fix_engine.Matching.ZeroAlloc.Level.{
  blank_order, PriceLevel, max_book_levels, max_orders_per_level, max_cl_ord_id_len,
  push_back_order, reset,
}
use hft_fix_engine.Matching.ZeroAlloc.Side.{
  BookSide, level_at, price_at, put_level, push_order, new_level, search_levels, add_to_book,
}
use hft_fix_engine.Matching.ZeroAlloc.Ring.{queue, IsRing}
use hft_fix_engine.Matching.ZeroAlloc.Reports.{entry_of, entries}
use hft_fix_engine.Matching.ZeroAlloc.Append.{
  IsText, newest, queue-push_back_order, order_count-push_back_order, price-push_back_order,
  push_back_order-IsRing, text-copy_sv_to_char,
}
use hft_fix_engine.Matching.ZeroAlloc.Pool.{
  IsSide, IsLevel, IsStrict, price_of, contents, flatten, levels_at,
}
use hft_fix_engine.Matching.ZeroAlloc.Find.{IsHit, search_levels-Bounded}
use hft_fix_engine.Matching.ZeroAlloc.Insert.{
  IsAhead, IsAfter, insert_sorted_between, insert_sorted_at, ordered_split,
}
use hft_fix_engine.Matching.ZeroAlloc.Place.{
  before, beyond_it, rows-at, rows-put_at, parts_good, put_at-IsSide,
}
use hft_fix_engine.Matching.ZeroAlloc.Grow.{
  spare, fresh_level, first_of, spare-IsArray, front_rows, back_rows, halves_good, rows-split,
  rows-grown, grown-IsSide, new_level-grown,
}

-- The entry that an order leaves, its identifier cut to what the array holds.
abbrev pub entry_from : ParsedOrder → ℕ → LimitOrderEntry
entry_from order qty = record {
  cl_ord_id = take (max_cl_ord_id_len - 1) order.cl_ord_id;
  side = order.side;
  price = order.price;
  remaining_qty = qty;
  seq_num = order.seq_num;
}

module _ (lvl : PriceLevel) (order : ParsedOrder) (qty ts : ℕ) where
  push_order-IsLevel :
      IsRing lvl
      → lvl.order_count < max_orders_per_level
      → order.price ≡ lvl.price
      → IsLevel (push_order lvl order qty ts)
  push_order-IsLevel ring room same =
      let more =
        order_count-push_back_order lvl ring.full_array ring.head_in room order.seq_num
          order.cl_ord_id order.side order.price qty ts in
      record {
        ring =
            push_back_order-IsRing lvl ring.full_array ring.head_in room order.seq_num
              order.cl_ord_id order.side order.price qty ts ring.priced ring.totalled same;
        some_orders = omega (arith, more);
      }

  entries-push_order :
      IsRing lvl
      → lvl.order_count < max_orders_per_level
      → IsText order.cl_ord_id
      → entries (push_order lvl order qty ts) ≡ entries lvl ++ (entry_from order qty ∷ [])
  entries-push_order ring room plain =
      let o =
        newest lvl ring.full_array ring.head_in room order.seq_num order.cl_ord_id order.side
          order.price qty ts in
      ap (map entry_of) (
        queue-push_back_order lvl ring.full_array ring.head_in room order.seq_num order.cl_ord_id
          order.side order.price qty ts)
      ∙ map-append entry_of (queue lvl) (o ∷ [])
      ∙ ap
          (λ t.
            let e : LimitOrderEntry = record (entry_from order qty) { cl_ord_id = t } in
            entries lvl ++ (e ∷ []))
          (text-copy_sv_to_char _ order.cl_ord_id plain)

  -- A full level stays as it is.
  push_order_full : max_orders_per_level ≤ lvl.order_count → push_order lvl order qty ts ≡ lvl
  unfolding push_back_order
  push_order_full full = rw (ge→ltb lvl.order_count max_orders_per_level full) refl

-- An empty level with its arrays is a ring at any price.
reset-IsRing :
    (lvl : PriceLevel) (price : ℤ)
    → length lvl.orders ≡ max_orders_per_level
    → IsRing (record (reset lvl) { price = price })
unfolding reset
reset-IsRing lvl price full = record {
  full_array = full;
  head_in = omega arith;
  count_in = omega arith;
  priced = tt;
  totalled = refl;
}

order_count-reset : (lvl : PriceLevel) → (reset lvl).order_count ≡ 0
unfolding reset
order_count-reset lvl = refl

module _ (s : BookSide) where
  all_in_front :
      (P : PriceLevel → Type 0) (ps : List ℕ) (m : ℕ)
      → ((i : ℕ) → i < m → P (level_at s (get_or ps i 0)))
      → All P (levels_at s (take m ps))
  all_in_front P ps zero h = tt
  all_in_front P [] (suc m) h = tt
  all_in_front P (p ∷ ps) (suc m) h =
      (h 0 (omega arith), all_in_front P ps m (λ i lt. h (suc i) (omega arith)))

  all_behind :
      (P : PriceLevel → Type 0) (ps : List ℕ) (m k : ℕ)
      → ((i : ℕ) → m ≤ i → i < m + k → P (level_at s (get_or ps i 0)))
      → All P (levels_at s (take k (drop m ps)))
  all_behind P ps zero k h = all_in_front P ps k (λ i lt. h i (omega arith) (omega arith))
  all_behind P [] (suc m) zero h = tt
  all_behind P [] (suc m) (suc k) h = tt
  all_behind P (p ∷ ps) (suc m) k h =
      all_behind P ps m k (λ i ge lt. h (suc i) (omega arith) (omega arith))

-- The level at the price of an order, if there is one, has a place for it.
abbrev pub HasRoom : BookSide → ℤ → Type 0
HasRoom s price =
    (i : ℕ)
    → i < s.level_count
    → price_at s i ≡ price
    → (level_at s (get_or s.levels i 0)).order_count < max_orders_per_level

module _ (own : Side) (s : BookSide) (side : IsSide own s) (order : ParsedOrder) (qty ts : ℕ) where
  -- What the addition keeps, and what it does to the entries.
  pub record Added (t : BookSide) : Type 0 where
    pub side_kept : IsSide own t
    pub entered :
        HasRoom s order.price
        → IsText order.cl_ord_id
        → contents t ≡ insert_sorted own (entry_from order qty) (contents s)

  module _ (mid k : ℕ) (count : s.level_count ≡ mid + suc k)
      (hit : price_at s mid ≡ order.price) where
    abbrev here : PriceLevel
    here = level_at s (get_or s.levels mid 0)

    here-IsLevel : IsLevel here
    here-IsLevel = (parts_good own s side mid k count).1.0

    at_hit : Added (put_level s (get_or s.levels mid 0) (push_order here order qty ts))
    at_hit = elim (Bool-cases (ltb here.order_count max_orders_per_level)) [
      | inl e ↦
          let room = ltb→lt here.order_count max_orders_per_level e in
          let ring = here-IsLevel.ring in
          let pushed = push_order here order qty ts in
          let same : pushed.price ≡ here.price =
            price-push_back_order here ring.full_array ring.head_in room order.seq_num
              order.cl_ord_id order.side order.price qty ts in
          let (ahead, after) =
            ordered_split own (before own s side mid k count) (beyond_it own s side mid k count)
              here
              (subst (λ ls. IsStrict own (map price_of ls)) (rows-at own s side mid k count)
                side.strict) in
          let (front, back) = parts_good own s side mid k count in
          record {
            side_kept =
                put_at-IsSide own s side mid k count pushed
                  (push_order-IsLevel here order qty ts ring room (sym hit)) same;
            entered = λ any plain.
                ap flatten (rows-put_at own s side mid k count pushed)
                ∙ sym (
                    insert_sorted_at own (entry_from order qty) (before own s side mid k count)
                      (beyond_it own s side mid k count) front back.1
                      (subst (λ p. All (IsAhead own p) (before own s side mid k count)) hit ahead)
                      (subst (λ p. All (IsAfter own p) (beyond_it own s side mid k count)) hit
                        after)
                      here pushed ring hit (entries-push_order here order qty ts ring room plain))
                ∙ ap (λ ls. insert_sorted own (entry_from order qty) (flatten ls))
                    (sym (rows-at own s side mid k count));
          }
      | inr e ↦
          let full = ltb→ge here.order_count max_orders_per_level e in
          rw (push_order_full here order qty ts full) (record {
            side_kept = put_at-IsSide own s side mid k count here here-IsLevel refl;
            entered = λ any plain. absurd (omega (arith, any mid (omega arith) hit));
          })
    ]

  module _ (i k : ℕ) (count : s.level_count ≡ i + k) (room : s.level_count < max_book_levels)
      (ahead : All (IsAhead own order.price) (front_rows own s side i k count room))
      (after : All (IsAfter own order.price) (back_rows own s side i k count room)) where
    abbrev cleared : PriceLevel
    cleared = record (fresh_level own s side i k count room) { price = order.price }

    at_gap : Added (new_level s i order qty ts)
    at_gap =
        let l = first_of own s side i k count room order qty ts in
        let no_orders = order_count-reset (level_at s (spare own s side i k count room)) in
        let unused : entries cleared ≡ [] =
          ap
            (λ n.
              map entry_of
                (window blank_order max_orders_per_level cleared.orders cleared.head_order_idx n))
            no_orders in
        let ring : IsRing cleared =
          reset-IsRing (level_at s (spare own s side i k count room)) order.price
            (spare-IsArray own s side i k count room) in
        let empty : cleared.order_count < max_orders_per_level = omega (arith, no_orders) in
        let same : l.price ≡ order.price =
          price-push_back_order cleared ring.full_array ring.head_in empty order.seq_num
            order.cl_ord_id order.side order.price qty ts in
        let (front, back) = halves_good own s side i k count room in
        rw (new_level-grown own s side i k count room order qty ts) (record {
          side_kept =
              grown-IsSide own s side i k count room l
                (push_order-IsLevel cleared order qty ts ring empty refl)
                (subst (λ p. All (IsAhead own p) (front_rows own s side i k count room)) (sym same)
                  ahead)
                (subst (λ p. All (IsAfter own p) (back_rows own s side i k count room)) (sym same)
                  after);
          entered = λ any plain.
              ap flatten (rows-grown own s side i k count room l)
              ∙ sym (
                  insert_sorted_between own (entry_from order qty)
                    (front_rows own s side i k count room) (back_rows own s side i k count room)
                    front back ahead after l
                    (entries-push_order cleared order qty ts ring empty plain
                      ∙ ap (λ es. es ++ (entry_from order qty ∷ [])) unused))
              ∙ ap (λ ls. insert_sorted own (entry_from order qty) (flatten ls))
                  (sym (rows-split own s side i k count room));
        })

  pub add_to_book-Added : s.level_count < max_book_levels → Added (add_to_book own s order qty ts)
  unfolding add_to_book
  add_to_book-Added room =
      let r = search_levels own s order.price in
      let (b, end) = search_levels-Bounded own s side order.price in
      let inside = b.inside in
      elim (Option-cases r.found) [
        | inl e ↦
            let met : r.low ≡ r.high =
              subst (λ f. elim f [ none ↦ r.low ≡ r.high | some mid ↦ Unit ]) e end in
            let k = s.level_count - r.low in
            let count : s.level_count ≡ r.low + k = omega arith in
            rw (e, add_to_book)
              (at_gap r.low k count room
                (all_in_front s (IsAhead own order.price) s.levels r.low b.lower)
                (all_behind s (IsAfter own order.price) s.levels r.low k
                  (λ i ge lt. b.upper i (omega arith) (omega arith))))
        | inr (mid, e) ↦
            let (in_use, hit) = subst (IsHit own s side order.price) e b.is_hit in
            let k = s.level_count - suc mid in
            let count : s.level_count ≡ mid + suc k = omega arith in
            rw (e, add_to_book) (at_hit mid k count hit)
      ]
