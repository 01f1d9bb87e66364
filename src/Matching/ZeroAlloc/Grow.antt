-- ===== src/Matching/ZeroAlloc/Grow.antt =====
-- A free level put in between the levels in use.
use hft_fix_engine.Base.{
  ℕ, suc, ◌+◌, ◌-◌, ◌<◌, ◌≡◌, refl, sym, subst, ap, ap₂, ◌∙◌, false, List, [], ◌∷◌, ◌++◌, map,
  map-append, All, All_split, All-append, All-set, All-get_or, length-set, length-replicate, get_or,
  get_or-set_self, set, take, drop, take-split, take-snoc, insert_shift, shift_up, length-shift_up,
  lt→ltb, ◌==◌, arith,
}
use hft_fix_engine.Protocol.ParsedOrder.{ParsedOrder}
use hft_fix_engine.Matching.Book.{Side}
use hft_fix_engine.Matching.ZeroAlloc.Level.{
  PriceLevel, blank_level, blank_order, max_book_levels, max_orders_per_level, reset,
}
use hft_fix_engine.Matching.ZeroAlloc.Side.{
  BookSide, level_at, put_level, acquire_level, insert_pointer, push_order, new_level,
}
use hft_fix_engine.Matching.ZeroAlloc.Pool.{
  IsSide, IsLevel, IsArray, IsStrict, rows, live, free, levels_at, levels_at-put_level, price_of,
  occurrences, occurrences-append,
}
use hft_fix_engine.Matching.ZeroAlloc.Insert.{IsAhead, IsAfter, ordered_between}

module _ (own : Side) (s : BookSide) (side : IsSide own s) (i k : ℕ) (count : s.level_count ≡ i + k)
    (room : s.level_count < max_book_levels) where
  -- The pointer that the free list gives, and its level.
  abbrev pub spare : ℕ
  spare = get_or s.free_list (s.free_count - 1) 0

  abbrev pub fresh_level : PriceLevel
  fresh_level = reset (level_at s spare)

  abbrev pub grown : PriceLevel → BookSide
  grown l = record {
    pool = set (set s.pool spare fresh_level) spare l;
    free_list = s.free_list;
    free_count = s.free_count - 1;
    levels = set (shift_up 0 s.levels i k) i spare;
    level_count = s.level_count + 1;
  }

  abbrev pub front_rows : List PriceLevel
  front_rows = levels_at s (take i s.levels)

  abbrev pub back_rows : List PriceLevel
  back_rows = levels_at s (take k (drop i s.levels))

  live-split : live s ≡ take i s.levels ++ take k (drop i s.levels)
  live-split = ap (λ m. take m s.levels) count ∙ take-split i k s.levels

  pub rows-split : rows s ≡ front_rows ++ back_rows
  rows-split =
      ap (levels_at s) live-split
      ∙ map-append (level_at s) (take i s.levels) (take k (drop i s.levels))

  free-spare : free s ≡ take (s.free_count - 1) s.free_list ++ (spare ∷ [])
  free-spare =
      let used = side.all_used in
      ap (λ m. take m s.free_list)
        (let e : s.free_count ≡ suc (s.free_count - 1) = omega arith in e)
      ∙ take-snoc 0 (s.free_count - 1) s.free_list (omega (arith, side.free_full))

  live-grown :
      (l : PriceLevel) → live (grown l) ≡ take i s.levels ++ (spare ∷ take k (drop i s.levels))
  live-grown l =
      ap (λ m. take m (set (shift_up 0 s.levels i k) i spare))
        (let e : s.level_count + 1 ≡ suc (i + k) = omega arith in e)
      ∙ insert_shift 0 s.levels i k spare (omega (arith, side.levels_full))

  spare_once :
      (occurrences spare (take i s.levels) ≡ 0)
      × (occurrences spare (take k (drop i s.levels)) ≡ 0)
      × (spare < max_book_levels)
  unfolding occurrences
  spare_once =
      let total = side.once spare in
      let used = ap (occurrences spare) live-split in
      let halves = occurrences-append spare (take i s.levels) (take k (drop i s.levels)) in
      let unused = ap (occurrences spare) free-spare in
      let split = occurrences-append spare (take (s.free_count - 1) s.free_list) (spare ∷ []) in
      ground arith

  levels_at-grown :
      (l : PriceLevel) (ps : List ℕ)
      → occurrences spare ps ≡ 0
      → levels_at (grown l) ps ≡ levels_at s ps
  levels_at-grown l ps h =
      levels_at-put_level (put_level s spare fresh_level) spare l ps h
      ∙ levels_at-put_level s spare fresh_level ps h

  pub rows-grown : (l : PriceLevel) → rows (grown l) ≡ front_rows ++ (l ∷ back_rows)
  rows-grown l =
      let (front, back, inside) = spare_once in
      ap (levels_at (grown l)) (live-grown l)
      ∙ map-append (level_at (grown l)) (take i s.levels) (spare ∷ take k (drop i s.levels))
      ∙ ap₂ ◌++◌ (levels_at-grown l (take i s.levels) front) (
          ap₂ ◌∷◌
            (get_or-set_self (set s.pool spare fresh_level) spare l blank_level
              (omega (arith, side.pool_full, length-set s.pool spare fresh_level)))
            (levels_at-grown l (take k (drop i s.levels)) back))

  pub halves_good : All IsLevel front_rows × All IsLevel back_rows
  halves_good = All_split IsLevel front_rows back_rows (subst (All IsLevel) rows-split side.good)

  pub spare-IsArray : IsArray (level_at s spare)
  spare-IsArray =
      All-get_or IsArray s.pool spare blank_level
        (length-replicate max_orders_per_level blank_order) side.arrays

  pub grown-IsSide :
      (l : PriceLevel)
      → IsLevel l
      → All (IsAhead own l.price) front_rows
      → All (IsAfter own l.price) back_rows
      → IsSide own (grown l)
  unfolding occurrences reset
  grown-IsSide l good ahead after =
      let used = side.all_used in
      let (front, back) = halves_good in
      record {
        pool_full =
            length-set (set s.pool spare fresh_level) spare l
            ∙ length-set s.pool spare fresh_level
            ∙ side.pool_full;
        levels_full =
            length-set (shift_up 0 s.levels i k) i spare
            ∙ length-shift_up 0 s.levels i k
            ∙ side.levels_full;
        free_full = side.free_full;
        all_used = omega arith;
        once = λ p.
            let total = side.once p in
            let now = ap (occurrences p) (live-grown l) in
            let now_halves =
              occurrences-append p (take i s.levels) (spare ∷ take k (drop i s.levels)) in
            let was = ap (occurrences p) live-split in
            let halves = occurrences-append p (take i s.levels) (take k (drop i s.levels)) in
            let unused = ap (occurrences p) free-spare in
            let split = occurrences-append p (take (s.free_count - 1) s.free_list) (spare ∷ []) in
            ground arith;
        arrays =
            All-set IsArray (set s.pool spare fresh_level) spare l good.ring.full_array
              (All-set IsArray s.pool spare fresh_level spare-IsArray side.arrays);
        good =
            subst (All IsLevel) (sym (rows-grown l))
              (All-append IsLevel front_rows (l ∷ back_rows) front (good, back));
        strict = subst (IsStrict own) (ap (map price_of) (sym (rows-grown l))) (
            ordered_between own front_rows back_rows l
              (subst (IsStrict own) (ap (map price_of) rows-split) side.strict) ahead after);
      }

  -- The level with the one order.
  abbrev pub first_of : ParsedOrder → ℕ → ℕ → PriceLevel
  first_of order qty ts = push_order (record fresh_level { price = order.price }) order qty ts

  pub new_level-grown :
      (order : ParsedOrder) (qty ts : ℕ)
      → new_level s i order qty ts ≡ grown (first_of order qty ts)
  unfolding new_level acquire_level insert_pointer
  new_level-grown order qty ts =
      let used = side.all_used in
      let (front, back, inside) = spare_once in
      let some_free : (s.free_count == 0) ≡ false = ground arith in
      let moved : s.level_count - i ≡ k = omega arith in
      rw
        (
          lt→ltb s.level_count max_book_levels room,
          some_free,
          moved,
          get_or-set_self s.pool spare fresh_level blank_level (omega (arith, side.pool_full)),
        )
        refl
