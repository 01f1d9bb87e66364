-- ===== src/Matching/ZeroAlloc/Place.antt =====
-- Where `add_to_book` writes: the level at a position, or a free level put in between.
use hft_fix_engine.Base.{
  ℕ, suc, ◌+◌, ◌<◌, ◌≡◌, sym, subst, ap, ap₂, ◌∙◌, List, [], ◌∷◌, ◌++◌, map, map-append, All,
  All_split, All-append, All-set, length-set, get_or, get_or-set_self, take, drop, drop-cons,
  take-split, arith,
}
use hft_fix_engine.Matching.Book.{Side}
use hft_fix_engine.Matching.ZeroAlloc.Level.{PriceLevel, blank_level, max_book_levels}
use hft_fix_engine.Matching.ZeroAlloc.Side.{BookSide, level_at, put_level}
use hft_fix_engine.Matching.ZeroAlloc.Pool.{
  IsSide, IsLevel, IsArray, IsStrict, rows, live, levels_at, levels_at-put_level, price_of,
  occurrences, occurrences-append,
}

same_prices :
    (ls ks : List PriceLevel) (l l' : PriceLevel)
    → l'.price ≡ l.price
    → map price_of (ls ++ (l ∷ ks)) ≡ map price_of (ls ++ (l' ∷ ks))
same_prices [] ks l l' e = ap (λ z. z ∷ map price_of ks) (sym e)
same_prices (a ∷ ls) ks l l' e = ap (λ zs. a.price ∷ zs) (same_prices ls ks l l' e)

module _ (own : Side) (s : BookSide) (side : IsSide own s) (mid k : ℕ)
    (count : s.level_count ≡ mid + suc k) where
  abbrev pub at : ℕ
  at = get_or s.levels mid 0

  abbrev pub before : List PriceLevel
  before = levels_at s (take mid s.levels)

  abbrev pub beyond_it : List PriceLevel
  beyond_it = levels_at s (take k (drop (suc mid) s.levels))

  live-at : live s ≡ take mid s.levels ++ (at ∷ take k (drop (suc mid) s.levels))
  live-at =
      let used = side.all_used in
      ap (λ m. take m s.levels) count
      ∙ take-split mid (suc k) s.levels
      ∙ ap (λ l. take mid s.levels ++ take (suc k) l)
          (drop-cons 0 s.levels mid (omega (arith, side.levels_full)))

  pub rows-at : rows s ≡ before ++ (level_at s at ∷ beyond_it)
  rows-at =
      ap (levels_at s) live-at
      ∙ map-append (level_at s) (take mid s.levels) (at ∷ take k (drop (suc mid) s.levels))

  at_once :
      (occurrences at (take mid s.levels) ≡ 0)
      × (occurrences at (take k (drop (suc mid) s.levels)) ≡ 0)
      × (at < max_book_levels)
  unfolding occurrences
  at_once =
      let total = side.once at in
      let there = ap (occurrences at) live-at in
      let split =
        occurrences-append at (take mid s.levels) (at ∷ take k (drop (suc mid) s.levels)) in
      ground arith

  pub rows-put_at : (l : PriceLevel) → rows (put_level s at l) ≡ before ++ (l ∷ beyond_it)
  rows-put_at l =
      let (front, back, inside) = at_once in
      ap (levels_at (put_level s at l)) live-at
      ∙ map-append (level_at (put_level s at l)) (take mid s.levels)
          (at ∷ take k (drop (suc mid) s.levels))
      ∙ ap₂ ◌++◌ (levels_at-put_level s at l (take mid s.levels) front) (
          ap₂ ◌∷◌ (get_or-set_self s.pool at l blank_level (omega (arith, side.pool_full)))
            (levels_at-put_level s at l (take k (drop (suc mid) s.levels)) back))

  pub parts_good : All IsLevel before × All IsLevel (level_at s at ∷ beyond_it)
  parts_good =
      All_split IsLevel before (level_at s at ∷ beyond_it) (subst (All IsLevel) rows-at side.good)

  pub put_at-IsSide :
      (l : PriceLevel) → IsLevel l → l.price ≡ (level_at s at).price → IsSide own (put_level s at l)
  put_at-IsSide l good same =
      let (front, back) = parts_good in
      record {
        pool_full = length-set s.pool at l ∙ side.pool_full;
        levels_full = side.levels_full;
        free_full = side.free_full;
        all_used = side.all_used;
        once = side.once;
        arrays = All-set IsArray s.pool at l good.ring.full_array side.arrays;
        good =
            subst (All IsLevel) (sym (rows-put_at l))
              (All-append IsLevel before (l ∷ beyond_it) front (good, back.1));
        strict =
            subst (IsStrict own)
              (ap (map price_of) rows-at
                ∙ same_prices before beyond_it (level_at s at) l same
                ∙ ap (map price_of) (sym (rows-put_at l)))
              side.strict;
      }
