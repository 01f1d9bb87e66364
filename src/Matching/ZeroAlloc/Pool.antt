-- ===== src/Matching/ZeroAlloc/Pool.antt =====
-- The pool of a side: every level of it is in use once or free once.
use hft_fix_engine.Base.{
  ℕ, zero, suc, ◌+◌, ◌-◌, ◌<◌, ◌≡◌, refl, sym, subst, ap, ap₂, ◌∙◌, inl, inr, Bool-cases, Bool,
  true, List, [], ◌∷◌, ◌++◌, map, All, All-set, All-replicate, leb, ◌&&◌, length, get_or, set, take,
  drop, length-set, get_or-set_self, get_or-set_ne, take-set, take-snoc, shift_down,
  length-shift_down, take-shift_down, ltb, ◌==◌, if◌then◌else◌, arith, ℤ, ◌<ℤ◌, ==→ne,
}
use hft_fix_engine.Matching.Book.{LimitOrderEntry, Side, buy, sell}
use hft_fix_engine.Matching.ZeroAlloc.Level.{
  PriceLevel, blank_level, max_book_levels, max_orders_per_level,
}
use hft_fix_engine.Matching.ZeroAlloc.Side.{
  BookSide, empty_side, indices, level_at, put_level, release_level, drop_first,
}
use hft_fix_engine.Matching.ZeroAlloc.Ring.{IsRing}
use hft_fix_engine.Matching.ZeroAlloc.Reports.{entries}

-- How often a pointer stands in a row.
unfoldable pub occurrences : ℕ → List ℕ → ℕ
occurrences p [] = 0
occurrences p (q ∷ qs) = let more = occurrences p qs in if p == q then suc more else more

pub occurrences-append :
    (p : ℕ) (xs ys : List ℕ) → occurrences p (xs ++ ys) ≡ occurrences p xs + occurrences p ys
unfolding occurrences
occurrences-append p [] ys = omega arith
occurrences-append p (x ∷ xs) ys = ground (arith, occurrences-append p xs ys)

abbrev pub one_if : Bool → ℕ
one_if b = if b then 1 else 0

-- The pointers in use, the best level first, and the free ones.
abbrev pub live : BookSide → List ℕ
live s = take s.level_count s.levels

abbrev pub free : BookSide → List ℕ
free s = take s.free_count s.free_list

abbrev pub levels_at : BookSide → List ℕ → List PriceLevel
levels_at s ps = map (level_at s) ps

-- The levels in use.
abbrev pub rows : BookSide → List PriceLevel
rows s = levels_at s (live s)

abbrev pub price_of : PriceLevel → ℤ
price_of lvl = lvl.price

-- The orders of some levels, one level behind the other.
abbrev pub flatten : List PriceLevel → List LimitOrderEntry
flatten [] = []
flatten (l ∷ ls) = entries l ++ flatten ls

abbrev pub contents : BookSide → List LimitOrderEntry
contents s = flatten (rows s)

-- Strictly in front, on a side of the book.
abbrev pub Before : Side → ℤ → ℤ → Type 0
Before buy x y = y <ℤ x
Before sell x y = x <ℤ y

abbrev pub IsStrict : Side → List ℤ → Type 0
IsStrict own [] = Unit {0}
IsStrict own (x ∷ xs) = All (Before own x) xs × IsStrict own xs

pub record IsLevel (lvl : PriceLevel) : Type 0 where
  pub ring : IsRing lvl
  pub some_orders : 0 < lvl.order_count

abbrev pub IsArray : PriceLevel → Type 0
IsArray lvl = length lvl.orders ≡ max_orders_per_level

pub record IsSide (own : Side) (s : BookSide) : Type 0 where
  pub pool_full : length s.pool ≡ max_book_levels
  pub levels_full : length s.levels ≡ max_book_levels
  pub free_full : length s.free_list ≡ max_book_levels
  pub all_used : s.level_count + s.free_count ≡ max_book_levels
  pub once :
      (p : ℕ) → occurrences p (live s) + occurrences p (free s) ≡ one_if (ltb p max_book_levels)
  pub arrays : All IsArray s.pool
  pub good : All IsLevel (rows s)
  pub strict : IsStrict own (map price_of (rows s))

-- A write through a pointer is not seen through other pointers.
pub levels_at-put_level :
    (s : BookSide) (p : ℕ) (l : PriceLevel) (ps : List ℕ)
    → occurrences p ps ≡ 0
    → levels_at (put_level s p l) ps ≡ levels_at s ps
unfolding occurrences
levels_at-put_level s p l [] h = refl
levels_at-put_level s p l (q ∷ qs) h = elim (Bool-cases (p == q)) [
  | inl e ↦ absurd (ground arith)
  | inr e ↦
      ap₂ ◌∷◌ (get_or-set_ne s.pool p q l blank_level (==→ne p q e))
        (levels_at-put_level s p l qs (ground arith))
]

take_first :
    (n : ℕ) (ps : List ℕ) → 0 < length ps → take (suc n) ps ≡ get_or ps 0 0 ∷ take n (drop 1 ps)
take_first n [] h = absurd (omega arith)
take_first n (p ∷ ps) h = refl

-- The best level, and the pointers behind it.
abbrev pub best : BookSide → ℕ
best s = get_or s.levels 0 0

abbrev pub others : BookSide → ℕ → List ℕ
others s n = take n (drop 1 s.levels)

module _ (own : Side) (s : BookSide) (side : IsSide own s) (n : ℕ)
    (count : s.level_count ≡ suc n) where
  pub live-best : live s ≡ best s ∷ others s n
  live-best =
      ap (λ m. take m s.levels) count ∙ take_first n s.levels (omega (arith, side.levels_full))

  pub rows-best : rows s ≡ level_at s (best s) ∷ levels_at s (others s n)
  rows-best = ap (levels_at s) live-best

  best_once : (occurrences (best s) (others s n) ≡ 0) × (best s < max_book_levels)
  unfolding occurrences
  best_once =
      let total = side.once (best s) in
      let there = ap (occurrences (best s)) live-best in ground arith

  pub rows-put_level :
      (l : PriceLevel) → rows (put_level s (best s) l) ≡ l ∷ levels_at s (others s n)
  rows-put_level l =
      ap (levels_at (put_level s (best s) l)) live-best
      ∙ ap₂ ◌∷◌
          (get_or-set_self s.pool (best s) l blank_level
            (omega (arith, best_once.1, side.pool_full)))
          (levels_at-put_level s (best s) l (others s n) best_once.0)

  pub put_level-IsSide :
      (l : PriceLevel)
      → IsLevel l
      → l.price ≡ (level_at s (best s)).price
      → IsSide own (put_level s (best s) l)
  put_level-IsSide l good price =
      let now = rows-put_level l in
      let all_good = subst (All IsLevel) rows-best side.good in
      let prices : map price_of (rows s) ≡ map price_of (rows (put_level s (best s) l)) =
        ap (map price_of) rows-best
        ∙ ap (λ z. z ∷ map price_of (levels_at s (others s n))) (sym price)
        ∙ ap (map price_of) (sym now) in
      record {
        pool_full = length-set s.pool (best s) l ∙ side.pool_full;
        levels_full = side.levels_full;
        free_full = side.free_full;
        all_used = side.all_used;
        once = side.once;
        arrays = All-set IsArray s.pool (best s) l good.ring.full_array side.arrays;
        good = subst (All IsLevel) (sym now) (good, all_good.1);
        strict = subst (IsStrict own) prices side.strict;
      }

  -- The side when its best level, by now `l`, has been released and its pointer dropped.
  abbrev pub closed : PriceLevel → BookSide
  closed l = record {
    pool = set s.pool (best s) l;
    free_list = set s.free_list s.free_count (best s);
    free_count = s.free_count + 1;
    levels = shift_down 0 s.levels 0 n;
    level_count = n;
  }

  pub drop_first-release_level :
      (l : PriceLevel) → drop_first (release_level (put_level s (best s) l) (best s)) ≡ closed l
  unfolding drop_first release_level
  drop_first-release_level l =
      let total = side.all_used in
      let room : ltb s.free_count max_book_levels ≡ true = ground arith in
      let last : s.level_count - 1 ≡ n = omega arith in
      rw room (
        ap
          (λ m.
            let r : BookSide = record {
              pool = set s.pool (best s) l;
              free_list = set s.free_list s.free_count (best s);
              free_count = s.free_count + 1;
              levels = shift_down 0 s.levels 0 m;
              level_count = m;
            } in
            r)
          last)

  live-closed : (l : PriceLevel) → live (closed l) ≡ others s n
  live-closed l =
      let total = side.all_used in
      ap (λ m. take m (shift_down 0 s.levels 0 n)) (let e : n ≡ 0 + n = omega arith in e)
      ∙ take-shift_down 0 s.levels 0 n (omega (arith, side.levels_full))

  free-closed : (l : PriceLevel) → free (closed l) ≡ free s ++ (best s ∷ [])
  free-closed l =
      let total = side.all_used in
      let room : s.free_count < length s.free_list = omega (arith, side.free_full) in
      let moved = set s.free_list s.free_count (best s) in
      ap (λ m. take m moved) (let e : s.free_count + 1 ≡ suc s.free_count = omega arith in e)
      ∙ take-snoc 0 s.free_count moved (omega (arith, length-set s.free_list s.free_count (best s)))
      ∙ ap₂ (λ a b. a ++ (b ∷ [])) (take-set s.free_count s.free_list (best s))
          (get_or-set_self s.free_list s.free_count (best s) 0 room)

  pub rows-closed : (l : PriceLevel) → rows (closed l) ≡ levels_at s (others s n)
  rows-closed l =
      ap (levels_at (closed l)) (live-closed l)
      ∙ levels_at-put_level s (best s) l (others s n) best_once.0

  pub closed-IsSide : (l : PriceLevel) → IsArray l → IsSide own (closed l)
  unfolding occurrences
  closed-IsSide l full =
      let total = side.all_used in
      record {
        pool_full = length-set s.pool (best s) l ∙ side.pool_full;
        levels_full = length-shift_down 0 s.levels 0 n ∙ side.levels_full;
        free_full = length-set s.free_list s.free_count (best s) ∙ side.free_full;
        all_used = omega arith;
        once = λ p.
            let there = side.once p in
            let used = ap (occurrences p) (live-closed l) in
            let was = ap (occurrences p) live-best in
            let freed = ap (occurrences p) (free-closed l) in
            let split = occurrences-append p (free s) (best s ∷ []) in ground arith;
        arrays = All-set IsArray s.pool (best s) l full side.arrays;
        good =
            subst (All IsLevel) (sym (rows-closed l)) (subst (All IsLevel) rows-best side.good).1;
        strict =
            subst (IsStrict own) (ap (map price_of) (sym (rows-closed l)))
              (subst (IsStrict own) (ap (map price_of) rows-best) side.strict).1;
      }

occurrences-indices :
    (p from n : ℕ) → occurrences p (indices from n) ≡ one_if (leb from p && ltb p (from + n))
unfolding occurrences
occurrences-indices p from zero = ground arith
occurrences-indices p from (suc n) = ground (arith, occurrences-indices p (from + 1) n)

occurrences-nil : (p : ℕ) → occurrences p [] ≡ 0
unfolding occurrences
occurrences-nil p = refl

bounds_simple : (p : ℕ) → one_if (leb 0 p && ltb p (0 + 64)) ≡ one_if (ltb p 64)
bounds_simple p = ground arith

pub empty_side-IsSide : (own : Side) → IsSide own empty_side
unfolding empty_side
empty_side-IsSide own = record {
  pool_full = refl;
  levels_full = refl;
  free_full = refl;
  all_used = refl;
  once = λ p.
      ap₂ ◌+◌ (occurrences-nil p) (occurrences-indices p 0 64 ∙ bounds_simple p)
      ∙ (let e : 0 + one_if (ltb p 64) ≡ one_if (ltb p 64) = omega arith in e);
  arrays = All-replicate IsArray max_book_levels blank_level refl;
  good = tt;
  strict = tt;
}
