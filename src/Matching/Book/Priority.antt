-- ===== src/Matching/Book/Priority.antt =====
-- The sorted insertion: it keeps the order of prices, and puts an entry behind its equals.
use hft_fix_engine.Base.{
  ◌+◌, ◌≡◌, refl, List, [], ◌∷◌, ◌++◌, map, ℤ, ◌<ℤ◌, All, All-map, sum, arith, inl, inr, Bool-cases,
  ap, true, false,
}
use hft_fix_engine.Matching.Book.{LimitOrderEntry, Side, buy, sell, comes_before, insert_sorted}
use hft_fix_engine.Matching.Book.Fill.{Ahead, IsSorted, entry_qty}

-- `x` stands strictly before `y`: at a better price.
abbrev pub Better : Side → ℤ → ℤ → Type 0
Better buy x y = y <ℤ x
Better sell x y = x <ℤ y

Better-Ahead : (side : Side) (x y : ℤ) → Better side x y → Ahead side x y
Better-Ahead buy x y h = omega arith
Better-Ahead sell x y h = omega arith

Better-Ahead' : (side : Side) (x y z : ℤ) → Better side x y → Ahead side y z → Better side x z
Better-Ahead' buy x y z h k = omega arith
Better-Ahead' sell x y z h k = omega arith

before→Better :
    (side : Side) (x y : LimitOrderEntry)
    → comes_before side x y ≡ true
    → Better side x.price y.price
before→Better buy x y h = ground arith
before→Better sell x y h = ground arith

before→Ahead :
    (side : Side) (x y : LimitOrderEntry)
    → comes_before side x y ≡ false
    → Ahead side y.price x.price
before→Ahead buy x y h = ground arith
before→Ahead sell x y h = ground arith

module _ (side : Side) (e : LimitOrderEntry) where
  pub insert_sorted-All :
      (P : LimitOrderEntry → Type 0) (xs : List LimitOrderEntry)
      → P e
      → All P xs
      → All P (insert_sorted side e xs)
  unfolding insert_sorted
  insert_sorted-All P [] p h = (p, tt)
  insert_sorted-All P (x ∷ xs) p h = elim (Bool-cases (comes_before side e x)) [
    | inl b ↦ rw (b, insert_sorted) (p, h)
    | inr b ↦ rw (b, insert_sorted) (h.0, insert_sorted-All P xs p h.1)
  ]

  Better-All :
      (x : LimitOrderEntry) (xs : List LimitOrderEntry)
      → Better side e.price x.price
      → All (λ y. Ahead side x.price y.price) xs
      → All (λ y. Better side e.price y.price) xs
  Better-All x xs b h = All-map _ _ xs (λ y k. Better-Ahead' side e.price x.price y.price b k) h

  Ahead-All :
      (xs : List LimitOrderEntry)
      → All (λ y. Better side e.price y.price) xs
      → All (λ y. Ahead side e.price y.price) xs
  Ahead-All xs h = All-map _ _ xs (λ y k. Better-Ahead side e.price y.price k) h

  pub insert_sorted-IsSorted :
      (xs : List LimitOrderEntry) → IsSorted side xs → IsSorted side (insert_sorted side e xs)
  unfolding insert_sorted
  insert_sorted-IsSorted [] s = (tt, tt)
  insert_sorted-IsSorted (x ∷ xs) s = elim (Bool-cases (comes_before side e x)) [
    | inl b ↦
        let better = before→Better side e x b in
        rw (b, insert_sorted)
          ((Better-Ahead side e.price x.price better, Ahead-All xs (Better-All x xs better s.0)), s)
    | inr b ↦
        rw (b, insert_sorted)
          (
            insert_sorted-All (λ y. Ahead side x.price y.price) xs (before→Ahead side e x b) s.0,
            insert_sorted-IsSorted xs s.1,
          )
  ]

  pub sum-insert_sorted :
      (xs : List LimitOrderEntry)
      → sum (map entry_qty (insert_sorted side e xs)) ≡ e.remaining_qty + sum (map entry_qty xs)
  unfolding insert_sorted
  sum-insert_sorted [] = refl
  sum-insert_sorted (x ∷ xs) = ground (arith, sum-insert_sorted xs)

  -- Where the entry goes: behind all that are as good or better, before all that are worse.
  pub record Placed (xs : List LimitOrderEntry) (out : List LimitOrderEntry) : Type 0 where
    pub ahead : List LimitOrderEntry
    pub behind : List LimitOrderEntry
    pub was : xs ≡ ahead ++ behind
    pub is : out ≡ ahead ++ (e ∷ behind)
    pub not_worse : All (λ y. Ahead side y.price e.price) ahead
    pub worse : All (λ y. Better side e.price y.price) behind

  -- On a sorted side the new entry queues behind every entry at its price or a better one, and
  -- before every entry at a worse price; the others keep their order.
  pub insert_sorted-Placed :
      (xs : List LimitOrderEntry) → IsSorted side xs → Placed xs (insert_sorted side e xs)
  unfolding insert_sorted
  insert_sorted-Placed [] s = record {
    ahead = [];
    behind = [];
    was = refl;
    is = refl;
    not_worse = tt;
    worse = tt;
  }
  insert_sorted-Placed (x ∷ xs) s = elim (Bool-cases (comes_before side e x)) [
    | inl b ↦
        let better = before→Better side e x b in
        rw (b, insert_sorted)
          (record {
            ahead = [];
            behind = x ∷ xs;
            was = refl;
            is = refl;
            not_worse = tt;
            worse = (better, Better-All x xs better s.0);
          })
    | inr b ↦
        let p = insert_sorted-Placed xs s.1 in
        rw (b, insert_sorted)
          (record {
            ahead = x ∷ p.ahead;
            behind = p.behind;
            was = ap (λ l. x ∷ l) p.was;
            is = ap (λ l. x ∷ l) p.is;
            not_worse = (before→Ahead side e x b, p.not_worse);
            worse = p.worse;
          })
  ]
