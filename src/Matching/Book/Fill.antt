-- ===== src/Matching/Book/Fill.antt =====
-- Laws of a match: what is traded, at which prices, and what stays on the passive side.
use hft_fix_engine.Base.{
  ℕ, ◌+◌, ◌-◌, ◌<◌, ◌≤◌, ◌≡◌, List, [], ◌∷◌, map, ℤ, ◌<ℤ◌, ◌≤ℤ◌, All, All-map, sum, arith, inl, inr,
  Bool-cases, ltb, ◌==◌, false, true,
}
use hft_fix_engine.Matching.Book.{LimitOrderEntry, Side, buy, sell, beyond}
use hft_fix_engine.Matching.Book.Spec.{fill, fill_qty}

abbrev pub entry_qty : LimitOrderEntry → ℕ
entry_qty x = x.remaining_qty

abbrev pub IsOpen : LimitOrderEntry → Type 0
IsOpen x = 0 < x.remaining_qty

-- `x` may stand before `y` on the given side of the book.
abbrev pub Ahead : Side → ℤ → ℤ → Type 0
Ahead buy x y = y ≤ℤ x
Ahead sell x y = x ≤ℤ y

abbrev pub IsSorted : Side → List LimitOrderEntry → Type 0
IsSorted side [] = Unit {0}
IsSorted side (x ∷ xs) = All (λ y. Ahead side x.price y.price) xs × IsSorted side xs

abbrev pub opposite : Side → Side
opposite buy = sell
opposite sell = buy

-- A passive price that an order with this limit does not trade at.
abbrev pub Beyond : Side → ℤ → ℤ → Type 0
Beyond buy p q = p <ℤ q
Beyond sell p q = q <ℤ p

-- A passive price that it does trade at.
abbrev pub Within : Side → ℤ → ℤ → Type 0
Within buy p q = q ≤ℤ p
Within sell p q = p ≤ℤ q

beyond→Beyond : (side : Side) (p q : ℤ) → beyond side p q ≡ true → Beyond side p q
beyond→Beyond buy p q h = ground arith
beyond→Beyond sell p q h = ground arith

beyond→Within : (side : Side) (p q : ℤ) → beyond side p q ≡ false → Within side p q
beyond→Within buy p q h = ground arith
beyond→Within sell p q h = ground arith

Beyond-Ahead :
    (side : Side) (p q r : ℤ) → Beyond side p q → Ahead (opposite side) q r → Beyond side p r
Beyond-Ahead buy p q r h k = omega arith
Beyond-Ahead sell p q r h k = omega arith

module _ (side : Side) (price : ℤ) where
  -- What is traded and what is left make up the order.
  pub fill_qty-sum :
      (qty : ℕ) (book : List LimitOrderEntry)
      → sum (map fill_qty (fill side price qty book).fills) + (fill side price qty book).left ≡ qty
  unfolding fill
  fill_qty-sum qty [] = omega arith
  fill_qty-sum qty (x ∷ xs) = ground (arith, fill_qty-sum (qty - x.remaining_qty) xs)

  -- The passive side loses what is traded.
  pub fill_book_sum :
      (qty : ℕ) (book : List LimitOrderEntry)
      → sum (map fill_qty (fill side price qty book).fills)
          + sum (map entry_qty (fill side price qty book).book)
        ≡ sum (map entry_qty book)
  unfolding fill
  fill_book_sum qty [] = omega arith
  fill_book_sum qty (x ∷ xs) = ground (arith, fill_book_sum (qty - x.remaining_qty) xs)

  -- A property of prices that the passive side has, it keeps.
  pub fill-All :
      (P : ℤ → Type 0) (qty : ℕ) (book : List LimitOrderEntry)
      → All (λ x. P x.price) book
      → All (λ x. P x.price) (fill side price qty book).book
  unfolding fill
  fill-All P qty [] h = tt
  fill-All P qty (x ∷ xs) h = elim (Bool-cases (qty == 0)) [
    | inl a ↦ rw (a, fill) h
    | inr a ↦ elim (Bool-cases (beyond side price x.price)) [
      | inl b ↦ rw (a, b, fill) h
      | inr b ↦ elim (Bool-cases (ltb qty x.remaining_qty)) [
        | inl c ↦ rw (a, b, c, fill) h
        | inr c ↦ rw (a, b, c, fill) (fill-All P (qty - x.remaining_qty) xs h.1)
      ]
    ]
  ]

  pub fill-IsSorted :
      (own : Side) (qty : ℕ) (book : List LimitOrderEntry)
      → IsSorted own book
      → IsSorted own (fill side price qty book).book
  unfolding fill
  fill-IsSorted own qty [] h = tt
  fill-IsSorted own qty (x ∷ xs) h =
      ground (arith, fill-IsSorted own (qty - x.remaining_qty) xs h.1)

  pub fill-IsOpen :
      (qty : ℕ) (book : List LimitOrderEntry)
      → All IsOpen book
      → All IsOpen (fill side price qty book).book
  unfolding fill
  fill-IsOpen qty [] h = tt
  fill-IsOpen qty (x ∷ xs) h = ground (arith, fill-IsOpen (qty - x.remaining_qty) xs h.1)

  Beyond-All :
      (x : LimitOrderEntry) (xs : List LimitOrderEntry)
      → Beyond side price x.price
      → All (λ y. Ahead (opposite side) x.price y.price) xs
      → All (λ y. Beyond side price y.price) xs
  Beyond-All x xs b h =
      All-map (λ y. Ahead (opposite side) x.price y.price) (λ y. Beyond side price y.price) xs
        (λ y k. Beyond-Ahead side price x.price y.price b k) h

  -- What is left of an order crosses nothing that is left on the passive side.
  pub fill-Beyond :
      (qty : ℕ) (book : List LimitOrderEntry)
      → IsSorted (opposite side) book
      → 0 < (fill side price qty book).left
      → All (λ y. Beyond side price y.price) (fill side price qty book).book
  unfolding fill
  fill-Beyond qty [] s h = tt
  fill-Beyond qty (x ∷ xs) s h = ground (
    arith,
    fill-Beyond (qty - x.remaining_qty) xs s.1,
    beyond→Beyond side price x.price,
    Beyond-All x xs,
  )

  -- Every fill trades at a price within the limit, and no more than the entry holds.
  pub fill-Within :
      (qty : ℕ) (book : List LimitOrderEntry)
      → All
          (λ f. Within side price f.entry.price × (f.qty ≤ f.entry.remaining_qty))
          (fill side price qty book).fills
  unfolding fill
  fill-Within qty [] = tt
  fill-Within qty (x ∷ xs) =
      ground (arith, fill-Within (qty - x.remaining_qty) xs, beyond→Within side price x.price)
