-- ===== src/Protocol/FlatBook/Sorted.antt =====
-- The levels in use stay in order: bids descend, asks ascend, and no price stands twice.
use hft_fix_engine.Base.{
  ℕ, ◌≡◌, sym, subst, List, [], ◌∷◌, All, All-map, Bool, true, false, Bool-cases, inl, inr, ℤ, ◌<ℤ◌,
  eqb_ℤ, ltb_ℤ→lt, ltb, if◌then◌else◌, arith,
}
use hft_fix_engine.Protocol.FlatBook.{
  PriceLevel, FlatOrderBook, place_here, insert_or_update, erase,
}
use hft_fix_engine.Protocol.FlatBook.Bounds.{IsBounded}
use hft_fix_engine.Protocol.FlatBook.Levels.{live, upsert, insert_or_update_refines}
use hft_fix_engine.Protocol.FlatBook.Removal.{remove, erase_refines}

-- The first price beats the second.
abbrev pub Beats : Bool → ℤ → ℤ → Type 0
Beats true p q = q <ℤ p
Beats false p q = p <ℤ q

abbrev pub IsSorted : Bool → List PriceLevel → Type 0
IsSorted is_bid [] = Unit
IsSorted is_bid (x ∷ xs) =
    All (λ y. Beats is_bid x.price_scaled y.price_scaled) xs × IsSorted is_bid xs

Beats-place_here : (is_bid : Bool) (p q : ℤ) → place_here is_bid p q ≡ true → Beats is_bid p q
Beats-place_here true p q h = ltb_ℤ→lt q p h
Beats-place_here false p q h = ltb_ℤ→lt p q h

-- A price that neither equals another nor beats it is beaten by it.
Beats-other :
    (is_bid : Bool) (p q : ℤ) → eqb_ℤ q p ≡ false → place_here is_bid p q ≡ false → Beats is_bid q p
Beats-other true p q h k = ground arith
Beats-other false p q h k = ground arith

Beats-trans : (is_bid : Bool) (p q r : ℤ) → Beats is_bid p q → Beats is_bid q r → Beats is_bid p r
Beats-trans true p q r h k = omega arith
Beats-trans false p q r h k = omega arith

module _ (max : ℕ) (is_bid : Bool) where
  upsert-All :
      (P : ℤ → Type 0) (room : Bool) (price : ℤ) (qty : ℕ) (xs : List PriceLevel)
      → P price
      → All (λ y. P y.price_scaled) xs
      → All (λ y. P y.price_scaled) (upsert max is_bid room price qty xs)
  unfolding upsert
  upsert-All P room price qty [] p h = ground arith
  upsert-All P room price qty (x ∷ xs) p h = ground (arith, upsert-All P room price qty xs p h.1)

  placed :
      (room : Bool) (price : ℤ) (qty : ℕ) (x : PriceLevel) (xs : List PriceLevel)
      → Beats is_bid price x.price_scaled
      → IsSorted is_bid (x ∷ xs)
      → IsSorted is_bid
          (if room then record { price_scaled = price; quantity = qty } ∷ x ∷ xs else x ∷ xs)
  placed false price qty x xs b s = s
  placed true price qty x xs b s = (
    (
      b,
      All-map (λ y. Beats is_bid x.price_scaled y.price_scaled)
          (λ y. Beats is_bid price y.price_scaled) xs
          (λ y k. Beats-trans is_bid price x.price_scaled y.price_scaled b k) s.0,
    ),
    s,
  )

  upsert-IsSorted :
      (room : Bool) (price : ℤ) (qty : ℕ) (xs : List PriceLevel)
      → IsSorted is_bid xs
      → IsSorted is_bid (upsert max is_bid room price qty xs)
  unfolding upsert
  upsert-IsSorted room price qty [] s = ground arith
  upsert-IsSorted room price qty (x ∷ xs) s = elim (Bool-cases (eqb_ℤ x.price_scaled price)) [
    | inl same ↦ rw (same, upsert) s
    | inr other ↦ elim (Bool-cases (place_here is_bid price x.price_scaled)) [
      | inl place ↦
          rw (other, place, upsert)
            (placed room price qty x xs (Beats-place_here is_bid price x.price_scaled place) s)
      | inr on ↦
          rw (other, on, upsert)
            (
              upsert-All (Beats is_bid x.price_scaled) room price qty xs
                  (Beats-other is_bid price x.price_scaled other on) s.0,
              upsert-IsSorted room price qty xs s.1,
            )
    ]
  ]

  remove-All :
      (P : PriceLevel → Type 0) (price : ℤ) (xs : List PriceLevel)
      → All P xs
      → All P (remove price xs)
  unfolding remove
  remove-All P price [] h = h
  remove-All P price (x ∷ xs) h = ground (arith, remove-All P price xs h.1)

  remove-IsSorted :
      (price : ℤ) (xs : List PriceLevel) → IsSorted is_bid xs → IsSorted is_bid (remove price xs)
  unfolding remove
  remove-IsSorted price [] s = s
  remove-IsSorted price (x ∷ xs) s = ground (
    arith,
    remove-IsSorted price xs s.1,
    remove-All (λ y. Beats is_bid x.price_scaled y.price_scaled) price xs s.0,
  )

  -- On an array within its bounds and in order, `insert_or_update` and `erase` keep the levels in
  -- use strictly in order: bids descend, asks ascend, and no price stands twice.
  pub insert_or_update-IsSorted :
      (b : FlatOrderBook) (price : ℤ) (qty : ℕ)
      → IsBounded max is_bid b
      → IsSorted is_bid (live b)
      → IsSorted is_bid (live (insert_or_update max is_bid b price qty))
        × IsSorted is_bid (live (erase max is_bid b price))
  insert_or_update-IsSorted b price qty v s = (
    subst (IsSorted is_bid) (sym (insert_or_update_refines max is_bid b price qty v))
        (upsert-IsSorted (ltb b.count max) price qty (live b) s),
    subst (IsSorted is_bid) (sym (erase_refines max is_bid b price v))
        (remove-IsSorted price (live b) s),
  )
