-- ===== src/Protocol/FlatBook/Levels.antt =====
-- The shifts as list operations.
use hft_fix_engine.Base.{
  ℕ, zero, suc, ◌+◌, ◌-◌, ◌≤◌, ◌≡◌, ◌∙◌, refl, sym, ap, ap₂, List, [], ◌∷◌, ◌++◌, append_assoc,
  take-snoc, shift_up, insert_shift, set_split, take-split, append-nil, drop-cons, get_or, set,
  take, drop, arith, Bool, ℤ, eqb_ℤ, ltb, if◌then◌else◌, Bool-cases, inl, inr,
}
use hft_fix_engine.Protocol.FlatBook.{
  PriceLevel, FlatOrderBook, blank_level, place_here, insert_at, insert_from, insert_or_update,
}
use hft_fix_engine.Protocol.FlatBook.Bounds.{IsBounded}

-- The levels in use.
abbrev pub live : FlatOrderBook → List PriceLevel
live b = take b.count b.levels

module _ (max : ℕ) (is_bid : Bool) where
  -- Insertion into a sorted list of levels, with `room` for one more.
  unfoldable pub upsert : Bool → ℤ → ℕ → List PriceLevel → List PriceLevel
  upsert room price qty [] =
      if room then record { price_scaled = price; quantity = qty } ∷ [] else []
  upsert room price qty (x ∷ xs) =
      if eqb_ℤ x.price_scaled price
      then record x { quantity = qty } ∷ xs
      else if place_here is_bid price x.price_scaled
      then (if room then record { price_scaled = price; quantity = qty } ∷ x ∷ xs else x ∷ xs)
      else x ∷ upsert room price qty xs

  -- The levels behind an insertion.
  live-insert_at :
      (b : FlatOrderBook) (i : ℕ) (level : PriceLevel)
      → IsBounded max is_bid b
      → i ≤ b.count
      → live (insert_at max is_bid b i level) ≡ (
          if ltb b.count max
          then take i b.levels ++ (level ∷ take (b.count - i) (drop i b.levels))
          else live b)
  unfolding insert_at
  live-insert_at b i level v le = elim (Bool-cases (ltb b.count max)) [
    | inl room ↦
        rw (room, insert_at)
          (ap (λ m. take m (set (shift_up blank_level b.levels i (b.count - i)) i level))
              (let e : b.count + 1 ≡ suc (i + (b.count - i)) = omega arith in e)
            ∙ insert_shift blank_level b.levels i (b.count - i) level (ground arith))
    | inr full ↦ rw (full, insert_at) refl
  ]

  -- From `i` on the loop is the list's insertion.
  live-insert_from :
      (b : FlatOrderBook) (price : ℤ) (qty i n : ℕ)
      → IsBounded max is_bid b
      → i + n ≡ b.count
      → live (insert_from max is_bid b price qty i n)
        ≡ take i b.levels ++ upsert (ltb b.count max) price qty (take n (drop i b.levels))
  unfolding insert_from upsert
  live-insert_from b price qty i zero v e =
      let new : PriceLevel = record { price_scaled = price; quantity = qty } in
      let c : b.count ≡ i = omega arith in
      let z : b.count - b.count ≡ 0 = omega arith in
      live-insert_at b b.count new v (omega arith) ∙ elim (Bool-cases (ltb b.count max)) [
        | inl room ↦
            rw room (ap₂ (λ j m. take j b.levels ++ (new ∷ take m (drop b.count b.levels))) c z)
        | inr full ↦ rw full (ap (λ j. take j b.levels) c ∙ sym (append-nil (take i b.levels)))
      ]
  live-insert_from b price qty i (suc n) v e =
      let x = get_or b.levels i blank_level in
      let new : PriceLevel = record { price_scaled = price; quantity = qty } in
      let d : take (suc n) (drop i b.levels) ≡ x ∷ take n (drop (i + 1) b.levels) =
        ap (take (suc n)) (drop-cons blank_level b.levels i (omega (arith, v.storage, v.depth)))
        ∙ ap (λ j. x ∷ take n (drop j b.levels)) (let s : suc i ≡ i + 1 = omega arith in s) in
      elim (Bool-cases (eqb_ℤ x.price_scaled price)) [
        | inl same ↦
            rw (same, insert_from)
              (rw d (
                rw (same, upsert)
                  (ap (λ m. take m (set b.levels i (record x { quantity = qty }))) (sym e)
                    ∙ set_split b.levels i n (record x { quantity = qty })
                        (omega (arith, v.storage, v.depth)))))
        | inr other ↦ elim (Bool-cases (place_here is_bid price x.price_scaled)) [
          | inl place ↦
              rw (other, place, insert_from)
                (rw d (
                  rw (other, place, upsert)
                    (live-insert_at b i new v (omega arith) ∙ elim (Bool-cases (ltb b.count max)) [
                      | inl room ↦ rw room (
                          ap (λ m. take i b.levels ++ (new ∷ take m (drop i b.levels)))
                            (let s : b.count - i ≡ suc n = omega arith in s)
                          ∙ ap (λ l. take i b.levels ++ (new ∷ l)) d)
                      | inr full ↦ rw full (
                          ap (λ m. take m b.levels) (sym e)
                          ∙ take-split i (suc n) b.levels
                          ∙ ap (λ l. take i b.levels ++ l) d)
                    ])))
          | inr on ↦
              rw (other, on, insert_from)
                (rw d (
                  rw (other, on, upsert)
                    (live-insert_from b price qty (i + 1) n v (omega arith)
                      ∙ ap
                          (λ l.
                            l
                            ++ upsert (ltb b.count max) price qty (take n (drop (i + 1) b.levels)))
                          (ap (λ j. take j b.levels) (let s : i + 1 ≡ suc i = omega arith in s)
                            ∙ take-snoc blank_level i b.levels (omega (arith, v.storage, v.depth)))
                      ∙ append_assoc (take i b.levels) (x ∷ []) _)))
        ]
      ]

  -- On an array within its bounds, the shifting loop of `insert_or_update` is insertion into the
  -- list of the levels in use: a level at the price takes the quantity, else a new one goes before
  -- the first level that it beats, and nothing changes if the array is full.
  pub insert_or_update_refines :
      (b : FlatOrderBook) (price : ℤ) (qty : ℕ)
      → IsBounded max is_bid b
      → live (insert_or_update max is_bid b price qty) ≡ upsert (ltb b.count max) price qty (live b)
  unfolding insert_or_update
  insert_or_update_refines b price qty v = live-insert_from b price qty 0 b.count v (omega arith)
