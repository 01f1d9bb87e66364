-- ===== src/Protocol/FlatBook/Removal.antt =====
-- The shift down as the removal from a list.
use hft_fix_engine.Base.{
  ℕ, zero, suc, ◌+◌, ◌-◌, ◌≡◌, ◌∙◌, sym, ap, ap₂, List, [], ◌∷◌, ◌++◌, append_assoc, take-snoc,
  take-shift_down, shift_down, append-nil, drop-cons, get_or, take, drop, arith, Bool, ℤ, eqb_ℤ,
  if◌then◌else◌, Bool-cases, inl, inr,
}
use hft_fix_engine.Protocol.FlatBook.{PriceLevel, FlatOrderBook, blank_level, erase_from, erase}
use hft_fix_engine.Protocol.FlatBook.Bounds.{IsBounded}
use hft_fix_engine.Protocol.FlatBook.Levels.{live}

-- Removal of the first level at a price.
unfoldable pub remove : ℤ → List PriceLevel → List PriceLevel
remove price [] = []
remove price (x ∷ xs) = if eqb_ℤ x.price_scaled price then xs else x ∷ remove price xs

module _ (max : ℕ) (is_bid : Bool) where
  live-erase_from :
      (b : FlatOrderBook) (price : ℤ) (i n : ℕ)
      → IsBounded max is_bid b
      → i + n ≡ b.count
      → live (erase_from max is_bid b price i n)
        ≡ take i b.levels ++ remove price (take n (drop i b.levels))
  unfolding erase_from remove
  live-erase_from b price i zero v e =
      ap (λ j. take j b.levels) (let c : b.count ≡ i = omega arith in c)
      ∙ sym (append-nil (take i b.levels))
  live-erase_from b price i (suc n) v e =
      let x = get_or b.levels i blank_level in
      let d : take (suc n) (drop i b.levels) ≡ x ∷ take n (drop (i + 1) b.levels) =
        ap (take (suc n)) (drop-cons blank_level b.levels i (omega (arith, v.storage, v.depth)))
        ∙ ap (λ j. x ∷ take n (drop j b.levels)) (let s : suc i ≡ i + 1 = omega arith in s) in
      elim (Bool-cases (eqb_ℤ x.price_scaled price)) [
        | inl same ↦
            rw (same, erase_from)
              (rw d (
                rw (same, remove)
                  (ap₂ (λ m k. take m (shift_down blank_level b.levels i k))
                      (let s : b.count - 1 ≡ i + n = omega arith in s)
                      (let s : b.count - 1 - i ≡ n = omega arith in s)
                    ∙ take-shift_down blank_level b.levels i n
                        (omega (arith, v.storage, v.depth)))))
        | inr other ↦
            rw (other, erase_from)
              (rw d (
                rw (other, remove)
                  (live-erase_from b price (i + 1) n v (omega arith)
                    ∙ ap (λ l. l ++ remove price (take n (drop (i + 1) b.levels)))
                        (ap (λ j. take j b.levels) (let s : i + 1 ≡ suc i = omega arith in s)
                          ∙ take-snoc blank_level i b.levels (omega (arith, v.storage, v.depth)))
                    ∙ append_assoc (take i b.levels) (x ∷ []) _)))
      ]

  -- On an array within its bounds, the shifting loop of `erase` removes the first level at the price
  -- from the list of the levels in use, and leaves the list as it is if there is none.
  pub erase_refines :
      (b : FlatOrderBook) (price : ℤ)
      → IsBounded max is_bid b
      → live (erase max is_bid b price) ≡ remove price (live b)
  unfolding erase
  erase_refines b price v = live-erase_from b price 0 b.count v (omega arith)
