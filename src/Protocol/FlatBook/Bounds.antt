-- ===== src/Protocol/FlatBook/Bounds.antt =====
-- No operation writes or counts past the array.
use hft_fix_engine.Base.{
  ℕ, zero, suc, ◌+◌, ◌-◌, ◌≤◌, ◌≡◌, ℤ, Bool, length, length-set, length-replicate, shift_up,
  length-shift_up, length-shift_down, get_or, arith,
}
use hft_fix_engine.Protocol.FlatBook.{
  PriceLevel, FlatOrderBook, blank_level, empty_side, clear, insert_at, insert_from,
  insert_or_update, erase_from, erase,
}

module _ (max : ℕ) (is_bid : Bool) where
  pub record IsBounded (b : FlatOrderBook) : Type 0 where
    pub storage : length b.levels ≡ max
    pub depth : b.count ≤ max

  pub empty_side-IsBounded : IsBounded (empty_side max is_bid)
  unfolding empty_side
  empty_side-IsBounded = record { storage = length-replicate max blank_level; depth = omega arith }

  pub clear-IsBounded : (b : FlatOrderBook) → IsBounded b → IsBounded (clear max is_bid b)
  unfolding clear
  clear-IsBounded b v = record { storage = v.storage; depth = omega arith }

  insert_at-IsBounded :
      (b : FlatOrderBook) (i : ℕ) (level : PriceLevel)
      → IsBounded b
      → IsBounded (insert_at max is_bid b i level)
  unfolding insert_at
  insert_at-IsBounded b i level v = ground (
    arith,
    length-set (shift_up blank_level b.levels i (b.count - i)) i level,
    length-shift_up blank_level b.levels i (b.count - i),
  )

  insert_from-IsBounded :
      (b : FlatOrderBook) (price : ℤ) (qty i n : ℕ)
      → IsBounded b
      → IsBounded (insert_from max is_bid b price qty i n)
  unfolding insert_from
  insert_from-IsBounded b price qty i zero v = insert_at-IsBounded b b.count _ v
  insert_from-IsBounded b price qty i (suc n) v = ground (
    arith,
    insert_from-IsBounded b price qty (i + 1) n v,
    insert_at-IsBounded b i (record { price_scaled = price; quantity = qty }) v,
    length-set b.levels i (record (get_or b.levels i blank_level) { quantity = qty }),
  )

  pub insert_or_update-IsBounded :
      (b : FlatOrderBook) (price : ℤ) (qty : ℕ)
      → IsBounded b
      → IsBounded (insert_or_update max is_bid b price qty)
  unfolding insert_or_update
  insert_or_update-IsBounded b price qty v = insert_from-IsBounded b price qty 0 b.count v

  erase_from-IsBounded :
      (b : FlatOrderBook) (price : ℤ) (i n : ℕ)
      → IsBounded b
      → IsBounded (erase_from max is_bid b price i n)
  unfolding erase_from
  erase_from-IsBounded b price i zero v = v
  erase_from-IsBounded b price i (suc n) v = ground (
    arith,
    erase_from-IsBounded b price (i + 1) n v,
    length-shift_down blank_level b.levels i (b.count - 1 - i),
  )

  pub erase-IsBounded :
      (b : FlatOrderBook) (price : ℤ) → IsBounded b → IsBounded (erase max is_bid b price)
  unfolding erase
  erase-IsBounded b price v = erase_from-IsBounded b price 0 b.count v
