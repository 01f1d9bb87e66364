-- ===== src/Protocol/FlatBook.antt =====
-- include/hft/protocol/OrderBookRecoveryManager.hpp, `FlatOrderBook`: one side of a book in an array
-- of price levels, kept in order by shifting. `max` is MaxLevels; the array has that length.
pub mod Bounds
pub mod Levels
pub mod Removal
pub mod Sorted
mod Tests
use hft_fix_engine.Base.{
  ℕ, zero, suc, ◌+◌, ◌-◌, ℤ, pos, ltb_ℤ, eqb_ℤ, Bool, true, false, List, get_or, set, replicate,
  shift_up, shift_down, ltb, if◌then◌else◌,
}

pub record PriceLevel : Type 0 where
  pub price_scaled : ℤ
  pub quantity : ℕ

abbrev pub blank_level : PriceLevel
blank_level = record { price_scaled = pos 0; quantity = 0 }

pub record FlatOrderBook : Type 0 where
  pub levels : List PriceLevel
  pub count : ℕ

-- `place_here`: bids descend, asks ascend.
abbrev pub place_here : Bool → ℤ → ℤ → Bool
place_here true price here = ltb_ℤ here price
place_here false price here = ltb_ℤ price here

module _ (max : ℕ) (is_bid : Bool) where
  -- The constructor.
  unfoldable pub empty_side : FlatOrderBook
  empty_side = record { levels = replicate max blank_level; count = 0 }

  unfoldable pub clear : FlatOrderBook → FlatOrderBook
  clear b = record b { count = 0 }

  -- A new level at `i`, if there is room: the levels from there on move up.
  unfoldable pub insert_at : FlatOrderBook → ℕ → PriceLevel → FlatOrderBook
  insert_at b i level =
      if ltb b.count max
      then record {
        levels = set (shift_up blank_level b.levels i (b.count - i)) i level;
        count = b.count + 1;
      }
      else b

  -- The loop from `i` on, with `n` levels to go.
  unfoldable pub insert_from : FlatOrderBook → ℤ → ℕ → ℕ → ℕ → FlatOrderBook
  insert_from b price qty i zero =
      insert_at b b.count (record { price_scaled = price; quantity = qty })
  insert_from b price qty i (suc n) =
      let here = get_or b.levels i blank_level in
      let rest = insert_from b price qty (i + 1) n in
      if eqb_ℤ here.price_scaled price
      then record b { levels = set b.levels i (record here { quantity = qty }) }
      else if place_here is_bid price here.price_scaled
      then insert_at b i (record { price_scaled = price; quantity = qty })
      else rest

  unfoldable pub insert_or_update : FlatOrderBook → ℤ → ℕ → FlatOrderBook
  insert_or_update b price qty = insert_from b price qty 0 b.count

  -- The loop from `i` on, with `n` levels to go.
  unfoldable pub erase_from : FlatOrderBook → ℤ → ℕ → ℕ → FlatOrderBook
  erase_from b price i zero = b
  erase_from b price i (suc n) =
      let rest = erase_from b price (i + 1) n in
      if eqb_ℤ (get_or b.levels i blank_level).price_scaled price
      then record {
        levels = shift_down blank_level b.levels i (b.count - 1 - i);
        count = b.count - 1;
      }
      else rest

  unfoldable pub erase : FlatOrderBook → ℤ → FlatOrderBook
  erase b price = erase_from b price 0 b.count
