-- ===== src/Matching/ZeroAlloc/Side.antt =====
-- include/hft/matching/ZeroAllocHftOrderBook.hpp: the levels of one side. `free_list` and `levels`
-- hold pointers, the indices of levels in the pool.
use hft_fix_engine.Base.{
  ℕ, suc, zero, ◌+◌, ◌-◌, ◌/◌, ℤ, ltb_ℤ, eqb_ℤ, Bool, List, [], ◌∷◌, Option, none, some, get_or,
  set, replicate, shift_up, shift_down, loop, ltb, ◌==◌, if◌then◌else◌,
}
use hft_fix_engine.Protocol.ParsedOrder.{ParsedOrder}
use hft_fix_engine.Matching.Book.{Side, buy, sell}
use hft_fix_engine.Matching.ZeroAlloc.Level.{
  PriceLevel, blank_level, max_book_levels, reset, push_back_order,
}

pub record BookSide : Type 0 where
  pub pool : List PriceLevel
  pub free_list : List ℕ
  pub free_count : ℕ
  pub levels : List ℕ
  pub level_count : ℕ

-- `from`, `from + 1` and so on.
abbrev pub indices : ℕ → ℕ → List ℕ
indices from zero = []
indices from (suc n) = from ∷ indices (from + 1) n

-- The constructor's loop: every level is free.
unfoldable pub empty_side : BookSide
empty_side = record {
  pool = replicate max_book_levels blank_level;
  free_list = indices 0 max_book_levels;
  free_count = max_book_levels;
  levels = replicate max_book_levels 0;
  level_count = 0;
}

abbrev pub level_at : BookSide → ℕ → PriceLevel
level_at s p = get_or s.pool p blank_level

-- A write through a pointer.
abbrev pub put_level : BookSide → ℕ → PriceLevel → BookSide
put_level s p lvl = record s { pool = set s.pool p lvl }

-- `acquire_bid_level` and `acquire_ask_level`.
unfoldable pub acquire_level : BookSide → Option (ℕ × BookSide)
acquire_level s =
    let p = get_or s.free_list (s.free_count - 1) 0 in
    if s.free_count == 0
    then none
    else some (p, put_level (record s { free_count = s.free_count - 1 }) p (reset (level_at s p)))

-- `release_bid_level` and `release_ask_level`, for a pointer that is not null.
unfoldable pub release_level : BookSide → ℕ → BookSide
release_level s p =
    if ltb s.free_count max_book_levels
    then record s { free_list = set s.free_list s.free_count p; free_count = s.free_count + 1 }
    else s

-- The shift left over the first pointer.
unfoldable pub drop_first : BookSide → BookSide
drop_first s = record s {
  levels = shift_down 0 s.levels 0 (s.level_count - 1);
  level_count = s.level_count - 1;
}

-- The binary search: its bounds, and the position of an equal price if one is met.
pub record Search : Type 0 where
  pub low : ℕ
  pub high : ℕ
  pub found : Option ℕ

-- `is_better`, on the side where the order rests.
abbrev pub is_better : Side → ℤ → ℤ → Bool
is_better buy price here = ltb_ℤ here price
is_better sell price here = ltb_ℤ price here

abbrev pub price_at : BookSide → ℕ → ℤ
price_at s i = (level_at s (get_or s.levels i 0)).price

abbrev pub search_between : Side → BookSide → ℤ → ℕ → ℕ → Search
search_between side s price low high =
    let mid = low + (high - low) / 2 in
    if eqb_ℤ (price_at s mid) price
    then record { low = low; high = high; found = some mid }
    else if is_better side price (price_at s mid)
    then record { low = low; high = mid; found = none }
    else record { low = mid + 1; high = high; found = none }

-- One round: `none` where the bounds meet, or at the `return` for an equal price.
unfoldable pub search_round : Side → BookSide → ℤ → Search → Option Search
search_round side s price r = elim r.found [
  | some mid ↦ none
  | none ↦ if ltb r.low r.high then some (search_between side s price r.low r.high) else none
]

-- The bounds come closer in each round, so two rounds more than there are levels are enough.
unfoldable pub search_levels : Side → BookSide → ℤ → Search
unfolding loop search_round
search_levels side s price =
    loop (s.level_count + 2) (search_round side s price)
      (record { low = 0; high = s.level_count; found = none })

abbrev pub push_order : PriceLevel → ParsedOrder → ℕ → ℕ → PriceLevel
push_order lvl order qty ts =
    push_back_order lvl order.seq_num order.cl_ord_id order.side order.price qty ts

-- The pointers from `i` on move right, and `p` goes there.
unfoldable pub insert_pointer : BookSide → ℕ → ℕ → BookSide
insert_pointer s i p = record s {
  levels = set (shift_up 0 s.levels i (s.level_count - i)) i p;
  level_count = s.level_count + 1;
}

-- A new level at `insert_pos`, if there is one to be had.
unfoldable pub new_level : BookSide → ℕ → ParsedOrder → ℕ → ℕ → BookSide
unfolding acquire_level insert_pointer
new_level s insert_pos order qty ts =
    if ltb s.level_count max_book_levels
    then (elim (acquire_level s) [
      | none ↦ s
      | some (p, s') ↦
          put_level (insert_pointer s' insert_pos p) p
            (push_order (record (level_at s' p) { price = order.price }) order qty ts)
    ])
    else s

unfoldable pub add_to_book : Side → BookSide → ParsedOrder → ℕ → ℕ → BookSide
unfolding search_levels new_level
add_to_book side s order qty ts =
    let r = search_levels side s order.price in
    elim r.found [
      | some mid ↦
          let p = get_or s.levels mid 0 in put_level s p (push_order (level_at s p) order qty ts)
      | none ↦ new_level s r.low order qty ts
    ]
