-- ===== src/Matching/ZeroAlloc/Depth.antt =====
-- include/hft/matching/ZeroAllocHftOrderBook.hpp: the queries.
use hft_fix_engine.Base.{ℕ, ◌%◌, ◌^◌, ℤ, pos, get_or, ltb, if◌then◌else◌}
use hft_fix_engine.Matching.ZeroAlloc.Side.{BookSide, level_at}
use hft_fix_engine.Matching.ZeroAlloc.Book.{ZeroAllocHftOrderBook}

-- What the queries read off a side, 0 behind its last level.
unfoldable pub level_price : BookSide → ℕ → ℤ
level_price s index =
    if ltb index s.level_count then (level_at s (get_or s.levels index 0)).price else pos 0

unfoldable pub level_qty : BookSide → ℕ → ℕ
level_qty s index =
    if ltb index s.level_count then (level_at s (get_or s.levels index 0)).cached_total_qty else 0

unfoldable pub level_order_count : BookSide → ℕ → ℕ
level_order_count s index =
    if ltb index s.level_count
    then (level_at s (get_or s.levels index 0)).order_count % 2 ^ 32
    else 0

module _ (b : ZeroAllocHftOrderBook) where
  unfoldable pub best_bid_price : ℤ
  unfolding level_price
  best_bid_price = level_price b.bids 0

  unfoldable pub best_bid_qty : ℕ
  unfolding level_qty
  best_bid_qty = level_qty b.bids 0

  unfoldable pub best_ask_price : ℤ
  unfolding level_price
  best_ask_price = level_price b.asks 0

  unfoldable pub best_ask_qty : ℕ
  unfolding level_qty
  best_ask_qty = level_qty b.asks 0

  unfoldable pub get_bid_level_price : ℕ → ℤ
  unfolding level_price
  get_bid_level_price index = level_price b.bids index

  unfoldable pub get_bid_level_qty : ℕ → ℕ
  unfolding level_qty
  get_bid_level_qty index = level_qty b.bids index

  unfoldable pub get_bid_level_order_count : ℕ → ℕ
  unfolding level_order_count
  get_bid_level_order_count index = level_order_count b.bids index

  unfoldable pub get_ask_level_price : ℕ → ℤ
  unfolding level_price
  get_ask_level_price index = level_price b.asks index

  unfoldable pub get_ask_level_qty : ℕ → ℕ
  unfolding level_qty
  get_ask_level_qty index = level_qty b.asks index

  unfoldable pub get_ask_level_order_count : ℕ → ℕ
  unfolding level_order_count
  get_ask_level_order_count index = level_order_count b.asks index
