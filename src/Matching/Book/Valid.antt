-- ===== src/Matching/Book/Valid.antt =====
-- The invariant of a book, and what one call of `submit_order` does to it.
use hft_fix_engine.Base.{
  ℕ, ◌<◌, List, [], ◌∷◌, pos, ◌<ℤ◌, All, All-map, inl, inr, Bool-cases, ltb→lt, ltb, eqb_ℤ, to_u32,
}
use hft_fix_engine.Protocol.ParsedOrder.{ParsedOrder}
use hft_fix_engine.Matching.Book.{
  MatchingBook, LimitOrderEntry, TradeExecution, Side, buy, sell, place_rest, submit_order,
}
use hft_fix_engine.Matching.Book.Spec.{Filled, settled, settle_order, buy_fill, sell_fill}
use hft_fix_engine.Matching.Book.Refine.{submit_order-settle_order}
use hft_fix_engine.Matching.Book.Fill.{
  IsSorted, IsOpen, fill-All, fill-IsSorted, fill-IsOpen, fill-Beyond,
}
use hft_fix_engine.Matching.Book.Priority.{insert_sorted-All, insert_sorted-IsSorted}

-- The book is sorted on both sides, holds no empty entry, and no bid reaches an ask.
pub record IsValid (b : MatchingBook) : Type 0 where
  pub bids_sorted : IsSorted buy b.bids
  pub asks_sorted : IsSorted sell b.asks
  pub bids_open : All IsOpen b.bids
  pub asks_open : All IsOpen b.asks
  pub uncrossed : All (λ x. All (λ y. x.price <ℤ y.price) b.asks) b.bids

place_rest-IsSorted :
    (side : Side) (order : ParsedOrder) (left : ℕ) (own : List LimitOrderEntry)
    → IsSorted side own
    → IsSorted side (place_rest side order left own)
unfolding place_rest
place_rest-IsSorted side order left own s = elim (Bool-cases (ltb 0 left)) [
  | inl e ↦ rw (e, place_rest) (insert_sorted-IsSorted side _ own s)
  | inr e ↦ rw (e, place_rest) s
]

-- What holds of the resting entry, if there is one, and of the others holds of all.
place_rest-All :
    (P : LimitOrderEntry → Type 0) (side : Side) (order : ParsedOrder) (left : ℕ)
    (own : List LimitOrderEntry)
    → (0 < left
        → P (record {
          cl_ord_id = order.cl_ord_id;
          side = order.side;
          price = order.price;
          remaining_qty = left;
          seq_num = order.seq_num;
        }))
    → All P own
    → All P (place_rest side order left own)
unfolding place_rest
place_rest-All P side order left own p h = elim (Bool-cases (ltb 0 left)) [
  | inl e ↦ rw (e, place_rest) (insert_sorted-All side _ P own (p (ltb→lt 0 left e)) h)
  | inr e ↦ rw (e, place_rest) h
]

-- Quantifiers of the uncrossed condition, the other way round.
All-swap :
    (bids asks : List LimitOrderEntry)
    → All (λ x. All (λ y. x.price <ℤ y.price) asks) bids
    → All (λ y. All (λ x. x.price <ℤ y.price) bids) asks
All-swap bids [] h = tt
All-swap bids (y ∷ ys) h = (
  All-map _ (λ x. x.price <ℤ y.price) bids (λ x k. k.0) h,
  All-swap bids ys (All-map _ (λ x. All (λ z. x.price <ℤ z.price) ys) bids (λ x k. k.1) h),
)

All-unswap :
    (bids asks : List LimitOrderEntry)
    → All (λ y. All (λ x. x.price <ℤ y.price) bids) asks
    → All (λ x. All (λ y. x.price <ℤ y.price) asks) bids
All-unswap [] asks h = tt
All-unswap (x ∷ xs) asks h = (
  All-map _ (λ y. x.price <ℤ y.price) asks (λ y k. k.0) h,
  All-unswap xs asks (All-map _ (λ y. All (λ z. z.price <ℤ y.price) xs) asks (λ y k. k.1) h),
)

module _ (b : MatchingBook) (order : ParsedOrder) (trades : List TradeExecution) (counter ts : ℕ)
    (v : IsValid b) where
  bought : Filled
  bought = buy_fill b order trades counter ts

  sold : Filled
  sold = sell_fill b order trades counter ts

  settled_buy-IsValid :
      IsValid
        (settled b order trades counter ts buy bought
          (place_rest buy order bought.left b.bids)
          bought.book).book
  unfolding bought
  settled_buy-IsValid = record {
    bids_sorted = place_rest-IsSorted buy order bought.left b.bids v.bids_sorted;
    asks_sorted = fill-IsSorted buy order.price sell (to_u32 order.quantity) b.asks v.asks_sorted;
    bids_open = place_rest-All IsOpen buy order bought.left b.bids (λ h. h) v.bids_open;
    asks_open = fill-IsOpen buy order.price (to_u32 order.quantity) b.asks v.asks_open;
    uncrossed =
        place_rest-All (λ x. All (λ y. x.price <ℤ y.price) bought.book) buy order bought.left b.bids
          (fill-Beyond buy order.price (to_u32 order.quantity) b.asks v.asks_sorted)
          (All-map _ _ b.bids
            (λ x h. fill-All buy order.price (λ q. x.price <ℤ q) (to_u32 order.quantity) b.asks h)
            v.uncrossed);
  }

  settled_sell-IsValid :
      IsValid
        (settled b order trades counter ts sell sold sold.book
          (place_rest sell order sold.left b.asks)).book
  unfolding sold
  settled_sell-IsValid = record {
    bids_sorted = fill-IsSorted sell order.price buy (to_u32 order.quantity) b.bids v.bids_sorted;
    asks_sorted = place_rest-IsSorted sell order sold.left b.asks v.asks_sorted;
    bids_open = fill-IsOpen sell order.price (to_u32 order.quantity) b.bids v.bids_open;
    asks_open = place_rest-All IsOpen sell order sold.left b.asks (λ h. h) v.asks_open;
    uncrossed = All-unswap sold.book (place_rest sell order sold.left b.asks) (
        place_rest-All (λ y. All (λ x. x.price <ℤ y.price) sold.book) sell order sold.left b.asks
          (fill-Beyond sell order.price (to_u32 order.quantity) b.bids v.bids_sorted)
          (All-map _ _ b.asks
            (λ y h. fill-All sell order.price (λ q. q <ℤ y.price) (to_u32 order.quantity) b.bids h)
            (All-swap b.bids b.asks v.uncrossed)));
  }

  -- On a valid book `submit_order` keeps both sides sorted and free of empty entries, and leaves no
  -- bid at or above an ask, whatever the order's side, price and quantity.
  pub submit_order-IsValid : IsValid (submit_order b order trades counter ts).book
  unfolding settle_order bought sold
  submit_order-IsValid =
      rw (submit_order-settle_order b order trades counter ts)
        (elim (Bool-cases (eqb_ℤ order.side (pos 1))) [
          | inl e ↦ rw (e, settle_order) settled_buy-IsValid
          | inr e ↦ elim (Bool-cases (eqb_ℤ order.side (pos 2))) [
            | inl e' ↦ rw (e, e', settle_order) settled_sell-IsValid
            | inr e' ↦ rw (e, e', settle_order) v
          ]
        ])
