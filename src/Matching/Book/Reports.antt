-- ===== src/Matching/Book/Reports.antt =====
-- The reports of a row of fills: what each says, and what they say together.
use hft_fix_engine.Base.{
  ℕ, suc, ◌+◌, ◌-◌, ◌≡◌, refl, ap, ap₂, take, List, [], ◌∷◌, map, ℤ, pos, All, sum, length, arith,
  Bytes, add_u64,
}
use hft_fix_engine.Protocol.ParsedOrder.{ParsedOrder}
use hft_fix_engine.Matching.Book.{
  MatchingBook, LimitOrderEntry, TradeExecution, Side, buy, sell, execution,
}
use hft_fix_engine.Matching.Book.Spec.{Fill, fill, executions, fill_qty}
use hft_fix_engine.Matching.Book.Fill.{Ahead, IsSorted, opposite}

abbrev pub trade_qty : TradeExecution → ℕ
trade_qty t = t.match_qty

-- The value of `order.side` that selects the branch.
abbrev pub side_code : Side → ℤ
side_code buy = pos 1
side_code sell = pos 2

-- The side that an order rests on, and the side that it trades against.
abbrev pub own_side : Side → MatchingBook → List LimitOrderEntry
own_side buy b = b.bids
own_side sell b = b.asks

abbrev pub passive_side : Side → MatchingBook → List LimitOrderEntry
passive_side buy b = b.asks
passive_side sell b = b.bids

-- Reports numbered upwards from the counter, the counter being the last number given out.
abbrev pub Numbered : ℕ → List TradeExecution → Type 0
Numbered counter [] = Unit {0}
Numbered counter (t ∷ ts) = (t.trade_id ≡ add_u64 counter 1) × Numbered (add_u64 counter 1) ts

-- Prices that get no better along the list.
abbrev pub Worsening : Side → List TradeExecution → Type 0
Worsening side [] = Unit {0}
Worsening side (t ∷ ts) =
    All (λ u. Ahead (opposite side) t.match_price u.match_price) ts × Worsening side ts

-- The aggressor's identifier on its own side of each report, with the book's symbol and the time.
abbrev pub Signed : Side → ParsedOrder → Bytes → ℕ → TradeExecution → Type 0
Signed buy order symbol ts t =
    (t.buy_cl_ord_id ≡ order.cl_ord_id) × (t.symbol ≡ symbol) × (t.execution_timestamp_ns ≡ ts)
Signed sell order symbol ts t =
    (t.sell_cl_ord_id ≡ order.cl_ord_id) × (t.symbol ≡ symbol) × (t.execution_timestamp_ns ≡ ts)

-- The passive order that a report names, and its price; the same of an entry of the book.
abbrev pub taken_from : Side → TradeExecution → Bytes × ℤ
taken_from buy t = (t.sell_cl_ord_id, t.match_price)
taken_from sell t = (t.buy_cl_ord_id, t.match_price)

abbrev pub offered : LimitOrderEntry → Bytes × ℤ
offered x = (x.cl_ord_id, x.price)

execution-Signed :
    (side : Side) (order : ParsedOrder) (symbol : Bytes) (ts id : ℕ) (f : Fill)
    → Signed side order symbol ts (execution side order symbol ts id f.entry f.qty)
execution-Signed buy order symbol ts id f = (refl, refl, refl)
execution-Signed sell order symbol ts id f = (refl, refl, refl)

execution-taken_from :
    (side : Side) (order : ParsedOrder) (symbol : Bytes) (ts id : ℕ) (f : Fill)
    → taken_from side (execution side order symbol ts id f.entry f.qty) ≡ offered f.entry
execution-taken_from buy order symbol ts id f = refl
execution-taken_from sell order symbol ts id f = refl

-- The fills take the entries of the book from the front on, each entry once.
pub fill-take :
    (side : Side) (price : ℤ) (qty : ℕ) (book : List LimitOrderEntry)
    → let fs = (fill side price qty book).fills in
      map (λ f. offered f.entry) fs ≡ map offered (take (length fs) book)
unfolding fill
fill-take side price qty [] = refl
fill-take side price qty (x ∷ xs) = ground (arith, fill-take side price (qty - x.remaining_qty) xs)

module _ (side : Side) (order : ParsedOrder) (symbol : Bytes) (ts : ℕ) where
  abbrev pub reports : ℕ → List Fill → List TradeExecution
  reports = executions side order symbol ts

  pub length-reports : (c : ℕ) (fs : List Fill) → length (reports c fs) ≡ length fs
  unfolding executions
  length-reports c [] = refl
  length-reports c (f ∷ fs) = ap suc (length-reports (add_u64 c 1) fs)

  pub reports_qty :
      (c : ℕ) (fs : List Fill) → sum (map trade_qty (reports c fs)) ≡ sum (map fill_qty fs)
  unfolding executions
  reports_qty c [] = refl
  reports_qty c (f ∷ fs) = ap (λ n. f.qty + n) (reports_qty (add_u64 c 1) fs)

  pub reports-Numbered : (c : ℕ) (fs : List Fill) → Numbered c (reports c fs)
  unfolding executions
  reports-Numbered c [] = tt
  reports-Numbered c (f ∷ fs) = (refl, reports-Numbered (add_u64 c 1) fs)

  pub reports-Signed : (c : ℕ) (fs : List Fill) → All (Signed side order symbol ts) (reports c fs)
  unfolding executions
  reports-Signed c [] = tt
  reports-Signed c (f ∷ fs) =
      (execution-Signed side order symbol ts (add_u64 c 1) f, reports-Signed (add_u64 c 1) fs)

  pub reports-taken_from :
      (c : ℕ) (fs : List Fill)
      → map (taken_from side) (reports c fs) ≡ map (λ f. offered f.entry) fs
  unfolding executions
  reports-taken_from c [] = refl
  reports-taken_from c (f ∷ fs) =
      ap₂ (λ p ps. p ∷ ps) (execution-taken_from side order symbol ts (add_u64 c 1) f)
        (reports-taken_from (add_u64 c 1) fs)

  pub reports-All :
      (P : ℤ → Type 0) (c : ℕ) (fs : List Fill)
      → All (λ f. P f.entry.price) fs
      → All (λ t. P t.match_price) (reports c fs)
  unfolding executions
  reports-All P c [] h = tt
  reports-All P c (f ∷ fs) h = (h.0, reports-All P (add_u64 c 1) fs h.1)

  fill-All_fills :
      (P : ℤ → Type 0) (price : ℤ) (qty : ℕ) (book : List LimitOrderEntry)
      → All (λ x. P x.price) book
      → All (λ f. P f.entry.price) (fill side price qty book).fills
  unfolding fill
  fill-All_fills P price qty [] h = tt
  fill-All_fills P price qty (x ∷ xs) h =
      ground (arith, fill-All_fills P price (qty - x.remaining_qty) xs h.1)

  pub reports-Worsening :
      (c qty : ℕ) (book : List LimitOrderEntry)
      → IsSorted (opposite side) book
      → Worsening side (reports c (fill side order.price qty book).fills)
  unfolding fill executions
  reports-Worsening c qty [] s = tt
  reports-Worsening c qty (x ∷ xs) s = ground (
    arith,
    reports-Worsening (add_u64 c 1) (qty - x.remaining_qty) xs s.1,
    reports-All (λ p. Ahead (opposite side) x.price p) (add_u64 c 1)
        (fill side order.price (qty - x.remaining_qty) xs).fills
        (fill-All_fills (λ p. Ahead (opposite side) x.price p) order.price (qty - x.remaining_qty)
          xs s.0),
  )
