-- ===== src/Matching/Book/Spec.antt =====
-- What a price-time priority match is, by recursion on the passive side: no loop, no fuel. A fill
-- is a passive entry with the quantity that it trades.
use hft_fix_engine.Base.{
  ℕ, pos, to_u32, eqb_ℤ, false, ◌-◌, ◌<◌, ◌^◌, ◌≡◌, Bool, true, ◌||◌, List, [], ◌∷◌, ◌++◌, map, ℤ,
  ◌==◌, ltb, if◌then◌else◌, Bytes, add_u64, sum, length, arith,
}
use hft_fix_engine.Protocol.ParsedOrder.{ParsedOrder}
use hft_fix_engine.Matching.Book.{
  LimitOrderEntry, TradeExecution, MatchingBook, Submitted, Side, buy, sell, beyond, execution,
  Match, place_rest,
}

pub record Fill : Type 0 where
  pub entry : LimitOrderEntry
  pub qty : ℕ

-- The fills of a match, the passive side after it and the quantity that is left.
pub record Filled : Type 0 where
  pub fills : List Fill
  pub book : List LimitOrderEntry
  pub left : ℕ

unfoldable pub fill : Side → ℤ → ℕ → List LimitOrderEntry → Filled
fill side price qty [] = record { fills = []; book = []; left = qty }
fill side price qty (x ∷ xs) =
    let more = fill side price (qty - x.remaining_qty) xs in
    if qty == 0
    then record { fills = []; book = x ∷ xs; left = qty }
    else if beyond side price x.price
    then record { fills = []; book = x ∷ xs; left = qty }
    else if ltb qty x.remaining_qty
    then record {
      fills = record { entry = x; qty = qty } ∷ [];
      book = record x { remaining_qty = x.remaining_qty - qty } ∷ xs;
      left = 0;
    }
    else record {
      fills = record { entry = x; qty = x.remaining_qty } ∷ more.fills;
      book = more.book;
      left = more.left;
    }

abbrev pub fill_qty : Fill → ℕ
fill_qty f = f.qty

-- The reports of a row of fills, numbered from the trade counter on.
unfoldable pub executions : Side → ParsedOrder → Bytes → ℕ → ℕ → List Fill → List TradeExecution
executions side order symbol timestamp_ns counter [] = []
executions side order symbol timestamp_ns counter (f ∷ fs) =
    execution side order symbol timestamp_ns (add_u64 counter 1) f.entry f.qty
    ∷ executions side order symbol timestamp_ns (add_u64 counter 1) fs

-- A `uint64_t` counter after a row of additions.
unfoldable pub tally : ℕ → List ℕ → ℕ
tally n [] = n
tally n (k ∷ ks) = tally (add_u64 n k) ks

abbrev pub ones : List Fill → List ℕ
ones = map (λ f. 1)

abbrev pub is_nonempty : List Fill → Bool
is_nonempty [] = Bool.false
is_nonempty (f ∷ fs) = true

-- The state of the loop after a match.
abbrev pub after : Side → ParsedOrder → Bytes → ℕ → Match → Filled → Match
after side order symbol timestamp_ns m f = record {
  passive = f.book;
  remaining_qty = f.left;
  trades = m.trades ++ executions side order symbol timestamp_ns m.trade_counter f.fills;
  trade_counter = tally m.trade_counter (ones f.fills);
  total_trades = tally m.total_trades (ones f.fills);
  total_volume = tally m.total_volume (map fill_qty f.fills);
  matched = m.matched || is_nonempty f.fills;
}

-- What submitting an order means: match it against the other side, and rest what is left of it.
module _ (b : MatchingBook) (order : ParsedOrder) (trades : List TradeExecution)
    (counter timestamp_ns : ℕ) where
  abbrev pub buy_fill : Filled
  buy_fill = fill buy order.price (to_u32 order.quantity) b.asks

  abbrev pub sell_fill : Filled
  sell_fill = fill sell order.price (to_u32 order.quantity) b.bids

  abbrev pub settled : Side → Filled → List LimitOrderEntry → List LimitOrderEntry → Submitted
  settled side f bids asks = record {
    book = record {
      symbol = b.symbol;
      bids = bids;
      asks = asks;
      total_trades = tally b.total_trades (ones f.fills);
      total_volume = tally b.total_volume (map fill_qty f.fills);
    };
    trades = trades ++ executions side order b.symbol timestamp_ns counter f.fills;
    trade_counter = tally counter (ones f.fills);
    matched = is_nonempty f.fills;
  }

  unfoldable pub settle_order : Submitted
  settle_order =
      if eqb_ℤ order.side (pos 1)
      then settled buy buy_fill (place_rest buy order buy_fill.left b.bids) buy_fill.book
      else if eqb_ℤ order.side (pos 2)
      then settled sell sell_fill sell_fill.book (place_rest sell order sell_fill.left b.asks)
      else record { book = b; trades = trades; trade_counter = counter; matched = false }

-- A counter in range holds the sum modulo 2 ^ 64.
pub tally-sum : (n : ℕ) (ks : List ℕ) → n < 2 ^ 64 → tally n ks ≡ add_u64 n (sum ks)
unfolding tally
tally-sum n [] h = omega arith
tally-sum n (k ∷ ks) h = omega (arith, tally-sum (add_u64 n k) ks (omega arith))

pub sum-ones : (fs : List Fill) → sum (ones fs) ≡ length fs
sum-ones [] = omega arith
sum-ones (f ∷ fs) = omega (arith, sum-ones fs)
