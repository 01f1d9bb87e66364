-- ===== src/Matching/Book.antt =====
-- include/hft/matching/MatchingEngine.hpp, `MatchingBook`: one symbol's bids and asks, the matching
-- loops of `submit_order` and the sorted insertion of what is left. The buy and the sell branch of
-- the source are mirror images: they are one definition over the side, applied at each side.
pub mod Spec
pub mod Fill
pub mod Priority
pub mod Valid
pub mod Reports
pub mod Trades
pub mod Refine
mod Tests
use hft_fix_engine.Base.{
  ℕ, suc, ◌+◌, ◌-◌, ◌≡◌, min, Bool, true, false, List, [], ◌∷◌, ◌++◌, Option, none, some, length, ℤ,
  pos, ltb_ℤ, eqb_ℤ, to_u32, ◌==◌, ltb, if◌then◌else◌, loop, Bytes, add_u64,
}
use hft_fix_engine.Protocol.ParsedOrder.{ParsedOrder}

pub record TradeExecution : Type 0 where
  pub trade_id : ℕ
  pub symbol : Bytes
  pub buy_cl_ord_id : Bytes
  pub sell_cl_ord_id : Bytes
  pub match_price : ℤ
  pub match_qty : ℕ
  pub execution_timestamp_ns : ℕ

pub record LimitOrderEntry : Type 0 where
  pub cl_ord_id : Bytes
  pub side : ℤ
  pub price : ℤ
  pub remaining_qty : ℕ
  pub seq_num : ℕ

pub record MatchingBook : Type 0 where
  pub symbol : Bytes
  pub bids : List LimitOrderEntry
  pub asks : List LimitOrderEntry
  pub total_trades : ℕ
  pub total_volume : ℕ

-- The constructor.
unfoldable pub empty_book : Bytes → MatchingBook
empty_book symbol = record {
  symbol = symbol;
  bids = [];
  asks = [];
  total_trades = 0;
  total_volume = 0;
}

-- The side of the incoming order.
pub data Side : Type 0 where
  buy sell : Side

-- `order.price < best_ask.price` and `order.price > best_bid.price`: the price limit is reached.
abbrev pub beyond : Side → ℤ → ℤ → Bool
beyond buy p best = ltb_ℤ p best
beyond sell p best = ltb_ℤ best p

-- What the matching loop reads and writes: the passive side of the book, the quantity left, the
-- caller's `trades` and `trade_counter`, and the book's counters.
pub record Match : Type 0 where
  pub passive : List LimitOrderEntry
  pub remaining_qty : ℕ
  pub trades : List TradeExecution
  pub trade_counter : ℕ
  pub total_trades : ℕ
  pub total_volume : ℕ
  pub matched : Bool

module _ (side : Side) (order : ParsedOrder) (symbol : Bytes) (timestamp_ns : ℕ) where
  -- The report of a match: the aggressor's identifier stands on its own side.
  abbrev pub execution : ℕ → LimitOrderEntry → ℕ → TradeExecution
  execution id best match_qty = record {
    trade_id = id;
    symbol = symbol;
    buy_cl_ord_id = elim side [ buy ↦ order.cl_ord_id | sell ↦ best.cl_ord_id ];
    sell_cl_ord_id = elim side [ buy ↦ best.cl_ord_id | sell ↦ order.cl_ord_id ];
    match_price = best.price;
    match_qty = match_qty;
    execution_timestamp_ns = timestamp_ns;
  }

  -- The body of the loop at the best passive entry. Neither subtraction falls below 0.
  unfoldable pub execute : LimitOrderEntry → List LimitOrderEntry → Match → Match
  execute best rest m =
      let match_qty = min m.remaining_qty best.remaining_qty in
      let left = best.remaining_qty - match_qty in
      record {
        passive = if left == 0 then rest else (record best { remaining_qty = left } ∷ rest);
        remaining_qty = m.remaining_qty - match_qty;
        trades = m.trades ++ (execution (add_u64 m.trade_counter 1) best match_qty ∷ []);
        trade_counter = add_u64 m.trade_counter 1;
        total_trades = add_u64 m.total_trades 1;
        total_volume = add_u64 m.total_volume match_qty;
        matched = true;
      }

  unfoldable pub match_at : List LimitOrderEntry → Match → Option Match
  match_at [] m = none
  match_at (best ∷ rest) m =
      if m.remaining_qty == 0
      then none
      else if beyond side order.price best.price
      then none
      else some (execute best rest m)

  -- One round of the loop, `none` where its condition or the `break` leaves it.
  unfoldable pub match_round : Match → Option Match
  unfolding match_at
  match_round m = match_at m.passive m

  -- Each round erases an entry or fills the order, so the depth and two more rounds are enough.
  unfoldable pub match_loop : Match → Match
  unfolding loop match_round
  match_loop m = loop (length m.passive + 2) match_round m

-- The comparison that the book is kept by: descending bids, ascending asks.
abbrev pub comes_before : Side → LimitOrderEntry → LimitOrderEntry → Bool
comes_before buy a b = ltb_ℤ b.price a.price
comes_before sell a b = ltb_ℤ a.price b.price

-- `std::upper_bound` and `insert`: before the first entry that the new one comes before.
unfoldable pub insert_sorted : Side → LimitOrderEntry → List LimitOrderEntry → List LimitOrderEntry
insert_sorted side entry [] = entry ∷ []
insert_sorted side entry (x ∷ xs) =
    if comes_before side entry x then entry ∷ x ∷ xs else x ∷ insert_sorted side entry xs

-- "Rest of the order placed on its book."
unfoldable pub place_rest : Side → ParsedOrder → ℕ → List LimitOrderEntry → List LimitOrderEntry
unfolding insert_sorted
place_rest side order remaining own =
    if ltb 0 remaining
    then insert_sorted side
        (record {
          cl_ord_id = order.cl_ord_id;
          side = order.side;
          price = order.price;
          remaining_qty = remaining;
          seq_num = order.seq_num;
        })
        own
    else own

-- `submit_order` returns the book, the caller's `trades` and `trade_counter`, and its result.
pub record Submitted : Type 0 where
  pub book : MatchingBook
  pub trades : List TradeExecution
  pub trade_counter : ℕ
  pub matched : Bool

abbrev start : MatchingBook → List LimitOrderEntry → ParsedOrder → List TradeExecution → ℕ → Match
start b passive order trades counter = record {
  passive = passive;
  remaining_qty = to_u32 order.quantity;
  trades = trades;
  trade_counter = counter;
  total_trades = b.total_trades;
  total_volume = b.total_volume;
  matched = false;
}

-- The branch for `order.side == 1`.
unfoldable pub submit_buy : MatchingBook → ParsedOrder → List TradeExecution → ℕ → ℕ → Submitted
unfolding match_loop place_rest
submit_buy b order trades counter timestamp_ns =
    let m = match_loop buy order b.symbol timestamp_ns (start b b.asks order trades counter) in
    record {
      book = record {
        symbol = b.symbol;
        bids = place_rest buy order m.remaining_qty b.bids;
        asks = m.passive;
        total_trades = m.total_trades;
        total_volume = m.total_volume;
      };
      trades = m.trades;
      trade_counter = m.trade_counter;
      matched = m.matched;
    }

-- The branch for `order.side == 2`.
unfoldable pub submit_sell : MatchingBook → ParsedOrder → List TradeExecution → ℕ → ℕ → Submitted
unfolding match_loop place_rest
submit_sell b order trades counter timestamp_ns =
    let m = match_loop sell order b.symbol timestamp_ns (start b b.bids order trades counter) in
    record {
      book = record {
        symbol = b.symbol;
        bids = m.passive;
        asks = place_rest sell order m.remaining_qty b.asks;
        total_trades = m.total_trades;
        total_volume = m.total_volume;
      };
      trades = m.trades;
      trade_counter = m.trade_counter;
      matched = m.matched;
    }

-- Any other side leaves everything as it was.
unfoldable pub submit_order : MatchingBook → ParsedOrder → List TradeExecution → ℕ → ℕ → Submitted
unfolding submit_buy submit_sell
submit_order b order trades counter timestamp_ns =
    if eqb_ℤ order.side (pos 1)
    then submit_buy b order trades counter timestamp_ns
    else if eqb_ℤ order.side (pos 2)
    then submit_sell b order trades counter timestamp_ns
    else record { book = b; trades = trades; trade_counter = counter; matched = false }
