-- ===== src/Matching/ZeroAlloc/Book.antt =====
-- include/hft/matching/ZeroAllocHftOrderBook.hpp: the matching loops of `submit_order` and the
-- queries. `out_trades` is `none` for a null pointer, else the caller's array.
use hft_fix_engine.Base.{
  ℕ, ◌+◌, ◌-◌, min, ℤ, pos, eqb_ℤ, to_u32, List, Option, none, some, get_or, set, replicate, loop,
  ltb, ◌==◌, ◌&&◌, if◌then◌else◌, Bytes, add_u64,
}
use hft_fix_engine.Protocol.ParsedOrder.{ParsedOrder}
use hft_fix_engine.Matching.Book.{Side, buy, sell, beyond}
use hft_fix_engine.Matching.ZeroAlloc.Level.{
  BookOrder, PriceLevel, max_cl_ord_id_len, max_book_levels, copy_sv_to_char, copy_char_to_char,
  front_order, take_from_front, pop_front_order,
}
use hft_fix_engine.Matching.ZeroAlloc.Side.{
  BookSide, empty_side, level_at, put_level, release_level, drop_first, add_to_book,
}

pub record ZeroAllocTrade : Type 0 where
  pub trade_id : ℕ
  pub symbol : Bytes
  pub buy_cl_ord_id : Bytes
  pub sell_cl_ord_id : Bytes
  pub match_price : ℤ
  pub match_qty : ℕ
  pub timestamp_ns : ℕ

abbrev pub blank_trade : ZeroAllocTrade
blank_trade = record {
  trade_id = 0;
  symbol = replicate 16 0;
  buy_cl_ord_id = replicate max_cl_ord_id_len 0;
  sell_cl_ord_id = replicate max_cl_ord_id_len 0;
  match_price = pos 0;
  match_qty = 0;
  timestamp_ns = 0;
}

-- What the reports of a call go to: the array, how many are in it, and the caller's counter.
pub record Output : Type 0 where
  pub out_trades : Option (List ZeroAllocTrade)
  pub trades_generated : ℕ
  pub trade_counter : ℕ

-- What the inner loop reads and writes, through `best_level` and otherwise.
pub record Sweep : Type 0 where
  pub level : PriceLevel
  pub remaining_qty : ℕ
  pub output : Output
  pub total_trades : ℕ
  pub total_volume : ℕ

-- What the outer loop reads and writes.
pub record Match : Type 0 where
  pub passive : BookSide
  pub remaining_qty : ℕ
  pub output : Output
  pub total_trades : ℕ
  pub total_volume : ℕ

module _ (side : Side) (symbol : Bytes) (order : ParsedOrder) (max_trades timestamp_ns : ℕ) where
  -- The report of a match, over what stood in its place of the array.
  abbrev pub report : ZeroAllocTrade → ℕ → BookOrder → ℕ → ZeroAllocTrade
  report old id passive qty = record {
    trade_id = id;
    symbol = copy_char_to_char old.symbol symbol 15;
    buy_cl_ord_id = elim side [
      | buy ↦ copy_sv_to_char old.buy_cl_ord_id order.cl_ord_id (max_cl_ord_id_len - 1)
      | sell ↦ copy_char_to_char old.buy_cl_ord_id passive.cl_ord_id (max_cl_ord_id_len - 1)
    ];
    sell_cl_ord_id = elim side [
      | buy ↦ copy_char_to_char old.sell_cl_ord_id passive.cl_ord_id (max_cl_ord_id_len - 1)
      | sell ↦ copy_sv_to_char old.sell_cl_ord_id order.cl_ord_id (max_cl_ord_id_len - 1)
    ];
    match_price = passive.price;
    match_qty = qty;
    timestamp_ns = timestamp_ns;
  }

  abbrev pub report_into : Option (List ZeroAllocTrade) → Output → BookOrder → ℕ → Output
  report_into none o passive qty = o
  report_into (some trades) o passive qty =
      if ltb o.trades_generated max_trades
      then record {
        out_trades = some (
            set trades o.trades_generated (
              report (get_or trades o.trades_generated blank_trade) (add_u64 o.trade_counter 1)
                passive qty));
        trades_generated = o.trades_generated + 1;
        trade_counter = add_u64 o.trade_counter 1;
      }
      else o

  -- The report is written only if the array is there and has room.
  unfoldable pub write_report : Output → BookOrder → ℕ → Output
  write_report o passive qty = report_into o.out_trades o passive qty

  -- The body of the inner loop.
  unfoldable pub match_front : Sweep → Sweep
  unfolding front_order take_from_front pop_front_order write_report
  match_front m =
      let passive = front_order m.level in
      let match_qty = min m.remaining_qty passive.remaining_qty in
      let hit = take_from_front m.level match_qty in
      record {
        level = if passive.remaining_qty - match_qty == 0 then pop_front_order hit else hit;
        remaining_qty = m.remaining_qty - match_qty;
        output = write_report m.output passive match_qty;
        total_trades = add_u64 m.total_trades 1;
        total_volume = add_u64 m.total_volume match_qty;
      }

  unfoldable pub sweep_round : Sweep → Option Sweep
  unfolding match_front
  sweep_round m =
      if m.level.order_count == 0
      then none
      else if m.remaining_qty == 0
      then none
      else some (match_front m)

  -- A round takes an order off the level or fills the incoming one.
  unfoldable pub sweep_level : Sweep → Sweep
  unfolding loop sweep_round
  sweep_level m = loop (m.level.order_count + 2) sweep_round m

  -- An emptied level is released, and its pointer dropped.
  abbrev pub close_level : BookSide → ℕ → ℕ → BookSide
  close_level s best order_count = if order_count == 0 then drop_first (release_level s best) else s

  abbrev pub match_level : Match → ℕ → Match
  match_level m best =
      let w = sweep_level (record {
        level = level_at m.passive best;
        remaining_qty = m.remaining_qty;
        output = m.output;
        total_trades = m.total_trades;
        total_volume = m.total_volume;
      }) in
      record {
        passive = close_level (put_level m.passive best w.level) best w.level.order_count;
        remaining_qty = w.remaining_qty;
        output = w.output;
        total_trades = w.total_trades;
        total_volume = w.total_volume;
      }

  unfoldable pub match_round : Match → Option Match
  unfolding sweep_level release_level drop_first
  match_round m =
      let best = get_or m.passive.levels 0 0 in
      if m.passive.level_count == 0
      then none
      else if m.remaining_qty == 0
      then none
      else if beyond side order.price (level_at m.passive best).price
      then none
      else some (match_level m best)

  -- A round empties the best level or fills the incoming order.
  unfoldable pub match_loop : Match → Match
  unfolding loop match_round
  match_loop m = loop (m.passive.level_count + 2) match_round m

pub record ZeroAllocHftOrderBook : Type 0 where
  pub symbol : Bytes
  pub bids : BookSide
  pub asks : BookSide
  pub total_trades : ℕ
  pub total_volume : ℕ

-- The constructor.
unfoldable pub new_book : Bytes → ZeroAllocHftOrderBook
unfolding empty_side copy_sv_to_char
new_book symbol = record {
  symbol = copy_sv_to_char (replicate 16 0) symbol 15;
  bids = empty_side;
  asks = empty_side;
  total_trades = 0;
  total_volume = 0;
}

-- What is left of the order goes to its own side, unless that has all its levels.
unfoldable pub place_rest : Side → BookSide → ParsedOrder → ℕ → ℕ → BookSide
unfolding add_to_book
place_rest side own order remaining timestamp_ns =
    if ltb 0 remaining && ltb own.level_count max_book_levels
    then add_to_book side own order remaining timestamp_ns
    else own

abbrev pub start : ZeroAllocHftOrderBook → BookSide → ParsedOrder → Output → Match
start b passive order output = record {
  passive = passive;
  remaining_qty = to_u32 order.quantity;
  output = output;
  total_trades = b.total_trades;
  total_volume = b.total_volume;
}

-- The caller's array and counter, before any report.
abbrev pub fresh : Option (List ZeroAllocTrade) → ℕ → Output
fresh out_trades trade_counter = record {
  out_trades = out_trades;
  trades_generated = 0;
  trade_counter = trade_counter;
}

-- `submit_order` returns the book, and the output with its number of reports.
unfoldable pub submit_order :
    ZeroAllocHftOrderBook
    → ParsedOrder
    → Option (List ZeroAllocTrade)
    → ℕ
    → ℕ
    → ℕ
    → Output × ZeroAllocHftOrderBook
unfolding match_loop place_rest
submit_order b order out_trades max_trades trade_counter timestamp_ns =
    let output = fresh out_trades trade_counter in
    let bought =
      match_loop buy b.symbol order max_trades timestamp_ns (start b b.asks order output) in
    let sold =
      match_loop sell b.symbol order max_trades timestamp_ns (start b b.bids order output) in
    if eqb_ℤ order.side (pos 1)
    then (
      bought.output,
      record b {
        asks = bought.passive;
        bids = place_rest buy b.bids order bought.remaining_qty timestamp_ns;
        total_trades = bought.total_trades;
        total_volume = bought.total_volume;
      },
    )
    else if eqb_ℤ order.side (pos 2)
    then (
      sold.output,
      record b {
        bids = sold.passive;
        asks = place_rest sell b.asks order sold.remaining_qty timestamp_ns;
        total_trades = sold.total_trades;
        total_volume = sold.total_volume;
      },
    )
    else (output, b)
