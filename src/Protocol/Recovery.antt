-- ===== src/Protocol/Recovery.antt =====
-- include/hft/protocol/OrderBookRecoveryManager.hpp, `OrderBookRecoveryManager`: a book that is being
-- recovered buffers its incremental updates until a snapshot arrives, then replays the later ones.
-- Both sides hold 1024 levels.
pub mod Replay
pub mod Bounds
pub mod Restored
mod Tests
use hft_fix_engine.Base.{
  ℕ, suc, ◌+◌, ◌≡◌, ℤ, Bool, true, false, List, [], ◌∷◌, ◌++◌, length, leb, ◌==◌, ◌||◌,
  if◌then◌else◌, Bytes, add_u64,
}
use hft_fix_engine.Protocol.FlatBook.{
  PriceLevel, FlatOrderBook, empty_side, clear, insert_or_update, erase,
}

pub data RecoveryState : Type 0 where
  recovering synchronized : RecoveryState

pub record IncrementalUpdate : Type 0 where
  pub seq_num : ℕ
  pub symbol : Bytes
  pub price_scaled : ℤ
  pub quantity : ℕ
  pub action : ℕ

pub record BookSnapshot : Type 0 where
  pub snapshot_last_seq : ℕ
  pub symbol : Bytes
  pub bids : List PriceLevel
  pub asks : List PriceLevel

pub record OrderBookRecoveryManager : Type 0 where
  pub symbol : Bytes
  pub state : RecoveryState
  pub last_applied_seq : ℕ
  pub snapshot_applied : Bool
  pub bids : FlatOrderBook
  pub asks : FlatOrderBook
  pub buffered_incrementals : List IncrementalUpdate
  pub incrementals_buffered_count : ℕ
  pub incrementals_replayed_count : ℕ
  pub incrementals_discarded_count : ℕ

-- The constructor.
unfoldable pub new_recovery : Bytes → OrderBookRecoveryManager
new_recovery symbol = record {
  symbol = symbol;
  state = recovering;
  last_applied_seq = 0;
  snapshot_applied = false;
  bids = empty_side 1024 true;
  asks = empty_side 1024 false;
  buffered_incrementals = [];
  incrementals_buffered_count = 0;
  incrementals_replayed_count = 0;
  incrementals_discarded_count = 0;
}

-- `apply_incremental` on the bids, the only side that it writes.
unfoldable pub apply_to_bids : FlatOrderBook → IncrementalUpdate → FlatOrderBook
apply_to_bids bids update =
    if update.action == b'0' || update.action == b'1'
    then insert_or_update 1024 true bids update.price_scaled update.quantity
    else if update.action == b'2'
    then erase 1024 true bids update.price_scaled
    else bids

unfoldable pub apply_incremental :
    OrderBookRecoveryManager → IncrementalUpdate → OrderBookRecoveryManager
apply_incremental m update = record m { bids = apply_to_bids m.bids update }

unfoldable pub process_incremental :
    OrderBookRecoveryManager → IncrementalUpdate → Bool × OrderBookRecoveryManager
unfolding apply_incremental
process_incremental m update = elim m.state [
  | recovering ↦ (
    false,
    record m {
      buffered_incrementals = m.buffered_incrementals ++ (update ∷ []);
      incrementals_buffered_count = add_u64 m.incrementals_buffered_count 1;
    },
  )
  | synchronized ↦ (true, record (apply_incremental m update) { last_applied_seq = update.seq_num })
]

-- The levels of one side of a snapshot, one after the other.
unfoldable pub insert_levels : Bool → FlatOrderBook → List PriceLevel → FlatOrderBook
insert_levels is_bid b [] = b
insert_levels is_bid b (l ∷ ls) =
    insert_levels is_bid (insert_or_update 1024 is_bid b l.price_scaled l.quantity) ls

-- The replay loop: the manager with the counts replayed and discarded.
unfoldable pub replay :
    ℕ → OrderBookRecoveryManager → ℕ → ℕ → List IncrementalUpdate → OrderBookRecoveryManager × ℕ × ℕ
unfolding apply_incremental
replay last m replayed discarded [] = (m, replayed, discarded)
replay last m replayed discarded (inc ∷ rest) =
    let applied = record (apply_incremental m inc) { last_applied_seq = inc.seq_num } in
    let stale = replay last m replayed (discarded + 1) rest in
    let fresh = replay last applied (replayed + 1) discarded rest in
    if leb inc.seq_num last then stale else fresh

unfoldable pub apply_snapshot :
    OrderBookRecoveryManager → BookSnapshot → ℕ × OrderBookRecoveryManager
unfolding insert_levels replay
apply_snapshot m snapshot =
    let image = record m {
      bids = insert_levels true (clear 1024 true m.bids) snapshot.bids;
      asks = insert_levels false (clear 1024 false m.asks) snapshot.asks;
      last_applied_seq = snapshot.snapshot_last_seq;
      snapshot_applied = true;
    } in
    let (m', replayed, discarded) =
      replay snapshot.snapshot_last_seq image 0 0 m.buffered_incrementals in
    (
      replayed,
      record m' {
        incrementals_discarded_count = discarded;
        incrementals_replayed_count = replayed;
        buffered_incrementals = [];
        state = synchronized;
      },
    )

unfoldable pub trigger_recovery : OrderBookRecoveryManager → OrderBookRecoveryManager
trigger_recovery m = record m { state = recovering; buffered_incrementals = [] }
