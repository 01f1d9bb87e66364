-- ===== src/Protocol/Recovery/Bounds.antt =====
-- What holds of every manager, whatever calls have been made.
use hft_fix_engine.Base.{◌≡◌, Bool, true, false, List, [], ◌∷◌, Bytes, arith, subst, sym}
use hft_fix_engine.Protocol.FlatBook.{PriceLevel, FlatOrderBook, clear, insert_or_update}
use hft_fix_engine.Protocol.FlatBook.Bounds.{
  IsBounded, empty_side-IsBounded, clear-IsBounded, insert_or_update-IsBounded, erase-IsBounded,
}
use hft_fix_engine.Protocol.Recovery.{
  IncrementalUpdate, BookSnapshot, OrderBookRecoveryManager, synchronized, new_recovery,
  apply_to_bids, apply_incremental, process_incremental, insert_levels, apply_snapshot,
  trigger_recovery,
}
use hft_fix_engine.Protocol.Recovery.Replay.{bids_after, later, apply_snapshot-Recovered}

pub record IsValid (m : OrderBookRecoveryManager) : Type 0 where
  pub bids : IsBounded 1024 true m.bids
  pub asks : IsBounded 1024 false m.asks
  pub live : m.state ≡ synchronized → (m.snapshot_applied ≡ true) × (m.buffered_incrementals ≡ [])

pub new_recovery-IsValid : (symbol : Bytes) → IsValid (new_recovery symbol)
unfolding new_recovery
new_recovery-IsValid symbol = record {
  bids = empty_side-IsBounded 1024 true;
  asks = empty_side-IsBounded 1024 false;
  live = λ e. cc;
}

pub apply_to_bids-IsBounded :
    (b : FlatOrderBook) (u : IncrementalUpdate)
    → IsBounded 1024 true b
    → IsBounded 1024 true (apply_to_bids b u)
unfolding apply_to_bids
apply_to_bids-IsBounded b u v = ground (
  arith,
  insert_or_update-IsBounded 1024 true b u.price_scaled u.quantity v,
  erase-IsBounded 1024 true b u.price_scaled v,
)

pub insert_levels-IsBounded :
    (is_bid : Bool) (b : FlatOrderBook) (ls : List PriceLevel)
    → IsBounded 1024 is_bid b
    → IsBounded 1024 is_bid (insert_levels is_bid b ls)
unfolding insert_levels
insert_levels-IsBounded is_bid b [] v = v
insert_levels-IsBounded is_bid b (l ∷ ls) v =
    insert_levels-IsBounded is_bid (insert_or_update 1024 is_bid b l.price_scaled l.quantity) ls
      (insert_or_update-IsBounded 1024 is_bid b l.price_scaled l.quantity v)

bids_after-IsBounded :
    (b : FlatOrderBook) (us : List IncrementalUpdate)
    → IsBounded 1024 true b
    → IsBounded 1024 true (bids_after b us)
unfolding bids_after
bids_after-IsBounded b [] v = v
bids_after-IsBounded b (u ∷ us) v =
    bids_after-IsBounded (apply_to_bids b u) us (apply_to_bids-IsBounded b u v)

process_incremental-IsValid :
    (m : OrderBookRecoveryManager) (u : IncrementalUpdate)
    → IsValid m
    → IsValid (process_incremental m u).1
unfolding process_incremental apply_incremental
process_incremental-IsValid m u v = ground (arith, apply_to_bids-IsBounded m.bids u v.bids)

apply_snapshot-IsValid :
    (m : OrderBookRecoveryManager) (s : BookSnapshot) → IsValid m → IsValid (apply_snapshot m s).1
apply_snapshot-IsValid m s v =
    let r = apply_snapshot-Recovered m s in
    record {
      bids = subst (IsBounded 1024 true) (sym r.bids) (
          bids_after-IsBounded _ (later s.snapshot_last_seq m.buffered_incrementals) (
            insert_levels-IsBounded true (clear 1024 true m.bids) s.bids
              (clear-IsBounded 1024 true m.bids v.bids)));
      asks = subst (IsBounded 1024 false) (sym r.asks) (
          insert_levels-IsBounded false (clear 1024 false m.asks) s.asks
            (clear-IsBounded 1024 false m.asks v.asks));
      live = λ e. (r.live.1, r.live.2);
    }

trigger_recovery-IsValid : (m : OrderBookRecoveryManager) → IsValid m → IsValid (trigger_recovery m)
unfolding trigger_recovery
trigger_recovery-IsValid m v = record { bids = v.bids; asks = v.asks; live = λ e. cc }

-- The managers that the operations of the class lead to.
pub data Reachable (symbol : Bytes) : OrderBookRecoveryManager → Type 0 where
  created : Reachable symbol (new_recovery symbol)
  updated :
      (m : OrderBookRecoveryManager) (u : IncrementalUpdate)
      → Reachable symbol m
      → Reachable symbol (process_incremental m u).1
  snapped :
      (m : OrderBookRecoveryManager) (s : BookSnapshot)
      → Reachable symbol m
      → Reachable symbol (apply_snapshot m s).1
  lost : (m : OrderBookRecoveryManager) → Reachable symbol m → Reachable symbol (trigger_recovery m)

-- Whatever calls are made, in whatever order, both sides keep their array of 1024 levels and a depth
-- of at most 1024, and a synchronized manager has taken a snapshot and has nothing left to replay.
pub Reachable-IsValid :
    (symbol : Bytes) (m : OrderBookRecoveryManager) → Reachable symbol m → IsValid m
Reachable-IsValid symbol _ created = new_recovery-IsValid symbol
Reachable-IsValid symbol _ (updated m u r) =
    process_incremental-IsValid m u (Reachable-IsValid symbol m r)
Reachable-IsValid symbol _ (snapped m s r) =
    apply_snapshot-IsValid m s (Reachable-IsValid symbol m r)
Reachable-IsValid symbol _ (lost m r) = trigger_recovery-IsValid m (Reachable-IsValid symbol m r)
