-- ===== src/Protocol/Recovery/Tests.antt =====
-- A manager that buffers the updates 5 and 6, and a snapshot that covers 5.
use hft_fix_engine.Base.{pos, ◌≡◌, ◌++◌, List, [], ◌∷◌, codes, refl, arith}
use hft_fix_engine.Protocol.Recovery.{
  IncrementalUpdate, BookSnapshot, OrderBookRecoveryManager, new_recovery, process_incremental,
  apply_snapshot,
}
use hft_fix_engine.Protocol.Recovery.Replay.{
  process_updates, later, recovery_live, asks-process_updates,
}
use hft_fix_engine.Protocol.Recovery.Restored.{IsSnapshot, Restored, process_updates-Restored}
use hft_fix_engine.Protocol.Recovery.Bounds.{IsValid, created, updated, snapped, Reachable-IsValid}

abbrev stale_add : IncrementalUpdate
stale_add = record {
  seq_num = 5;
  symbol = codes "ABC";
  price_scaled = pos 100;
  quantity = 9;
  action = b'0';
}

abbrev fresh_delete : IncrementalUpdate
fresh_delete = record {
  seq_num = 6;
  symbol = codes "ABC";
  price_scaled = pos 99;
  quantity = 0;
  action = b'2';
}

abbrev updates : List IncrementalUpdate
updates = stale_add ∷ fresh_delete ∷ []

abbrev snapshot : BookSnapshot
snapshot = record {
  snapshot_last_seq = 5;
  symbol = codes "ABC";
  bids =
      record { price_scaled = pos 100; quantity = 9 }
      ∷ record { price_scaled = pos 99; quantity = 4 }
      ∷ [];
  asks = record { price_scaled = pos 101; quantity = 2 } ∷ [];
}

abbrev manager : OrderBookRecoveryManager
manager = new_recovery (codes "ABC")

manager-IsValid : IsValid manager
manager-IsValid = Reachable-IsValid (codes "ABC") manager created

snapshot-IsSnapshot : IsSnapshot snapshot
snapshot-IsSnapshot = record {
  bids_sorted = ground arith;
  asks_sorted = ground arith;
  bids_fit = omega arith;
  asks_fit = omega arith;
}

process_updates-Restored_example :
    Restored snapshot
      (manager.buffered_incrementals ++ updates)
      (apply_snapshot (process_updates manager updates) snapshot)
unfolding new_recovery
process_updates-Restored_example =
    process_updates-Restored manager snapshot updates refl manager-IsValid snapshot-IsSnapshot

recovery_live_example :
    let waited = (apply_snapshot (process_updates manager updates) snapshot).1 in
    let live =
      process_updates
        (apply_snapshot manager snapshot).1
        (later snapshot.snapshot_last_seq updates) in
    (waited.bids ≡ live.bids)
    × (waited.asks ≡ live.asks)
    × (waited.last_applied_seq ≡ live.last_applied_seq)
    × (waited.state ≡ live.state)
unfolding new_recovery
recovery_live_example = recovery_live manager snapshot updates refl refl

asks-process_updates_example : (process_updates manager updates).asks ≡ manager.asks
asks-process_updates_example = asks-process_updates manager updates

Reachable-IsValid_example :
    IsValid (apply_snapshot (process_incremental manager stale_add).1 snapshot).1
Reachable-IsValid_example =
    Reachable-IsValid (codes "ABC")
      (apply_snapshot (process_incremental manager stale_add).1 snapshot).1
      (snapped (process_incremental manager stale_add).1 snapshot
        (updated manager stale_add created))
