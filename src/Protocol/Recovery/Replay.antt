-- ===== src/Protocol/Recovery/Replay.antt =====
-- What a recovery makes of the updates that it has buffered.
use hft_fix_engine.Base.{
  ℕ, ◌+◌, ◌≡◌, refl, sym, ap, ap₂, ◌∙◌, true, false, List, [], ◌∷◌, ◌++◌, append-nil, append_assoc,
  length, leb, if◌then◌else◌, Bool-cases, inl, inr, arith,
}
use hft_fix_engine.Protocol.FlatBook.{FlatOrderBook, clear}
use hft_fix_engine.Protocol.Recovery.{
  recovering, synchronized, IncrementalUpdate, BookSnapshot, OrderBookRecoveryManager,
  apply_to_bids, apply_incremental, process_incremental, insert_levels, replay, apply_snapshot,
}

-- The calls of `process_incremental` for a row of updates.
unfoldable pub process_updates :
    OrderBookRecoveryManager → List IncrementalUpdate → OrderBookRecoveryManager
process_updates m [] = m
process_updates m (u ∷ us) = process_updates (process_incremental m u).1 us

-- The updates that a snapshot of the number `last` does not cover.
unfoldable pub later : ℕ → List IncrementalUpdate → List IncrementalUpdate
later last [] = []
later last (u ∷ us) = if leb u.seq_num last then later last us else u ∷ later last us

-- The bids after a row of updates, and the number of the last of them.
unfoldable pub bids_after : FlatOrderBook → List IncrementalUpdate → FlatOrderBook
bids_after b [] = b
bids_after b (u ∷ us) = bids_after (apply_to_bids b u) us

unfoldable pub seq_after : ℕ → List IncrementalUpdate → ℕ
seq_after s [] = s
seq_after s (u ∷ us) = seq_after u.seq_num us

buffered_one :
    (m : OrderBookRecoveryManager) (u : IncrementalUpdate)
    → m.state ≡ recovering
    → let m' = (process_incremental m u).1 in
      (m'.state ≡ recovering)
      × (m'.buffered_incrementals ≡ m.buffered_incrementals ++ (u ∷ []))
      × (m'.bids ≡ m.bids)
      × (m'.asks ≡ m.asks)
unfolding process_incremental
buffered_one m u r = ground (arith, r)

-- While it recovers, a manager keeps every update in the order of arrival.
buffered :
    (m : OrderBookRecoveryManager) (us : List IncrementalUpdate)
    → m.state ≡ recovering
    → ((process_updates m us).buffered_incrementals ≡ m.buffered_incrementals ++ us)
      × ((process_updates m us).bids ≡ m.bids)
      × ((process_updates m us).asks ≡ m.asks)
unfolding process_updates
buffered m [] r = (sym (append-nil m.buffered_incrementals), refl, refl)
buffered m (u ∷ us) r =
    let (still, kept, bids, asks) = buffered_one m u r in
    let (kept', bids', asks') = buffered (process_incremental m u).1 us still in
    (
      kept' ∙ ap (λ xs. xs ++ us) kept ∙ append_assoc m.buffered_incrementals (u ∷ []) us,
      bids' ∙ bids,
      asks' ∙ asks,
    )

record Replayed (last : ℕ) (m : OrderBookRecoveryManager) (replayed discarded : ℕ)
    (us : List IncrementalUpdate) (r : OrderBookRecoveryManager × ℕ × ℕ) : Type 0 where
  bids : r.0.bids ≡ bids_after m.bids (later last us)
  asks : r.0.asks ≡ m.asks
  seq : r.0.last_applied_seq ≡ seq_after m.last_applied_seq (later last us)
  applied : r.0.snapshot_applied ≡ m.snapshot_applied
  replays : r.1 ≡ replayed + length (later last us)
  discards : r.2 + length (later last us) ≡ discarded + length us

abbrev applied_one : OrderBookRecoveryManager → IncrementalUpdate → OrderBookRecoveryManager
applied_one m u = record (apply_incremental m u) { last_applied_seq = u.seq_num }

module _ (last : ℕ) (u : IncrementalUpdate) (us : List IncrementalUpdate) where
  later_stale : leb u.seq_num last ≡ true → later last (u ∷ us) ≡ later last us
  unfolding later
  later_stale e = rw (e, later) refl

  later_fresh : leb u.seq_num last ≡ false → later last (u ∷ us) ≡ u ∷ later last us
  unfolding later
  later_fresh e = rw (e, later) refl

  module _ (m : OrderBookRecoveryManager) (replayed discarded : ℕ) where
    replay_stale :
        leb u.seq_num last ≡ true
        → replay last m replayed discarded (u ∷ us) ≡ replay last m replayed (discarded + 1) us
    unfolding replay
    replay_stale e = rw (e, replay) refl

    replay_fresh :
        leb u.seq_num last ≡ false
        → replay last m replayed discarded (u ∷ us)
          ≡ replay last (applied_one m u) (replayed + 1) discarded us
    unfolding replay
    replay_fresh e = rw (e, replay) refl

    Replayed-stale :
        leb u.seq_num last ≡ true
        → Replayed last m replayed (discarded + 1) us (replay last m replayed (discarded + 1) us)
        → Replayed last m replayed discarded (u ∷ us) (replay last m replayed discarded (u ∷ us))
    Replayed-stale e r = rw (replay_stale e) (record {
      bids = rw (later_stale e) r.bids;
      asks = r.asks;
      seq = rw (later_stale e) r.seq;
      applied = r.applied;
      replays = rw (later_stale e) r.replays;
      discards = rw (later_stale e) (omega (arith, r.discards));
    })

    Replayed-fresh :
        leb u.seq_num last ≡ false
        → Replayed last
            (applied_one m u)
            (replayed + 1)
            discarded
            us
            (replay last (applied_one m u) (replayed + 1) discarded us)
        → Replayed last m replayed discarded (u ∷ us) (replay last m replayed discarded (u ∷ us))
    unfolding bids_after seq_after apply_incremental
    Replayed-fresh e r = rw (replay_fresh e) (record {
      bids = rw (later_fresh e) r.bids;
      asks = r.asks;
      seq = rw (later_fresh e) r.seq;
      applied = r.applied;
      replays = rw (later_fresh e) (omega (arith, r.replays));
      discards = rw (later_fresh e) (omega (arith, r.discards));
    })

replay-Replayed :
    (last : ℕ) (m : OrderBookRecoveryManager) (replayed discarded : ℕ) (us : List IncrementalUpdate)
    → Replayed last m replayed discarded us (replay last m replayed discarded us)
unfolding replay later bids_after seq_after
replay-Replayed last m replayed discarded [] = ground arith
replay-Replayed last m replayed discarded (u ∷ us) = elim (Bool-cases (leb u.seq_num last)) [
  | inl stale ↦
      Replayed-stale last u us m replayed discarded stale
        (replay-Replayed last m replayed (discarded + 1) us)
  | inr fresh ↦
      Replayed-fresh last u us m replayed discarded fresh
        (replay-Replayed last (applied_one m u) (replayed + 1) discarded us)
]

-- The book that the manager should have: the snapshot's levels, and on its bids the later updates.
pub record Recovered (m : OrderBookRecoveryManager) (s : BookSnapshot) (us : List IncrementalUpdate)
    (r : ℕ × OrderBookRecoveryManager) : Type 0 where
  pub bids :
      r.1.bids
      ≡ bids_after
          (insert_levels true (clear 1024 true m.bids) s.bids)
          (later s.snapshot_last_seq us)
  pub asks : r.1.asks ≡ insert_levels false (clear 1024 false m.asks) s.asks
  pub seq : r.1.last_applied_seq ≡ seq_after s.snapshot_last_seq (later s.snapshot_last_seq us)
  pub live :
      (r.1.state ≡ synchronized) × (r.1.snapshot_applied ≡ true) × (r.1.buffered_incrementals ≡ [])
  pub result : r.0 ≡ length (later s.snapshot_last_seq us)
  pub counts :
      (r.1.incrementals_replayed_count ≡ r.0)
      × (r.1.incrementals_replayed_count + r.1.incrementals_discarded_count ≡ length us)

pub apply_snapshot-Recovered :
    (m : OrderBookRecoveryManager) (s : BookSnapshot)
    → Recovered m s m.buffered_incrementals (apply_snapshot m s)
unfolding apply_snapshot
apply_snapshot-Recovered m s =
    let image = record m {
      bids = insert_levels true (clear 1024 true m.bids) s.bids;
      asks = insert_levels false (clear 1024 false m.asks) s.asks;
      last_applied_seq = s.snapshot_last_seq;
      snapshot_applied = true;
    } in
    let r = replay-Replayed s.snapshot_last_seq image 0 0 m.buffered_incrementals in
    record {
      bids = r.bids;
      asks = r.asks;
      seq = r.seq;
      live = (refl, r.applied, refl);
      result = omega (arith, r.replays);
      counts = (refl, omega (arith, r.replays, r.discards));
    }

-- Whatever updates arrive while a manager waits, the snapshot that ends the wait puts its levels into
-- the emptied sides and applies, to the bids, exactly the updates that it does not cover, in the order
-- of arrival; and every update is counted as replayed or as discarded.
pub process_updates-Recovered :
    (m : OrderBookRecoveryManager) (s : BookSnapshot) (us : List IncrementalUpdate)
    → m.state ≡ recovering
    → Recovered m s (m.buffered_incrementals ++ us) (apply_snapshot (process_updates m us) s)
process_updates-Recovered m s us waiting =
    let (kept, bids, asks) = buffered m us waiting in
    let q = process_updates m us in
    let r = apply_snapshot-Recovered q s in
    let same : later s.snapshot_last_seq q.buffered_incrementals
        ≡ later s.snapshot_last_seq (m.buffered_incrementals ++ us) =
      ap (later s.snapshot_last_seq) kept in
    record {
      bids =
          r.bids
          ∙ ap₂ (λ b us'. bids_after (insert_levels true (clear 1024 true b) s.bids) us') bids same;
      asks = r.asks ∙ ap (λ b. insert_levels false (clear 1024 false b) s.asks) asks;
      seq = r.seq ∙ ap (seq_after s.snapshot_last_seq) same;
      live = r.live;
      result = r.result ∙ ap length same;
      counts = (r.counts.0, r.counts.1 ∙ ap length kept);
    }

live_one :
    (m : OrderBookRecoveryManager) (u : IncrementalUpdate)
    → m.state ≡ synchronized
    → let m' = (process_incremental m u).1 in
      (m'.state ≡ synchronized)
      × (m'.bids ≡ apply_to_bids m.bids u)
      × (m'.asks ≡ m.asks)
      × (m'.last_applied_seq ≡ u.seq_num)
unfolding process_incremental apply_incremental
live_one m u r = ground (arith, r)

-- A synchronized manager applies every update as it arrives.
applied_live :
    (m : OrderBookRecoveryManager) (us : List IncrementalUpdate)
    → m.state ≡ synchronized
    → let r = process_updates m us in
      (r.state ≡ synchronized)
      × (r.bids ≡ bids_after m.bids us)
      × (r.asks ≡ m.asks)
      × (r.last_applied_seq ≡ seq_after m.last_applied_seq us)
unfolding process_updates bids_after seq_after
applied_live m [] r = (r, refl, refl, refl)
applied_live m (u ∷ us) r =
    let (still, bids, asks, seq) = live_one m u r in
    let (still', bids', asks', seq') = applied_live (process_incremental m u).1 us still in
    (
      still',
      bids' ∙ ap (λ b. bids_after b us) bids,
      asks' ∙ asks,
      seq' ∙ ap (λ n. seq_after n us) seq,
    )

-- Waiting costs nothing: buffering the updates and then taking the snapshot gives the book, the last
-- number and the state of a manager that took the snapshot first and then the later updates live.
pub recovery_live :
    (m : OrderBookRecoveryManager) (s : BookSnapshot) (us : List IncrementalUpdate)
    → m.state ≡ recovering
    → m.buffered_incrementals ≡ []
    → let waited = (apply_snapshot (process_updates m us) s).1 in
      let live = process_updates (apply_snapshot m s).1 (later s.snapshot_last_seq us) in
      (waited.bids ≡ live.bids)
      × (waited.asks ≡ live.asks)
      × (waited.last_applied_seq ≡ live.last_applied_seq)
      × (waited.state ≡ live.state)
unfolding later bids_after seq_after
recovery_live m s us waiting empty =
    let last = s.snapshot_last_seq in
    let fresh = later last us in
    let image = insert_levels true (clear 1024 true m.bids) s.bids in
    let w = process_updates-Recovered m s us waiting in
    let b = apply_snapshot-Recovered m s in
    let (still, bids, asks, seq) = applied_live (apply_snapshot m s).1 fresh b.live.0 in
    let same : later last (m.buffered_incrementals ++ us) ≡ fresh =
      ap (λ xs. later last (xs ++ us)) empty in
    let nothing : later last m.buffered_incrementals ≡ [] = ap (later last) empty in
    (
      w.bids
          ∙ ap (bids_after image) same
          ∙ sym (bids ∙ ap (λ x. bids_after x fresh) (b.bids ∙ ap (bids_after image) nothing)),
      w.asks ∙ sym (asks ∙ b.asks),
      w.seq
          ∙ ap (seq_after last) same
          ∙ sym (seq ∙ ap (λ n. seq_after n fresh) (b.seq ∙ ap (seq_after last) nothing)),
      w.live.0 ∙ sym still,
    )

updates-asks_one :
    (m : OrderBookRecoveryManager) (u : IncrementalUpdate)
    → (process_incremental m u).1.asks ≡ m.asks
unfolding process_incremental apply_incremental
updates-asks_one m u = ground arith

-- No row of incremental updates changes the asks, in either state and whatever the updates say.
pub asks-process_updates :
    (m : OrderBookRecoveryManager) (us : List IncrementalUpdate)
    → (process_updates m us).asks ≡ m.asks
unfolding process_updates
asks-process_updates m [] = refl
asks-process_updates m (u ∷ us) =
    asks-process_updates (process_incremental m u).1 us ∙ updates-asks_one m u
