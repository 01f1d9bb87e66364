-- ===== src/Protocol/Recovery/Restored.antt =====
-- A recovery, told in the lists of price levels: what the books show when it is over.
use hft_fix_engine.Base.{
  ℕ, ◌+◌, ◌≤◌, ◌≡◌, refl, sym, ap, subst, ◌∙◌, true, false, List, [], ◌∷◌, ◌++◌, append-nil,
  append_assoc, length, length-take, All, Bool, ltb, ◌==◌, ◌||◌, if◌then◌else◌, lt→ltb, Bool-cases,
  inl, inr, ℤ, eqb_ℤ, arith,
}
use hft_fix_engine.Protocol.FlatBook.{
  PriceLevel, FlatOrderBook, place_here, clear, insert_or_update,
}
use hft_fix_engine.Protocol.FlatBook.Bounds.{IsBounded, clear-IsBounded, insert_or_update-IsBounded}
use hft_fix_engine.Protocol.FlatBook.Levels.{live, upsert, insert_or_update_refines}
use hft_fix_engine.Protocol.FlatBook.Removal.{remove, erase_refines}
use hft_fix_engine.Protocol.FlatBook.Sorted.{Beats, IsSorted}
use hft_fix_engine.Protocol.Recovery.{
  recovering, synchronized, IncrementalUpdate, BookSnapshot, OrderBookRecoveryManager,
  apply_to_bids, insert_levels, apply_snapshot,
}
use hft_fix_engine.Protocol.Recovery.Replay.{
  process_updates, later, bids_after, seq_after, process_updates-Recovered,
}
use hft_fix_engine.Protocol.Recovery.Bounds.{
  IsValid, apply_to_bids-IsBounded, insert_levels-IsBounded,
}

-- An update to a list of levels: a new or changed level, a deleted one, or nothing.
unfoldable pub update_levels : List PriceLevel → IncrementalUpdate → List PriceLevel
update_levels ls u =
    if u.action == b'0' || u.action == b'1'
    then upsert 1024 true (ltb (length ls) 1024) u.price_scaled u.quantity ls
    else if u.action == b'2'
    then remove u.price_scaled ls
    else ls

unfoldable pub levels_after : List PriceLevel → List IncrementalUpdate → List PriceLevel
levels_after ls [] = ls
levels_after ls (u ∷ us) = levels_after (update_levels ls u) us

length-live :
    (is_bid : Bool) (b : FlatOrderBook) → IsBounded 1024 is_bid b → length (live b) ≡ b.count
length-live is_bid b v = omega (arith, length-take b.count b.levels, v.storage, v.depth)

length_snoc : (xs : List PriceLevel) (l : PriceLevel) → length (xs ++ (l ∷ [])) ≡ length xs + 1
length_snoc [] l = refl
length_snoc (x ∷ xs) l = omega (arith, length_snoc xs l)

All-at :
    (P : PriceLevel → Type 0) (xs : List PriceLevel) (l : PriceLevel) (ls : List PriceLevel)
    → All P (xs ++ (l ∷ ls))
    → P l
All-at P [] l ls h = h.0
All-at P (x ∷ xs) l ls h = All-at P xs l ls h.1

-- A level that a price beats is neither at the price nor behind it.
beaten :
    (is_bid : Bool) (p q : ℤ)
    → Beats is_bid p q
    → (eqb_ℤ p q ≡ false) × (place_here is_bid q p ≡ false)
beaten true p q h = ground arith
beaten false p q h = ground arith

-- A level that all the others beat goes behind them.
upsert_last :
    (is_bid : Bool) (xs : List PriceLevel) (l : PriceLevel) (ls : List PriceLevel)
    → IsSorted is_bid (xs ++ (l ∷ ls))
    → upsert 1024 is_bid true l.price_scaled l.quantity xs ≡ xs ++ (l ∷ [])
unfolding upsert
upsert_last is_bid [] l ls s = refl
upsert_last is_bid (x ∷ xs) l ls s =
    let h = All-at (λ y. Beats is_bid x.price_scaled y.price_scaled) xs l ls s.0 in
    let (other, on) = beaten is_bid x.price_scaled l.price_scaled h in
    rw (other, on, upsert) (ap (λ t. x ∷ t) (upsert_last is_bid xs l ls s.1))

-- Levels in order go in behind what is there, as they are.
live-insert_levels :
    (is_bid : Bool) (b : FlatOrderBook) (ls : List PriceLevel)
    → IsBounded 1024 is_bid b
    → IsSorted is_bid (live b ++ ls)
    → b.count + length ls ≤ 1024
    → live (insert_levels is_bid b ls) ≡ live b ++ ls
unfolding insert_levels
live-insert_levels is_bid b [] v s h = sym (append-nil (live b))
live-insert_levels is_bid b (l ∷ ls) v s h =
    let b' = insert_or_update 1024 is_bid b l.price_scaled l.quantity in
    let v' = insert_or_update-IsBounded 1024 is_bid b l.price_scaled l.quantity v in
    let room : ltb b.count 1024 ≡ true = lt→ltb b.count 1024 (omega arith) in
    let one : live b' ≡ live b ++ (l ∷ []) =
      insert_or_update_refines 1024 is_bid b l.price_scaled l.quantity v
      ∙ ap (λ r. upsert 1024 is_bid r l.price_scaled l.quantity (live b)) room
      ∙ upsert_last is_bid (live b) l ls s in
    let all : live b' ++ ls ≡ live b ++ (l ∷ ls) =
      ap (λ t. t ++ ls) one ∙ append_assoc (live b) (l ∷ []) ls in
    let grown : b'.count ≡ b.count + 1 = omega (
      arith,
      length-live is_bid b v,
      length-live is_bid b' v',
      ap (λ (t : List PriceLevel). length t) one,
      length_snoc (live b) l,
    ) in
    live-insert_levels is_bid b' ls v' (subst (IsSorted is_bid) (sym all) s) (omega (arith, grown))
    ∙ all

-- The levels of a snapshot side, in the emptied array.
restored :
    (is_bid : Bool) (b : FlatOrderBook) (ls : List PriceLevel)
    → IsBounded 1024 is_bid b
    → IsSorted is_bid ls
    → length ls ≤ 1024
    → live (insert_levels is_bid (clear 1024 is_bid b) ls) ≡ ls
unfolding clear
restored is_bid b ls v s h =
    live-insert_levels is_bid (clear 1024 is_bid b) ls (clear-IsBounded 1024 is_bid b v) s
      (omega arith)

live-apply_to_bids :
    (b : FlatOrderBook) (u : IncrementalUpdate)
    → IsBounded 1024 true b
    → live (apply_to_bids b u) ≡ update_levels (live b) u
unfolding apply_to_bids update_levels
live-apply_to_bids b u v =
    let depth = ap (λ n. ltb n 1024) (length-live true b v) in
    elim (Bool-cases (u.action == b'0' || u.action == b'1')) [
      | inl e ↦ rw e (
          insert_or_update_refines 1024 true b u.price_scaled u.quantity v
          ∙ ap (λ r. upsert 1024 true r u.price_scaled u.quantity (live b)) (sym depth))
      | inr e ↦ elim (Bool-cases (u.action == b'2')) [
        | inl e' ↦ rw (e, e') (erase_refines 1024 true b u.price_scaled v)
        | inr e' ↦ rw (e, e') refl
      ]
    ]

live-bids_after :
    (b : FlatOrderBook) (us : List IncrementalUpdate)
    → IsBounded 1024 true b
    → live (bids_after b us) ≡ levels_after (live b) us
unfolding bids_after levels_after
live-bids_after b [] v = refl
live-bids_after b (u ∷ us) v =
    live-bids_after (apply_to_bids b u) us (apply_to_bids-IsBounded b u v)
    ∙ ap (λ ls. levels_after ls us) (live-apply_to_bids b u v)

-- What a snapshot is to be: both sides strictly in order from the best price on, and within the array.
pub record IsSnapshot (s : BookSnapshot) : Type 0 where
  pub bids_sorted : IsSorted true s.bids
  pub asks_sorted : IsSorted false s.asks
  pub bids_fit : length s.bids ≤ 1024
  pub asks_fit : length s.asks ≤ 1024

-- The outcome of a recovery, in levels: the snapshot's, and on its bids the updates it does not cover.
pub record Restored (s : BookSnapshot) (us : List IncrementalUpdate)
    (r : ℕ × OrderBookRecoveryManager) : Type 0 where
  pub bids : live r.1.bids ≡ levels_after s.bids (later s.snapshot_last_seq us)
  pub asks : live r.1.asks ≡ s.asks
  pub seq : r.1.last_applied_seq ≡ seq_after s.snapshot_last_seq (later s.snapshot_last_seq us)
  pub settled :
      (r.1.state ≡ synchronized) × (r.1.snapshot_applied ≡ true) × (r.1.buffered_incrementals ≡ [])
  pub counts :
      (r.0 ≡ length (later s.snapshot_last_seq us))
      × (r.1.incrementals_replayed_count ≡ r.0)
      × (r.1.incrementals_replayed_count + r.1.incrementals_discarded_count ≡ length us)

-- A manager that has kept the bounds and is recovering, a row of updates, and then a snapshot whose
-- sides are strictly in order with at most 1024 levels each: whatever levels the manager held before,
-- its asks then are the snapshot's levels and its bids are the snapshot's with, one after the other,
-- exactly the updates whose number the snapshot does not cover, those buffered before first; it is
-- synchronized at the number of the last of them, with nothing buffered; and every update is counted
-- as replayed or as discarded.
pub process_updates-Restored :
    (m : OrderBookRecoveryManager) (s : BookSnapshot) (us : List IncrementalUpdate)
    → m.state ≡ recovering
    → IsValid m
    → IsSnapshot s
    → Restored s (m.buffered_incrementals ++ us) (apply_snapshot (process_updates m us) s)
process_updates-Restored m s us waiting v good =
    let r = process_updates-Recovered m s us waiting in
    let fresh = later s.snapshot_last_seq (m.buffered_incrementals ++ us) in
    let image = insert_levels true (clear 1024 true m.bids) s.bids in
    let bounded =
      insert_levels-IsBounded true (clear 1024 true m.bids) s.bids
        (clear-IsBounded 1024 true m.bids v.bids) in
    record {
      bids =
          ap live r.bids
          ∙ live-bids_after image fresh bounded
          ∙ ap (λ ls. levels_after ls fresh)
              (restored true m.bids s.bids v.bids good.bids_sorted good.bids_fit);
      asks = ap live r.asks ∙ restored false m.asks s.asks v.asks good.asks_sorted good.asks_fit;
      seq = r.seq;
      settled = r.live;
      counts = (r.result, r.counts.0, r.counts.1);
    }
