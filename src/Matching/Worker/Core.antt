-- ===== src/Matching/Worker/Core.antt =====
-- What the steps of the worker change of the state that trading depends on, and what a run keeps.
use hft_fix_engine.Base.{
  ℕ, ◌≡◌, refl, inl, inr, Bool-cases, Bool, List, [], ◌∷◌, Option, none, some, leb, ltb, ◌==◌, ◌&&◌,
  if◌then◌else◌,
}
use hft_fix_engine.Protocol.ParsedOrder.{ParsedOrder}
use hft_fix_engine.Protocol.ProtocolParser.{ProtocolType}
use hft_fix_engine.Protocol.GapDetector.{process_sequence}
use hft_fix_engine.Networking.FeedArbitrator.{line_a, process_packet}
use hft_fix_engine.Protocol.Risk.{PreTradeRiskManager, evaluate_order}
use hft_fix_engine.Matching.Engine.{MatchingEngine, process_order}
use hft_fix_engine.Matching.Worker.{
  MatchingWorker, FixMessagePacket, Reading, check_clock, check_duplicate, check_gap, check_risk,
  match_order, handle_packet, run_batch, run, is_gap, is_approved, release_frame, reference_price,
}

-- What every packet keeps is kept by a run.
module _ {κ} (P : MatchingWorker → Type κ) (protocol_type : ProtocolType) (expected_messages : ℕ)
    (keep : (pkt : FixMessagePacket) (r : Reading) (w : MatchingWorker)
      → P w
      → P (handle_packet protocol_type pkt r w).1) where
  run_batch_keeps :
      (packets : List (FixMessagePacket × Reading)) (w : MatchingWorker)
      → P w
      → P (run_batch protocol_type expected_messages packets w)
  unfolding run_batch
  run_batch_keeps [] w p = p
  run_batch_keeps ((pkt, r) ∷ rest) w p =
      let (counted, w') = handle_packet protocol_type pkt r w in
      let kept : P w' = keep pkt r w p in
      elim (Bool-cases (counted && leb expected_messages w'.processed)) [
        | inl e ↦ rw e kept
        | inr e ↦ rw e (run_batch_keeps rest w' kept)
      ]

  pub run_keeps :
      (batches : List (List (FixMessagePacket × Reading))) (w : MatchingWorker)
      → P w
      → P (run protocol_type expected_messages batches w)
  unfolding run
  run_keeps [] w p = p
  run_keeps ([] ∷ rest) w p = run_keeps rest w p
  run_keeps ((x ∷ xs) ∷ rest) w p =
      let w' = run_batch protocol_type expected_messages (x ∷ xs) w in
      let kept = run_batch_keeps (x ∷ xs) w p in
      elim (Bool-cases (leb expected_messages w'.processed)) [
        | inl e ↦ rw e kept
        | inr e ↦ rw e (run_keeps rest w' kept)
      ]

-- The part of the state that trading depends on.
pub record Core : Type 0 where
  pub engine : MatchingEngine
  pub manager : PreTradeRiskManager
  pub processed : ℕ
  pub approved_count : ℕ
  pub rejected_count : ℕ

abbrev pub core : MatchingWorker → Core
core w = record {
  engine = w.matching_engine;
  manager = w.risk_mgr;
  processed = w.processed;
  approved_count = w.approved_count;
  rejected_count = w.rejected_count;
}

pub core-check_duplicate :
    (order : ParsedOrder) (ts : ℕ) (w : MatchingWorker)
    → core (check_duplicate order ts w).1 ≡ core w
unfolding check_duplicate
core-check_duplicate order ts w =
    let res = (process_packet 11 w.feed_arbitrator line_a order.seq_num).0 in
    elim (Bool-cases (ltb 0 order.seq_num)) [
      | inl e ↦ elim (Bool-cases res.is_duplicate) [
        | inl f ↦ rw (e, f) refl
        | inr f ↦ rw (e, f) refl
      ]
      | inr e ↦ rw e refl
    ]

pub core-check_gap :
    (order : ParsedOrder) (ts : ℕ) (w : MatchingWorker) → core (check_gap order ts w) ≡ core w
unfolding check_gap
core-check_gap order ts w =
    let res = (process_sequence w.gap_detector order.seq_num).0 in
    elim (Bool-cases (ltb 0 order.seq_num)) [
      | inl e ↦ elim (Bool-cases (is_gap res.status)) [
        | inl f ↦ rw (e, f) refl
        | inr f ↦ rw (e, f) refl
      ]
      | inr e ↦ rw e refl
    ]

pub core-check_clock : (r : Reading) (w : MatchingWorker) → core (check_clock r w) ≡ core w
unfolding check_clock
core-check_clock r w = refl

pub core-release_frame : (hdr : Option ℕ) (w : MatchingWorker) → core (release_frame hdr w) ≡ core w
core-release_frame none w = refl
core-release_frame (some frame) w = refl

-- The gate changes its manager and nothing else.
pub core-check_risk :
    (order : ParsedOrder) (ts : ℕ) (w : MatchingWorker)
    → core (check_risk order ts w).1
      ≡ record (core w) { manager = (evaluate_order w.risk_mgr order reference_price).1 }
unfolding check_risk
core-check_risk order ts w =
    elim (Bool-cases (is_approved (evaluate_order w.risk_mgr order reference_price).0.status)) [
      | inl e ↦ rw e refl
      | inr e ↦ rw e refl
    ]

-- The engine sees an order only if it is approved.
pub core-match_order :
    (ok : Bool) (order : ParsedOrder) (ts : ℕ) (w : MatchingWorker)
    → core (match_order ok order ts w) ≡ record (core w) {
      engine =
          if ok && order.msg_type_char == b'D'
          then (process_order w.matching_engine order [] ts).engine
          else w.matching_engine;
    }
unfolding match_order
core-match_order ok order ts w = elim (Bool-cases (ok && order.msg_type_char == b'D')) [
  | inl e ↦ rw e refl
  | inr e ↦ rw e refl
]
