-- ===== src/Matching/Worker/Halt.antt =====
-- The kill switch seen from the worker.
use hft_fix_engine.Base.{
  ℕ, ◌≡◌, refl, sym, subst, ◌∙◌, inl, inr, Bool-cases, Bool, true, false, List, arith, ℤ,
}
use hft_fix_engine.Protocol.ParsedOrder.{ParsedOrder}
use hft_fix_engine.Protocol.ProtocolParser.{ProtocolType, parse_in_place}
use hft_fix_engine.Protocol.Risk.{PreTradeRiskManager, evaluate_order}
use hft_fix_engine.Matching.Engine.{MatchingEngine}
use hft_fix_engine.Matching.Worker.{
  MatchingWorker, FixMessagePacket, Reading, check_clock, check_duplicate, check_gap, check_risk,
  match_order, count_order, handle_order, handle_packet, run, is_approved, reference_price,
}
use hft_fix_engine.Matching.Worker.Core.{
  Core, core, run_keeps, core-check_clock, core-check_duplicate, core-check_gap, core-check_risk,
  core-release_frame,
}

module _ (engine : MatchingEngine) (approved_count : ℕ) where
  -- Halted with this engine, after so many approvals.
  pub record IsHalted (c : Core) : Type 0 where
    pub killed : c.manager.limits.kill_switch_active ≡ true
    pub same_engine : c.engine ≡ engine
    pub same_count : c.approved_count ≡ approved_count

  killed-evaluate_order :
      (m : PreTradeRiskManager) (order : ParsedOrder) (reference : ℤ)
      → m.limits.kill_switch_active ≡ true
      → (is_approved (evaluate_order m order reference).0.status ≡ false)
        × ((evaluate_order m order reference).1.limits.kill_switch_active ≡ true)
  unfolding evaluate_order
  killed-evaluate_order m order reference on = ground arith

  check_risk-IsHalted :
      (order : ParsedOrder) (ts : ℕ) (w : MatchingWorker)
      → IsHalted (core w)
      → ((check_risk order ts w).0 ≡ false) × IsHalted (core (check_risk order ts w).1)
  unfolding check_risk
  check_risk-IsHalted order ts w v =
      let (judged, still) = killed-evaluate_order w.risk_mgr order reference_price v.killed in
      let kept : IsHalted
          (record (core w) { manager = (evaluate_order w.risk_mgr order reference_price).1 }) =
        record { killed = still; same_engine = v.same_engine; same_count = v.same_count } in
      (judged, subst IsHalted (sym (core-check_risk order ts w)) kept)

  not_matched :
      (ok : Bool) (order : ParsedOrder) (ts latency : ℕ) (w : MatchingWorker)
      → ok ≡ false
      → IsHalted (core w)
      → IsHalted (core (count_order ok latency (match_order ok order ts w)))
  unfolding count_order match_order
  not_matched true order ts latency w e v = absurd (let conflict : true ≡ false = e in ground arith)
  not_matched false order ts latency w e v = record {
    killed = v.killed;
    same_engine = v.same_engine;
    same_count = v.same_count;
  }

  handle_packet-IsHalted :
      (protocol_type : ProtocolType) (pkt : FixMessagePacket) (r : Reading) (w : MatchingWorker)
      → IsHalted (core w)
      → IsHalted (core (handle_packet protocol_type pkt r w).1)
  unfolding handle_packet handle_order
  handle_packet-IsHalted protocol_type pkt r w v =
      let order : ParsedOrder =
        record (parse_in_place r.stale protocol_type pkt.payload pkt.payload_len) {
          latency_ns = r.latency;
        } in
      let ts = r.current_ts in
      let checked = check_duplicate order ts (check_clock r w) in
      let seen : IsHalted (core checked.1) =
        subst IsHalted
          (sym (core-check_duplicate order ts (check_clock r w) ∙ core-check_clock r w)) v in
      let judged = check_risk order ts (check_gap order ts checked.1) in
      let (denied, halted) =
        check_risk-IsHalted order ts (check_gap order ts checked.1)
          (subst IsHalted (sym (core-check_gap order ts checked.1)) seen) in
      elim (Bool-cases checked.0) [
        | inl e ↦ rw e (subst IsHalted (sym (core-release_frame pkt.ring_hdr checked.1)) seen)
        | inr e ↦ rw e (
            subst IsHalted
              (sym (
                core-release_frame pkt.ring_hdr
                  (count_order judged.0 r.latency (match_order judged.0 order ts judged.1))))
              (not_matched judged.0 order ts r.latency judged.1 denied halted))
      ]

-- With the kill switch set, no run of packets, in whatever batches, changes the engine or approves an
-- order, and the switch stays set.
pub run-IsHalted :
    (protocol_type : ProtocolType) (expected_messages : ℕ)
    (batches : List (List (FixMessagePacket × Reading))) (w : MatchingWorker)
    → w.risk_mgr.limits.kill_switch_active ≡ true
    → IsHalted w.matching_engine w.approved_count
        (core (run protocol_type expected_messages batches w))
run-IsHalted protocol_type expected_messages batches w on =
    run_keeps (λ v. IsHalted w.matching_engine w.approved_count (core v)) protocol_type
      expected_messages (handle_packet-IsHalted w.matching_engine w.approved_count protocol_type)
      batches w (record { killed = on; same_engine = refl; same_count = refl })
