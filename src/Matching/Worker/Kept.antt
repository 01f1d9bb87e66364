-- ===== src/Matching/Worker/Kept.antt =====
-- The engine and the counters over a run of the worker, whatever the packets and the clocks.
use hft_fix_engine.Base.{
  ℕ, ◌+◌, ◌%◌, ◌^◌, ◌≡◌, sym, subst, ap, ◌∙◌, inl, inr, Bool-cases, Bool, true, false, List, [],
  ◌==◌, ◌&&◌, if◌then◌else◌, arith, ℤ, add_u64,
}
use hft_fix_engine.Protocol.ParsedOrder.{ParsedOrder}
use hft_fix_engine.Protocol.ProtocolParser.{ProtocolType, parse_in_place}
use hft_fix_engine.Protocol.Risk.{PreTradeRiskManager, evaluate_order}
use hft_fix_engine.Matching.Engine.Valid.{EngineIsValid, process_order-EngineIsValid}
use hft_fix_engine.Matching.Worker.{
  MatchingWorker, FixMessagePacket, Reading, check_clock, check_duplicate, check_gap, check_risk,
  match_order, count_order, handle_order, handle_packet, run, is_approved, reference_price,
}
use hft_fix_engine.Matching.Worker.Core.{
  Core, core, run_keeps, core-check_clock, core-check_duplicate, core-check_gap, core-check_risk,
  core-match_order, core-release_frame,
}

-- A worker whose engine is as it should be and whose counters agree: each message counted is approved
-- or rejected, and the gate has counted the same.
pub record IsCounted (c : Core) : Type 0 where
  pub engine : EngineIsValid c.engine
  pub all_counted : c.processed ≡ (c.approved_count + c.rejected_count) % 2 ^ 32
  pub approvals_agree : c.manager.approved_count ≡ c.approved_count
  pub rejections_agree : c.manager.rejected_count ≡ c.rejected_count

-- The same between the gate and the counters.
record IsJudged (ok : Bool) (c : Core) : Type 0 where
  engine : EngineIsValid c.engine
  all_counted : c.processed ≡ (c.approved_count + c.rejected_count) % 2 ^ 32
  approvals_agree :
      c.manager.approved_count ≡ (if ok then add_u64 c.approved_count 1 else c.approved_count)
  rejections_agree :
      c.manager.rejected_count ≡ (if ok then c.rejected_count else add_u64 c.rejected_count 1)

evaluate_order_counts :
    (m : PreTradeRiskManager) (order : ParsedOrder) (reference : ℤ)
    → let (res, m') = evaluate_order m order reference in
      (m'.approved_count
        ≡ (if is_approved res.status then add_u64 m.approved_count 1 else m.approved_count))
      × (m'.rejected_count
          ≡ (if is_approved res.status then m.rejected_count else add_u64 m.rejected_count 1))
unfolding evaluate_order
evaluate_order_counts m order reference = ground arith

check_risk-IsJudged :
    (order : ParsedOrder) (ts : ℕ) (w : MatchingWorker)
    → IsCounted (core w)
    → IsJudged (check_risk order ts w).0 (core (check_risk order ts w).1)
unfolding check_risk
check_risk-IsJudged order ts w v =
    let (approvals, rejections) = evaluate_order_counts w.risk_mgr order reference_price in
    let ok = is_approved (evaluate_order w.risk_mgr order reference_price).0.status in
    rw (core-check_risk order ts w) (record {
      engine = v.engine;
      all_counted = v.all_counted;
      approvals_agree = approvals ∙ ap (λ n. if ok then add_u64 n 1 else n) v.approvals_agree;
      rejections_agree = rejections ∙ ap (λ n. if ok then n else add_u64 n 1) v.rejections_agree;
    })

match_order-IsJudged :
    (ok : Bool) (order : ParsedOrder) (ts : ℕ) (w : MatchingWorker)
    → IsJudged ok (core w)
    → IsJudged ok (core (match_order ok order ts w))
match_order-IsJudged ok order ts w v = rw (core-match_order ok order ts w) (record {
  engine = elim (Bool-cases (ok && order.msg_type_char == b'D')) [
    | inl e ↦ rw e (process_order-EngineIsValid w.matching_engine order [] ts v.engine)
    | inr e ↦ rw e v.engine
  ];
  all_counted = v.all_counted;
  approvals_agree = v.approvals_agree;
  rejections_agree = v.rejections_agree;
})

count_order-IsCounted :
    (ok : Bool) (latency : ℕ) (w : MatchingWorker)
    → IsJudged ok (core w)
    → IsCounted (core (count_order ok latency w))
unfolding count_order
count_order-IsCounted true latency w v = record {
  engine = v.engine;
  all_counted = omega (arith, v.all_counted);
  approvals_agree = v.approvals_agree;
  rejections_agree = v.rejections_agree;
}
count_order-IsCounted false latency w v = record {
  engine = v.engine;
  all_counted = omega (arith, v.all_counted);
  approvals_agree = v.approvals_agree;
  rejections_agree = v.rejections_agree;
}

handle_packet-IsCounted :
    (protocol_type : ProtocolType) (pkt : FixMessagePacket) (r : Reading) (w : MatchingWorker)
    → IsCounted (core w)
    → IsCounted (core (handle_packet protocol_type pkt r w).1)
unfolding handle_packet handle_order
handle_packet-IsCounted protocol_type pkt r w v =
    let order : ParsedOrder =
      record (parse_in_place r.stale protocol_type pkt.payload pkt.payload_len) {
        latency_ns = r.latency;
      } in
    let ts = r.current_ts in
    let checked = check_duplicate order ts (check_clock r w) in
    let seen : IsCounted (core checked.1) =
      subst IsCounted (sym (core-check_duplicate order ts (check_clock r w) ∙ core-check_clock r w))
        v in
    let judged = check_risk order ts (check_gap order ts checked.1) in
    let counted =
      count_order-IsCounted judged.0 r.latency (match_order judged.0 order ts judged.1) (
        match_order-IsJudged judged.0 order ts judged.1 (
          check_risk-IsJudged order ts (check_gap order ts checked.1)
            (subst IsCounted (sym (core-check_gap order ts checked.1)) seen))) in
    elim (Bool-cases checked.0) [
      | inl e ↦ rw e (subst IsCounted (sym (core-release_frame pkt.ring_hdr checked.1)) seen)
      | inr e ↦ rw e (
          subst IsCounted
            (sym (
              core-release_frame pkt.ring_hdr
                (count_order judged.0 r.latency (match_order judged.0 order ts judged.1))))
            counted)
    ]

-- From a worker of which this holds, whatever packets arrive in whatever batches and whatever the
-- clocks say: the engine keeps its books valid, every message counted is either approved or
-- rejected, modulo 2 ^ 32, and the counters of the run are those of the gate.
pub run-IsCounted :
    (protocol_type : ProtocolType) (expected_messages : ℕ)
    (batches : List (List (FixMessagePacket × Reading))) (w : MatchingWorker)
    → IsCounted (core w)
    → IsCounted (core (run protocol_type expected_messages batches w))
run-IsCounted protocol_type expected_messages =
    run_keeps (λ w. IsCounted (core w)) protocol_type expected_messages
      (handle_packet-IsCounted protocol_type)
