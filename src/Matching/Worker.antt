-- ===== src/Matching/Worker.antt =====
-- src/matching/MatchingWorker.cpp: what `run` does with the packets that it takes off its queue. The
-- readings of the clocks, with what floating point makes of them, come in with each packet. A ring
-- header is the number of its frame. A log text is its format with the arguments; the log is what is
-- handed to `m_log_queue.push`. The telemetry gets copies of the counters and is left out.
pub mod Core
pub mod Kept
pub mod Halt
mod Tests
use hft_fix_engine.Base.{
  ℕ, ◌+◌, ◌<◌, ◌^◌, ◌-◌, ◌%◌, ℤ, pos, Bool, true, false, ◌&&◌, List, [], ◌∷◌, ◌++◌, Option, none,
  some, map, ltb, leb, ◌==◌, if◌then◌else◌, Bytes, add_u32, add_u64, min,
}
use hft_fix_engine.Protocol.ParsedOrder.{ParsedOrder}
use hft_fix_engine.Protocol.ProtocolParser.{ProtocolType, parse_in_place}
use hft_fix_engine.Protocol.GapDetector.{
  SequenceGapDetector, SequenceGap, GapStatus, GapCheckResult, in_sequence, gap_detected, duplicate,
  new_detector, process_sequence,
}
use hft_fix_engine.Protocol.Risk.{
  PreTradeRiskManager, RiskCheckStatus, RiskCheckResult, Reason, approved, rejected_max_qty,
  rejected_price_collar, rejected_max_notional, rejected_kill_switch, rejected_trading_halt,
  default_limits, new_manager, set_limits, evaluate_order,
}
use hft_fix_engine.Networking.FeedArbitrator.{
  FeedArbitrator, line_a, new_arbitrator, process_packet,
}
use hft_fix_engine.Common.ClockSynchronizer.{ClockSynchronizer, evaluate_latency}
use hft_fix_engine.Matching.Book.{TradeExecution}
use hft_fix_engine.Matching.Engine.{MatchingEngine, empty_engine, process_order}

pub data LogCategory : Type 0 where
  debug_level info_level warning_level error_level critical_level fatal_level : LogCategory

pub data LogText : Type 0 where
  duplicate_text : ℕ → LogText
  gap_text : SequenceGap → Bytes → LogText
  rejection_text : Bytes → Reason → LogText
  trade_text : TradeExecution → LogText

pub record LogMessage : Type 0 where
  pub timestamp_ns : ℕ
  pub category : LogCategory
  pub message : LogText

pub record FixMessagePacket : Type 0 where
  pub rx_timestamp_cycles : ℕ
  pub payload_len : ℕ
  pub payload : Option Bytes
  pub ring_hdr : Option ℕ

-- What the clocks say while a packet is handled, and what then stands in the memory of the call that
-- parsed it, which has ended.
pub record Reading : Type 0 where
  pub cycles : ℕ
  pub latency : ℕ
  pub rx_ts : ℕ
  pub current_ts : ℕ
  pub stale : Bytes

-- The members of the worker, and the local variables of `run`.
pub record MatchingWorker : Type 0 where
  pub gap_detector : SequenceGapDetector
  pub clock_sync : ClockSynchronizer
  pub feed_arbitrator : FeedArbitrator
  pub risk_mgr : PreTradeRiskManager
  pub matching_engine : MatchingEngine
  pub log : List LogMessage
  pub released : List ℕ
  pub processed : ℕ
  pub total_latency_ns : ℕ
  pub min_latency_ns : ℕ
  pub max_latency_ns : ℕ
  pub approved_count : ℕ
  pub rejected_count : ℕ
  pub approved_total_lat : ℕ
  pub rejected_total_lat : ℕ

-- The members after the constructor, and the locals at the start of `run`; the
-- clock was calibrated `now`.
abbrev pub new_worker : ℕ → MatchingWorker
new_worker now = record {
  gap_detector = new_detector 1;
  clock_sync = record { last_valid_ts_ns = now; clock_jumps_prevented = 0 };
  feed_arbitrator = new_arbitrator 11;
  risk_mgr =
      set_limits
        (record {
          max_order_qty = 50000;
          max_price_deviation_scaled = pos 5000000;
          max_notional_value_usd = 2000000;
          kill_switch_active = false;
        })
        (new_manager default_limits);
  matching_engine = empty_engine;
  log = [];
  released = [];
  processed = 0;
  total_latency_ns = 0;
  min_latency_ns = 2 ^ 64 - 1;
  max_latency_ns = 0;
  approved_count = 0;
  rejected_count = 0;
  approved_total_lat = 0;
  rejected_total_lat = 0;
}

abbrev write_log : MatchingWorker → ℕ → LogCategory → LogText → MatchingWorker
write_log w ts category text = record w {
  log = w.log ++ (record { timestamp_ns = ts; category = category; message = text } ∷ []);
}

-- The frame goes back to the kernel.
abbrev pub release_frame : Option ℕ → MatchingWorker → MatchingWorker
release_frame none w = w
release_frame (some frame) w = record w { released = w.released ++ (frame ∷ []) }

abbrev pub is_gap : GapStatus → Bool
is_gap in_sequence = false
is_gap gap_detected = true
is_gap duplicate = false

abbrev pub is_approved : RiskCheckStatus → Bool
is_approved approved = true
is_approved rejected_max_qty = false
is_approved rejected_price_collar = false
is_approved rejected_max_notional = false
is_approved rejected_kill_switch = false
is_approved rejected_trading_halt = false

-- Scenario 3: the result is not used.
unfoldable pub check_clock : Reading → MatchingWorker → MatchingWorker
unfolding evaluate_latency
check_clock r w = record w {
  clock_sync = (evaluate_latency w.clock_sync r.cycles r.rx_ts r.current_ts).1;
}

-- Scenario 4: whether the packet is a duplicate. Every packet counts as one of line A.
unfoldable pub check_duplicate : ParsedOrder → ℕ → MatchingWorker → Bool × MatchingWorker
unfolding process_packet
check_duplicate order ts w =
    let (res, arbitrator) = process_packet 11 w.feed_arbitrator line_a order.seq_num in
    let seen = record w { feed_arbitrator = arbitrator } in
    if ltb 0 order.seq_num
    then (
      res.is_duplicate,
      if res.is_duplicate
          then write_log seen ts warning_level (duplicate_text order.seq_num)
          else seen,
    )
    else (false, w)

-- Scenario 1.
unfoldable pub check_gap : ParsedOrder → ℕ → MatchingWorker → MatchingWorker
unfolding process_sequence
check_gap order ts w =
    let (res, detector) = process_sequence w.gap_detector order.seq_num in
    let seen = record w { gap_detector = detector } in
    if ltb 0 order.seq_num
    then if is_gap res.status
      then write_log seen ts error_level (gap_text res.gap res.resend_request_msg)
      else seen
    else w

abbrev pub reference_price : ℤ
reference_price = pos 35000000

-- Scenario 6: whether the order is approved.
unfoldable pub check_risk : ParsedOrder → ℕ → MatchingWorker → Bool × MatchingWorker
unfolding evaluate_order
check_risk order ts w =
    let (res, manager) = evaluate_order w.risk_mgr order reference_price in
    let judged = record w { risk_mgr = manager } in
    (
      is_approved res.status,
      if is_approved res.status
          then judged
          else write_log judged ts error_level
              (rejection_text order.cl_ord_id res.rejection_reason),
    )

abbrev trade_log : ℕ → TradeExecution → LogMessage
trade_log ts trade = record { timestamp_ns = ts; category = info_level; message = trade_text trade }

-- Only an approved new order is matched.
unfoldable pub match_order : Bool → ParsedOrder → ℕ → MatchingWorker → MatchingWorker
unfolding process_order
match_order risk_approved order ts w =
    let done = process_order w.matching_engine order [] ts in
    if risk_approved && order.msg_type_char == b'D'
    then record w {
      matching_engine = done.engine;
      log = if done.matched then w.log ++ map (trade_log ts) done.trades else w.log;
    }
    else w

unfoldable pub count_order : Bool → ℕ → MatchingWorker → MatchingWorker
count_order risk_approved latency w = record w {
  approved_count = if risk_approved then add_u64 w.approved_count 1 else w.approved_count;
  approved_total_lat =
      if risk_approved then add_u64 w.approved_total_lat latency else w.approved_total_lat;
  rejected_count = if risk_approved then w.rejected_count else add_u64 w.rejected_count 1;
  rejected_total_lat =
      if risk_approved then w.rejected_total_lat else add_u64 w.rejected_total_lat latency;
  total_latency_ns = add_u64 w.total_latency_ns latency;
  min_latency_ns = if ltb latency w.min_latency_ns then latency else w.min_latency_ns;
  max_latency_ns = if ltb w.max_latency_ns latency then latency else w.max_latency_ns;
  processed = add_u32 w.processed 1;
}

-- An order that is no duplicate, up to the counters.
unfoldable pub handle_order : ParsedOrder → Reading → MatchingWorker → MatchingWorker
unfolding check_gap check_risk match_order count_order
handle_order order r w =
    let (risk_approved, judged) = check_risk order r.current_ts (check_gap order r.current_ts w) in
    count_order risk_approved r.latency (match_order risk_approved order r.current_ts judged)

-- The body of the loop over a batch: whether the packet was counted, and the state. Either way the
-- frame is released.
unfoldable pub handle_packet :
    ProtocolType → FixMessagePacket → Reading → MatchingWorker → Bool × MatchingWorker
unfolding check_clock check_duplicate handle_order
handle_packet protocol_type pkt r w =
    let order : ParsedOrder =
      record (parse_in_place r.stale protocol_type pkt.payload pkt.payload_len) {
        latency_ns = r.latency;
      } in
    let (dropped, seen) = check_duplicate order r.current_ts (check_clock r w) in
    if dropped
    then (false, release_frame pkt.ring_hdr seen)
    else (true, release_frame pkt.ring_hdr (handle_order order r seen))

-- The loop over a batch. It is left early when enough messages have been counted.
unfoldable pub run_batch :
    ProtocolType → ℕ → List (FixMessagePacket × Reading) → MatchingWorker → MatchingWorker
unfolding handle_packet
run_batch protocol_type expected_messages [] w = w
run_batch protocol_type expected_messages ((pkt, r) ∷ rest) w =
    let (counted, w') = handle_packet protocol_type pkt r w in
    let more = run_batch protocol_type expected_messages rest w' in
    if counted && leb expected_messages w'.processed then w' else more

-- The outer loop over what `pop_batch` gives, up to the round in which the other conditions leave it.
-- An empty batch is passed over.
unfoldable pub run :
    ProtocolType → ℕ → List (List (FixMessagePacket × Reading)) → MatchingWorker → MatchingWorker
unfolding run_batch
run protocol_type expected_messages [] w = w
run protocol_type expected_messages ([] ∷ rest) w = run protocol_type expected_messages rest w
run protocol_type expected_messages ((p ∷ ps) ∷ rest) w =
    let w' = run_batch protocol_type expected_messages (p ∷ ps) w in
    let more = run protocol_type expected_messages rest w' in
    if leb expected_messages w'.processed then w' else more
