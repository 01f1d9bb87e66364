-- ===== src/Matching/Worker/Tests.antt =====
-- A sell and a buy order that meet, as FIX messages in two batches; then with the kill switch set.
use hft_fix_engine.Base.{◌≡◌, refl, List, [], ◌∷◌, some, true, codes, length, arith, Bytes}
use hft_fix_engine.Protocol.ProtocolParser.{fix}
use hft_fix_engine.Protocol.Risk.{new_manager, default_limits, set_limits, set_kill_switch}
use hft_fix_engine.Matching.Engine.{empty_engine, total_trades}
use hft_fix_engine.Matching.Worker.{MatchingWorker, FixMessagePacket, Reading, new_worker, run}
use hft_fix_engine.Matching.Worker.Core.{core}
use hft_fix_engine.Matching.Worker.Kept.{IsCounted, run-IsCounted}
use hft_fix_engine.Matching.Worker.Halt.{IsHalted, run-IsHalted}

abbrev packet : Bytes → FixMessagePacket
packet text = record {
  rx_timestamp_cycles = 0;
  payload_len = length text;
  payload = some text;
  ring_hdr = some 3;
}

abbrev reading : Reading
reading = record { cycles = 10; latency = 5; rx_ts = 1; current_ts = 2; stale = [] }

abbrev batches : List (List (FixMessagePacket × Reading))
batches =
    ((packet (codes "35=D|11=A1|55=ABC|54=2|38=5|44=35.00|34=1|"), reading) ∷ [])
    ∷ ((packet (codes "35=D|11=B1|55=ABC|54=1|38=5|44=35.01|34=2|"), reading) ∷ [])
    ∷ []

new_worker-IsCounted : IsCounted (core (new_worker 0))
unfolding empty_engine total_trades new_manager set_limits
new_worker-IsCounted = record {
  engine = record { books_hold = tt; counter_in_range = omega arith; numbers_used = refl };
  all_counted = refl;
  approvals_agree = refl;
  rejections_agree = refl;
}

run-IsCounted_example : IsCounted (core (run fix 2 batches (new_worker 0)))
run-IsCounted_example = run-IsCounted fix 2 batches (new_worker 0) new_worker-IsCounted

abbrev halted_worker : MatchingWorker
halted_worker = record (new_worker 0) {
  risk_mgr = set_kill_switch true (new_manager default_limits);
}

halted : halted_worker.risk_mgr.limits.kill_switch_active ≡ true
unfolding set_kill_switch
halted = refl

run-IsHalted_example :
    IsHalted halted_worker.matching_engine halted_worker.approved_count
      (core (run fix 2 batches halted_worker))
run-IsHalted_example = run-IsHalted fix 2 batches halted_worker halted
