-- ===== src/Protocol/Reorder/Tests.antt =====
-- A buffer of four slots that expects 5 and reads 6, 7, 5 and 6 again: 5, 6 and 7 come out.
use hft_fix_engine.Base.{
  ℕ, List, [], ◌∷◌, All-replicate, ◌≡◌, ◌≤◌, ◌<◌, arith, length-replicate, Bytes, none,
}
use hft_fix_engine.Protocol.Reorder.{
  new_buffer, drain_round, drain_buffered, blank_slot, slot_index,
}
use hft_fix_engine.Protocol.Reorder.Ring.{Feed, Slot, blank-Slot}
use hft_fix_engine.Protocol.Reorder.Stream.{IsValid, Streamed, deliver_all, deliver_all-Streamed}
use hft_fix_engine.Protocol.Reorder.Due.{Pending, drain_exit}
use hft_fix_engine.Protocol.Reorder.Complete.{Arrives, deliver_all_complete}

-- The message of a number is one byte.
abbrev sent : ℕ → Bytes
sent s = s ∷ []

abbrev arrivals : List ℕ
arrivals = 6 ∷ 7 ∷ 5 ∷ 6 ∷ []

sent-Feed : Feed sent
sent-Feed = record { nonempty = λ s. omega arith; fits = λ s. omega arith }

buffer-IsValid : IsValid 2 sent (new_buffer 2 5)
unfolding new_buffer
buffer-IsValid = record {
  slots = All-replicate (Slot 2 sent) 4 blank_slot (blank-Slot 2 sent);
  size = length-replicate 4 blank_slot;
  expected_in = omega arith;
}

nothing-Pending : ¬ Pending 2 (new_buffer 2 5) 5
unfolding new_buffer slot_index
nothing-Pending p = ground arith

all_arrive : (s : ℕ) → 5 ≤ s → s ≤ 7 → Arrives s arrivals
all_arrive s from to = ground arith

deliver_all-Streamed_example :
    let r = deliver_all 2 sent (new_buffer 2 5) arrivals [] in
    Streamed 2 sent (new_buffer 2 5) [] r.0 r.1
deliver_all-Streamed_example =
    deliver_all-Streamed 2 sent (new_buffer 2 5) arrivals [] sent-Feed (omega arith) buffer-IsValid

deliver_all_complete_example : 7 < (deliver_all 2 sent (new_buffer 2 5) arrivals []).0.expected_seq
unfolding new_buffer
deliver_all_complete_example =
    deliver_all_complete 2 sent sent-Feed (new_buffer 2 5) 7 arrivals [] (omega arith)
      buffer-IsValid nothing-Pending (omega arith) (omega arith) all_arrive

drain_exit_example : drain_round 2 (drain_buffered 2 (new_buffer 2 5) []) ≡ none
drain_exit_example = drain_exit 2 (new_buffer 2 5) [] buffer-IsValid.size
