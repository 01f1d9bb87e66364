-- ===== src/Protocol/Reorder.antt =====
-- include/hft/protocol/SequenceReorderBuffer.hpp: packets ahead of the expected number wait in a
-- ring of 2 ^ k slots of 512 bytes. A null payload is `none`; a payload is the memory from its
-- pointer on, of which the call names the first `len` bytes. The terminating zero behind a payload
-- of 512 bytes falls outside the slot's array; `set` drops such a write.
pub mod Ring
pub mod Stream
pub mod Due
pub mod Complete
mod Tests
use hft_fix_engine.Base.{
  ℕ, ◌+◌, ◌-◌, ◌^◌, min, bit_and, Bool, true, false, ◌&&◌, List, [], ◌∷◌, ◌++◌, Option, none, some,
  length, get_or, set, take, drop, replicate, map, ltb, ◌==◌, if◌then◌else◌, Bytes, add_u64, loop,
}

pub record ReorderSlot : Type 0 where
  pub seq_num : ℕ
  pub payload_len : ℕ
  pub payload : Bytes
  pub occupied : Bool

abbrev pub blank_slot : ReorderSlot
blank_slot = record { seq_num = 0; payload_len = 0; payload = replicate 512 0; occupied = false }

pub record SequenceReorderBuffer : Type 0 where
  pub expected_seq : ℕ
  pub out_of_order_buffered_count : ℕ
  pub duplicates_count : ℕ
  pub overflow_count : ℕ
  pub ring : List ReorderSlot

-- `seq & (Capacity - 1)`.
unfoldable pub slot_index : ℕ → ℕ → ℕ
slot_index k seq = bit_and seq (2 ^ k - 1)

-- The bytes that `emplace_back` appends, if the packet has any.
unfoldable pub emit : Option Bytes → ℕ → List Bytes
emit none len = []
emit (some p) len = if ltb 0 len then take len p ∷ [] else []

-- `memcpy` into the slot's array and the terminating zero.
unfoldable pub copy_payload : Bytes → Option Bytes → ℕ → Bytes
copy_payload old none len = old
copy_payload old (some p) len = if ltb 0 len then set (take len p ++ drop len old) len 0 else old

unfoldable pub fill_slot : ReorderSlot → ℕ → Option Bytes → ℕ → ReorderSlot
unfolding copy_payload
fill_slot slot seq_num payload len = record {
  seq_num = seq_num;
  payload_len = min len 512;
  payload = copy_payload slot.payload payload (min len 512);
  occupied = true;
}

-- The state of a drain: the buffer, the caller's vector, the messages drained.
pub record Drain : Type 0 where
  pub buffer : SequenceReorderBuffer
  pub out_emitted : List Bytes
  pub drained : ℕ

module _ (k : ℕ) where
  -- The constructor.
  unfoldable pub new_buffer : ℕ → SequenceReorderBuffer
  new_buffer initial_expected = record {
    expected_seq = initial_expected;
    out_of_order_buffered_count = 0;
    duplicates_count = 0;
    overflow_count = 0;
    ring = replicate (2 ^ k) blank_slot;
  }

  abbrev pub slot_at : SequenceReorderBuffer → ℕ → ReorderSlot
  slot_at b seq = get_or b.ring (slot_index k seq) blank_slot

  abbrev pub put_slot : SequenceReorderBuffer → ℕ → ReorderSlot → SequenceReorderBuffer
  put_slot b seq slot = record b { ring = set b.ring (slot_index k seq) slot }

  -- One round of `drain_buffered`, `none` at the `break`.
  unfoldable pub drain_round : Drain → Option Drain
  unfolding slot_index
  drain_round d =
      let b = d.buffer in
      let e = b.expected_seq in
      let slot = slot_at b e in
      if slot.occupied && slot.seq_num == e
      then some (record {
        buffer = record (put_slot b e (record slot { occupied = false })) {
          expected_seq = add_u64 e 1;
        };
        out_emitted = d.out_emitted ++ (take slot.payload_len slot.payload ∷ []);
        drained = d.drained + 1;
      })
      else none

  -- Each round empties an occupied slot, so one round more than there are slots is enough.
  unfoldable pub drain_buffered : SequenceReorderBuffer → List Bytes → Drain
  unfolding loop drain_round
  drain_buffered b out =
      loop (2 ^ k + 1) drain_round (record { buffer = b; out_emitted = out; drained = 0 })

  -- What `push` gives: its result, the buffer and the caller's vector.
  abbrev pub Outcome : Type 0
  Outcome = ℕ × SequenceReorderBuffer × List Bytes

  -- The branch for the expected number.
  unfoldable pub push_expected : SequenceReorderBuffer → Option Bytes → ℕ → List Bytes → Outcome
  push_expected b payload len out =
      let now = emit payload len in
      let d = drain_buffered (record b { expected_seq = add_u64 b.expected_seq 1 }) (out ++ now) in
      (length now + d.drained, d.buffer, d.out_emitted)

  -- The branch for a number ahead, within the window.
  unfoldable pub buffer_ahead : SequenceReorderBuffer → ℕ → Option Bytes → ℕ → SequenceReorderBuffer
  buffer_ahead b seq_num payload len =
      record (put_slot b seq_num (fill_slot (slot_at b seq_num) seq_num payload len)) {
        out_of_order_buffered_count = add_u64 b.out_of_order_buffered_count 1;
      }

  unfoldable pub push : SequenceReorderBuffer → ℕ → Option Bytes → ℕ → List Bytes → Outcome
  push b seq_num payload len out =
      if seq_num == b.expected_seq
      then push_expected b payload len out
      else if ltb b.expected_seq seq_num
      then (if ltb seq_num (add_u64 b.expected_seq (2 ^ k))
          then (0, buffer_ahead b seq_num payload len, out)
          else (0, record b { overflow_count = add_u64 b.overflow_count 1 }, out))
      else (0, record b { duplicates_count = add_u64 b.duplicates_count 1 }, out)

  abbrev free_slot : ReorderSlot → ReorderSlot
  free_slot slot = record slot { occupied = false; seq_num = 0 }

  unfoldable pub reset : SequenceReorderBuffer → ℕ → SequenceReorderBuffer
  reset b initial_expected = record {
    expected_seq = initial_expected;
    out_of_order_buffered_count = 0;
    duplicates_count = 0;
    overflow_count = 0;
    ring = map free_slot b.ring;
  }
