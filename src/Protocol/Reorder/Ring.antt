-- ===== src/Protocol/Reorder/Ring.antt =====
-- The invariant of the ring against the messages that the sender numbers.
use hft_fix_engine.Base.{
  ℕ, ◌+◌, ◌<◌, ◌≤◌, ◌≡◌, ◌^◌, refl, ap, ◌∙◌, min, true, false, [], ◌∷◌, ◌++◌, some, length,
  length-append, length-set, length-take, take, drop, ltb, Bytes, add_u64, arith, bit_and_mask,
  two-pow-pos, length-drop, take-append_le, take-set, take_all,
}
use native.Mathlib.Nat.{mod-lt}
use hft_fix_engine.Protocol.Reorder.{
  Drain, drain_round, ReorderSlot, blank_slot, slot_index, slot_at, put_slot, fill_slot,
  copy_payload,
}

pub slot_index-lt : (k seq : ℕ) → slot_index k seq < 2 ^ k
unfolding slot_index
slot_index-lt k seq = omega (arith, bit_and_mask seq k, mod-lt seq (two-pow-pos k))

module _ (k : ℕ) where
  -- The state after a round that drains.
  abbrev pub due : Drain → ReorderSlot
  due d = slot_at k d.buffer d.buffer.expected_seq

  abbrev pub drained_one : Drain → Drain
  drained_one d =
      let b = d.buffer in
      record {
        buffer = record (put_slot k b b.expected_seq (record (due d) { occupied = false })) {
          expected_seq = add_u64 b.expected_seq 1;
        };
        out_emitted = d.out_emitted ++ (take (due d).payload_len (due d).payload ∷ []);
        drained = d.drained + 1;
      }

  pub drain_round-some :
      (d t : Drain)
      → drain_round k d ≡ some t
      → ((due d).occupied ≡ true) × ((due d).seq_num ≡ d.buffer.expected_seq) × (t ≡ drained_one d)
  unfolding drain_round
  drain_round-some d t e = ground arith

-- What the sender sends under each number: never empty, never longer than a slot.
pub record Feed (sent : ℕ → Bytes) : Type 0 where
  pub nonempty : (s : ℕ) → 0 < length (sent s)
  pub fits : (s : ℕ) → length (sent s) ≤ 512

module _ (k : ℕ) (sent : ℕ → Bytes) where
  -- An occupied slot holds the message of its number.
  pub record Slot (slot : ReorderSlot) : Type 0 where
    pub room : length slot.payload ≡ 512
    pub holds : slot.occupied ≡ true → take slot.payload_len slot.payload ≡ sent slot.seq_num
    pub has_next : slot.occupied ≡ true → slot.seq_num + 1 < 2 ^ 64

  pub blank-Slot : Slot blank_slot
  blank-Slot = record { room = refl; holds = λ e. cc; has_next = λ e. cc }

  -- A slot filled with the message of a number.
  pub fill_slot-Slot :
      (slot : ReorderSlot) (s : ℕ)
      → Feed sent
      → Slot slot
      → s + 1 < 2 ^ 64
      → Slot (fill_slot slot s (some (sent s)) (length (sent s)))
  unfolding fill_slot copy_payload
  fill_slot-Slot slot s feed g h =
      let n = length (sent s) in
      let fits = feed.fits s in
      let e : min n 512 ≡ n = omega arith in
      let whole : length (take n (sent s) ++ drop n slot.payload) ≡ 512 = omega (
        arith,
        length-append (take n (sent s)) (drop n slot.payload),
        length-take n (sent s),
        length-drop n slot.payload,
        g.room,
      ) in
      let wanted : ltb 0 n ≡ true = ground (arith, feed.nonempty s) in
      rw (e, wanted, fill_slot, copy_payload)
        (record {
          room = length-set (take n (sent s) ++ drop n slot.payload) n 0 ∙ whole;
          holds = λ _.
              take-set n (take n (sent s) ++ drop n slot.payload) 0
              ∙ ap (λ l. take n (l ++ drop n slot.payload)) (take_all (sent s))
              ∙ take-append_le n (sent s) (drop n slot.payload) refl;
          has_next = λ _. h;
        })
