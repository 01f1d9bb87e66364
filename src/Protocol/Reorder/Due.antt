-- ===== src/Protocol/Reorder/Due.antt =====
-- A drain stops only where the next message is missing, and a buffered message stays until its turn.
use hft_fix_engine.Base.{
  ℕ, zero, suc, ◌+◌, ◌-◌, ◌<◌, ◌≤◌, ◌≡◌, ◌≢◌, ◌%◌, ◌^◌, refl, ap, sym, subst, ◌∙◌, inl, inr, ◌⊎◌,
  true, false, List, [], ◌∷◌, Option, none, some, length, length-set, get_or, set, ltb, ◌==◌, ==→eq,
  ==→ne, Bool-cases, ltb→lt, ltb→ge, if◌then◌else◌, Bytes, add_u64, arith, loop_exit, loop_inv,
  get_or-set_self, get_or-set_ne, bit_and_mask,
}
use native.Mathlib.Nat.{mod-add-mod, mod-eq_of_lt, mod-eq-sub-mod, mod-lt}
use hft_fix_engine.Protocol.Reorder.{
  ReorderSlot, SequenceReorderBuffer, Drain, blank_slot, slot_index, slot_at, put_slot, fill_slot,
  drain_round, drain_buffered, push_expected, buffer_ahead,
}
use hft_fix_engine.Protocol.Reorder.Ring.{slot_index-lt, due, drain_round-some, Feed}
use hft_fix_engine.Protocol.Reorder.Stream.{
  IsValid, round_next, start_Streamed, push_cases, Streamed, Streamed-refl, round-Streamed, deliver,
}

abbrev taken : ReorderSlot → ℕ
taken s = if s.occupied then 1 else 0

abbrev pub occupancy : List ReorderSlot → ℕ
occupancy [] = 0
occupancy (s ∷ ss) = taken s + occupancy ss

occupancy-le : (ss : List ReorderSlot) → occupancy ss ≤ length ss
occupancy-le [] = omega arith
occupancy-le (s ∷ ss) = ground (arith, occupancy-le ss)

-- Emptying an occupied slot.
occupancy-set :
    (ss : List ReorderSlot) (i : ℕ) (s : ReorderSlot)
    → i < length ss
    → (get_or ss i blank_slot).occupied ≡ true
    → s.occupied ≡ false
    → occupancy (set ss i s) + 1 ≡ occupancy ss
occupancy-set [] i s h t f = absurd (omega arith)
occupancy-set (x ∷ xs) zero s h t f = ground arith
occupancy-set (x ∷ xs) (suc i) s h t f = omega (arith, occupancy-set xs i s (omega arith) t f)

module _ (k : ℕ) where
  round_fewer :
      (d t : Drain)
      → length d.buffer.ring ≡ 2 ^ k
      → drain_round k d ≡ some t
      → (length t.buffer.ring ≡ 2 ^ k) × (occupancy t.buffer.ring < occupancy d.buffer.ring)
  round_fewer d t size e =
      let (occupied, here, is) = drain_round-some k d t e in
      let ring = d.buffer.ring in
      let i = slot_index k d.buffer.expected_seq in
      rw is (
        length-set ring i _ ∙ size,
        omega (
          arith,
          occupancy-set ring i (record (due k d) { occupied = false })
              (omega (arith, slot_index-lt k d.buffer.expected_seq)) occupied refl,
        ),
      )

  -- The loop of `drain_buffered` is left by its `break`, never by the end of its fuel.
  pub drain_exit :
      (b : SequenceReorderBuffer) (out : List Bytes)
      → length b.ring ≡ 2 ^ k
      → drain_round k (drain_buffered k b out) ≡ none
  unfolding drain_buffered
  drain_exit b out size =
      loop_exit (λ d. length d.buffer.ring ≡ 2 ^ k) (λ d. occupancy d.buffer.ring) (drain_round k)
        round_fewer (2 ^ k + 1) (record { buffer = b; out_emitted = out; drained = 0 }) size
        (omega (arith, occupancy-le b.ring))

-- Numbers less than a capacity apart have different slots.
slot_index-ne : (k s t : ℕ) → s < t → t < s + 2 ^ k → slot_index k s ≢ slot_index k t
unfolding slot_index
slot_index-ne k s t lt near =
    let c = 2 ^ k in
    let r = s % c in
    let n = t - s in
    let low : r < c = mod-lt s (omega arith) in
    let is_t : s + n ≡ t = omega arith in
    let sum : (r + n) % c ≡ t % c = mod-add-mod s c n ∙ ap (λ j. j % c) is_t in
    elim (Bool-cases (ltb (r + n) c)) [
      | inl below ↦ omega (
        arith,
        sum,
        bit_and_mask s k,
        bit_and_mask t k,
        mod-eq_of_lt {n = r + n} {m = c} (ltb→lt (r + n) c below),
      )
      | inr over ↦
          let le : c ≤ r + n = ltb→ge (r + n) c over in
          omega (
            arith,
            sum,
            bit_and_mask s k,
            bit_and_mask t k,
            mod-eq-sub-mod {n = r + n} {m = c} le,
            mod-eq_of_lt {n = r + n - c} {m = c} (omega arith),
          )
    ]

module _ (k : ℕ) where
  -- The message of `s` waits in its slot.
  abbrev pub Pending : SequenceReorderBuffer → ℕ → Type 0
  Pending b s = ((slot_at k b s).occupied ≡ true) × ((slot_at k b s).seq_num ≡ s)

  -- A write for one number leaves the others of a window pending.
  put_slot-Pending :
      (b : SequenceReorderBuffer) (s t : ℕ) (slot : ReorderSlot)
      → slot_index k t ≢ slot_index k s
      → Pending b s
      → Pending (put_slot k b t slot) s
  put_slot-Pending b s t slot ne p =
      rw (get_or-set_ne b.ring (slot_index k t) (slot_index k s) slot blank_slot ne) p

  -- The slot that a call has filled.
  buffer_ahead-Pending :
      (b : SequenceReorderBuffer) (s len : ℕ) (payload : Option Bytes)
      → length b.ring ≡ 2 ^ k
      → Pending (buffer_ahead k b s payload len) s
  unfolding buffer_ahead fill_slot
  buffer_ahead-Pending b s len payload size =
      rw
        (get_or-set_self b.ring (slot_index k s) (fill_slot (slot_at k b s) s payload len)
          blank_slot (omega (arith, slot_index-lt k s, size)))
        (refl, refl)

  -- `s` has been passed, or waits within the window.
  abbrev pub Safe : ℕ → SequenceReorderBuffer → Type 0
  Safe s b = (s < b.expected_seq) ⊎ ((s < b.expected_seq + 2 ^ k) × Pending b s)

  round-Safe :
      (s : ℕ) (d t : Drain)
      → Safe s d.buffer
      → t.buffer.expected_seq ≡ d.buffer.expected_seq + 1
      → drain_round k d ≡ some t
      → Safe s t.buffer
  round-Safe s d t (inl passed) next e = inl (omega arith)
  round-Safe s d t (inr (near, p)) next e = elim (Bool-cases (ltb d.buffer.expected_seq s)) [
    | inl later ↦
        let lt = ltb→lt d.buffer.expected_seq s later in
        let (occupied, here, is) = drain_round-some k d t e in
        inr (
          omega arith,
          rw is (
              put_slot-Pending d.buffer s d.buffer.expected_seq
                (record (due k d) { occupied = false })
                (slot_index-ne k d.buffer.expected_seq s lt near) p),
        )
    | inr now ↦ inl (omega (arith, ltb→ge d.buffer.expected_seq s now))
  ]

  not_due : (d : Drain) → drain_round k d ≡ none → ¬ Pending d.buffer d.buffer.expected_seq
  unfolding drain_round
  not_due d e (occupied, here) = ground arith

  module _ (sent : ℕ → Bytes) (feed : Feed sent) where
    -- A drain moves on, and loses nothing that waits.
    drain-Safe :
        (s : ℕ) (b : SequenceReorderBuffer) (out : List Bytes)
        → IsValid k sent b
        → Safe s b
        → Safe s (drain_buffered k b out).buffer
    unfolding drain_buffered
    drain-Safe s b out v safe =
        (loop_inv (λ d. Streamed k sent b out d.buffer d.out_emitted × Safe s d.buffer)
          (drain_round k)
          (λ d t p e. (
            round-Streamed k sent b out d t p.0 e,
            round-Safe s d t p.1 (round_next k sent d t p.0.valid e) e,
          ))
          (2 ^ k + 1) (record { buffer = b; out_emitted = out; drained = 0 })
          (Streamed-refl k sent b out v, safe)).1

    -- The start of a drain at the expected number passes that number and keeps the rest.
    start-Safe :
        (b : SequenceReorderBuffer) (s : ℕ)
        → b.expected_seq + 1 < 2 ^ 64
        → Safe s b ⊎ (s ≡ b.expected_seq)
        → Safe s (record b { expected_seq = add_u64 b.expected_seq 1 })
    start-Safe b s h (inr e) = inl (omega arith)
    start-Safe b s h (inl (inl passed)) = inl (omega arith)
    start-Safe b s h (inl (inr (near, p))) = inr (omega arith, p)

    expected-Safe :
        (b : SequenceReorderBuffer) (s t : ℕ) (out : List Bytes)
        → t + 1 < 2 ^ 64
        → IsValid k sent b
        → t ≡ b.expected_seq
        → Safe s b ⊎ (s ≡ b.expected_seq)
        → Safe s (push_expected k b (some (sent t)) (length (sent t)) out).1
    unfolding push_expected
    expected-Safe b s t out h v e safe =
        drain-Safe s (record b { expected_seq = add_u64 b.expected_seq 1 }) _
          (start_Streamed k sent b t out feed h v e).valid (start-Safe b s (omega arith) safe)

    ahead-Safe :
        (b : SequenceReorderBuffer) (s t : ℕ)
        → b.expected_seq < t
        → t < add_u64 b.expected_seq (2 ^ k)
        → length b.ring ≡ 2 ^ k
        → Safe s b
        → Safe s (buffer_ahead k b t (some (sent t)) (length (sent t)))
    unfolding buffer_ahead
    ahead-Safe b s t lt near size (inl passed) = inl passed
    ahead-Safe b s t lt near size (inr (close, p)) = elim (Bool-cases (ltb s b.expected_seq)) [
      | inl behind ↦ inl (ltb→lt s b.expected_seq behind)
      | inr from ↦
          let le : b.expected_seq ≤ s = ltb→ge s b.expected_seq from in
          let slot = fill_slot (slot_at k b t) t (some (sent t)) (length (sent t)) in
          elim (Bool-cases (ltb s t)) [
            | inl below ↦
                let lt' = ltb→lt s t below in
                inr (
                  close,
                  put_slot-Pending b s t slot (λ e. slot_index-ne k s t lt' (omega arith) (sym e))
                      p,
                )
            | inr not_below ↦
                let ge : t ≤ s = ltb→ge s t not_below in
                elim (Bool-cases (s == t)) [
                  | inl same ↦ inr (
                    close,
                    subst (λ j. Pending (put_slot k b t slot) j) (sym (==→eq s t same))
                        (buffer_ahead-Pending b t (length (sent t)) (some (sent t)) size),
                  )
                  | inr other ↦
                      let ne = ==→ne s t other in
                      inr (
                        close,
                        put_slot-Pending b s t slot
                            (slot_index-ne k t s (omega arith) (omega arith)) p,
                      )
                ]
          ]
    ]

    -- What is safe stays so, whatever packet comes.
    pub deliver-Safe :
        (b : SequenceReorderBuffer) (s t : ℕ) (out : List Bytes)
        → t + 1 < 2 ^ 64
        → IsValid k sent b
        → Safe s b
        → Safe s (deliver k sent b t out).1
    unfolding buffer_ahead
    deliver-Safe b s t out h v safe =
        push_cases k sent (λ c o. Safe s c) b t out (λ e. expected-Safe b s t out h v e (inl safe))
          (λ lt near. ahead-Safe b s t lt near v.size safe) (λ lt far. safe) (λ lt. safe)

    -- A packet within the window is safe from then on.
    pub deliver-Safe_self :
        (b : SequenceReorderBuffer) (s : ℕ) (out : List Bytes)
        → s + 1 < 2 ^ 64
        → s < add_u64 b.expected_seq (2 ^ k)
        → IsValid k sent b
        → Safe s (deliver k sent b s out).1
    unfolding buffer_ahead
    deliver-Safe_self b s out h near v =
        push_cases k sent (λ c o. Safe s c) b s out (λ e. expected-Safe b s s out h v e (inr e))
          (λ lt _.
            inr (omega arith, buffer_ahead-Pending b s (length (sent s)) (some (sent s)) v.size))
          (λ lt far. absurd (omega arith)) (λ lt. inl lt)

    -- The expected message is never one that waits.
    pub deliver_not_stuck :
        (b : SequenceReorderBuffer) (t : ℕ) (out : List Bytes)
        → t + 1 < 2 ^ 64
        → IsValid k sent b
        → ¬ Pending b b.expected_seq
        → ¬ Pending (deliver k sent b t out).1 (deliver k sent b t out).1.expected_seq
    unfolding buffer_ahead push_expected
    deliver_not_stuck b t out h v free =
        push_cases k sent (λ c o. ¬ Pending c c.expected_seq) b t out
          (λ e.
            not_due _
              (drain_exit k (record b { expected_seq = add_u64 b.expected_seq 1 }) _ v.size))
          (λ lt near p. free (
            rw
              (get_or-set_ne b.ring (slot_index k t) (slot_index k b.expected_seq)
                (fill_slot (slot_at k b t) t (some (sent t)) (length (sent t))) blank_slot
                (λ e. slot_index-ne k b.expected_seq t lt (omega arith) (sym e)))
              at p))
          (λ lt far. free) (λ lt. free)
