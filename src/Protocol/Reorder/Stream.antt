-- ===== src/Protocol/Reorder/Stream.antt =====
-- Whatever the order of arrival, what comes out is the sender's stream, in order.
use hft_fix_engine.Base.{
  ℕ, zero, suc, ◌+◌, ◌-◌, ◌<◌, ◌≤◌, ◌≡◌, ◌^◌, refl, ap, ap₂, sym, ◌∙◌, inl, inr, true, List, [],
  ◌∷◌, ◌++◌, append-nil, append_assoc, some, length, length-set, take, All, ltb, ◌==◌, ==→eq,
  Bool-cases, ltb→lt, ltb→ge, Bytes, add_u64, arith, All-set, All-get_or, loop_inv, take_all,
}
use hft_fix_engine.Protocol.Reorder.{
  SequenceReorderBuffer, Drain, blank_slot, slot_index, slot_at, drain_round, drain_buffered, emit,
  push, push_expected, buffer_ahead,
}
use hft_fix_engine.Protocol.Reorder.Ring.{
  due, drained_one, drain_round-some, Feed, Slot, blank-Slot, fill_slot-Slot,
}

-- The messages of `n` numbers from `e` on.
unfoldable pub stream : (ℕ → Bytes) → ℕ → ℕ → List Bytes
stream sent e zero = []
stream sent e (suc n) = sent e ∷ stream sent (e + 1) n

stream-snoc :
    (sent : ℕ → Bytes) (e n : ℕ) → stream sent e (suc n) ≡ stream sent e n ++ (sent (e + n) ∷ [])
unfolding stream
stream-snoc sent e zero = ap (λ m. sent m ∷ []) (let z : e ≡ e + 0 = omega arith in z)
stream-snoc sent e (suc n) =
    ap (λ l. sent e ∷ l)
      (stream-snoc sent (e + 1) n
        ∙ ap (λ m. stream sent (e + 1) n ++ (sent m ∷ []))
            (let z : e + 1 + n ≡ e + suc n = omega arith in z))

stream-append :
    (sent : ℕ → Bytes) (e m n : ℕ)
    → stream sent e (m + n) ≡ stream sent e m ++ stream sent (e + m) n
unfolding stream
stream-append sent e zero n = ap₂ (stream sent) (omega arith) (omega arith)
stream-append sent e (suc m) n =
    ap (stream sent e) (let z : suc m + n ≡ suc (m + n) = omega arith in z)
    ∙ ap (λ l. sent e ∷ l)
        (stream-append sent (e + 1) m n
          ∙ ap (λ j. stream sent (e + 1) m ++ stream sent j n)
              (let z : e + 1 + m ≡ e + suc m = omega arith in z))

module _ (k : ℕ) (sent : ℕ → Bytes) where
  pub record IsValid (b : SequenceReorderBuffer) : Type 0 where
    pub slots : All (Slot k sent) b.ring
    pub size : length b.ring ≡ 2 ^ k
    pub expected_in : b.expected_seq < 2 ^ 64

  -- From one buffer and vector to others: the vector has grown by the stream between the two
  -- expected numbers.
  pub record Streamed (b : SequenceReorderBuffer) (out : List Bytes) (b' : SequenceReorderBuffer)
      (out' : List Bytes) : Type 0 where
    pub valid : IsValid b'
    pub onward : b.expected_seq ≤ b'.expected_seq
    pub emitted : out' ≡ out ++ stream sent b.expected_seq (b'.expected_seq - b.expected_seq)

  pub Streamed-refl :
      (b : SequenceReorderBuffer) (out : List Bytes) → IsValid b → Streamed b out b out
  unfolding stream
  Streamed-refl b out v = record {
    valid = v;
    onward = omega arith;
    emitted =
        let z : b.expected_seq - b.expected_seq ≡ 0 = omega arith in rw z (sym (append-nil out));
  }

  -- One more message at the expected number.
  Streamed-snoc :
      (b b' c : SequenceReorderBuffer) (out out' : List Bytes)
      → Streamed b out b' out'
      → IsValid c
      → c.expected_seq ≡ b'.expected_seq + 1
      → Streamed b out c (out' ++ (sent b'.expected_seq ∷ []))
  Streamed-snoc b b' c out out' s v e =
      let n = b'.expected_seq - b.expected_seq in
      let here : b.expected_seq + n ≡ b'.expected_seq = omega (arith, s.onward) in
      let step : c.expected_seq - b.expected_seq ≡ suc n = omega (arith, s.onward) in
      record {
        valid = v;
        onward = omega (arith, s.onward);
        emitted =
            rw (step, stream-snoc sent b.expected_seq n, here)
              (ap (λ l. l ++ (sent b'.expected_seq ∷ [])) s.emitted
                ∙ append_assoc out (stream sent b.expected_seq n) (sent b'.expected_seq ∷ []));
      }

  -- A round moves the expected number on by one: the slot it empties has room for a successor.
  pub round_next :
      (d t : Drain)
      → IsValid d.buffer
      → drain_round k d ≡ some t
      → t.buffer.expected_seq ≡ d.buffer.expected_seq + 1
  round_next d t v e =
      let (occupied, here, is) = drain_round-some k d t e in
      let c = d.buffer in
      let i = slot_index k c.expected_seq in
      let g = All-get_or (Slot k sent) c.ring i blank_slot (blank-Slot k sent) v.slots in
      rw is (omega (arith, g.has_next occupied, here))

  module _ (b : SequenceReorderBuffer) (out : List Bytes) where
    pub round-Streamed :
        (d t : Drain)
        → Streamed b out d.buffer d.out_emitted
        → drain_round k d ≡ some t
        → Streamed b out t.buffer t.out_emitted
    round-Streamed d t s e =
        let (occupied, here, is) = drain_round-some k d t e in
        let c = d.buffer in
        let i = slot_index k c.expected_seq in
        let g = All-get_or (Slot k sent) c.ring i blank_slot (blank-Slot k sent) s.valid.slots in
        let next : add_u64 c.expected_seq 1 ≡ c.expected_seq + 1 =
          omega (arith, g.has_next occupied, here) in
        let message : take (due k d).payload_len (due k d).payload ≡ sent c.expected_seq =
          g.holds occupied ∙ ap sent here in
        rw (is, message)
          (Streamed-snoc b c (drained_one k d).buffer out d.out_emitted s
            (record {
              slots =
                  All-set (Slot k sent) c.ring i _
                    (record { room = g.room; holds = λ z. cc; has_next = λ z. cc }) s.valid.slots;
              size = length-set c.ring i _ ∙ s.valid.size;
              expected_in = omega arith;
            })
            next)

    pub drain-Streamed :
        (c : SequenceReorderBuffer) (out' : List Bytes)
        → Streamed b out c out'
        → let d = drain_buffered k c out' in Streamed b out d.buffer d.out_emitted
    unfolding drain_buffered
    drain-Streamed c out' s =
        loop_inv (λ d. Streamed b out d.buffer d.out_emitted) (drain_round k) round-Streamed
          (2 ^ k + 1) (record { buffer = c; out_emitted = out'; drained = 0 }) s

  -- One call with the message of a number.
  abbrev pub deliver :
      SequenceReorderBuffer → ℕ → List Bytes → ℕ × SequenceReorderBuffer × List Bytes
  deliver b s out = push k b s (some (sent s)) (length (sent s)) out

  -- The state in which the expected packet leaves the drain to start.
  pub start_Streamed :
      (b : SequenceReorderBuffer) (s : ℕ) (out : List Bytes)
      → Feed sent
      → s + 1 < 2 ^ 64
      → IsValid b
      → s ≡ b.expected_seq
      → Streamed b out
          (record b { expected_seq = add_u64 b.expected_seq 1 })
          (out ++ emit (some (sent s)) (length (sent s)))
  unfolding emit
  start_Streamed b s out feed h v e =
      let next : add_u64 b.expected_seq 1 ≡ b.expected_seq + 1 = omega (arith, e) in
      let wanted : ltb 0 (length (sent s)) ≡ true = ground (arith, feed.nonempty s) in
      let message : emit (some (sent s)) (length (sent s)) ≡ sent b.expected_seq ∷ [] =
        rw (wanted, emit) (ap (λ l. l ∷ []) (take_all (sent s) ∙ ap sent e)) in
      let c = record b { expected_seq = add_u64 b.expected_seq 1 } in
      rw message (
        Streamed-snoc b b c out out (Streamed-refl b out v)
          (record { slots = v.slots; size = v.size; expected_in = omega (arith, next) }) next)

  pub now_Streamed :
      (b : SequenceReorderBuffer) (s : ℕ) (out : List Bytes)
      → Feed sent
      → s + 1 < 2 ^ 64
      → IsValid b
      → s ≡ b.expected_seq
      → let r = push_expected k b (some (sent s)) (length (sent s)) out in Streamed b out r.1 r.2
  unfolding push_expected
  now_Streamed b s out feed h v e =
      drain-Streamed b out (record b { expected_seq = add_u64 b.expected_seq 1 })
        (out ++ emit (some (sent s)) (length (sent s))) (start_Streamed b s out feed h v e)

  ahead-IsValid :
      (b : SequenceReorderBuffer) (s : ℕ)
      → Feed sent
      → s + 1 < 2 ^ 64
      → IsValid b
      → IsValid (buffer_ahead k b s (some (sent s)) (length (sent s)))
  unfolding buffer_ahead
  ahead-IsValid b s feed h v =
      let i = slot_index k s in
      let g = All-get_or (Slot k sent) b.ring i blank_slot (blank-Slot k sent) v.slots in
      record {
        slots =
            All-set (Slot k sent) b.ring i _ (fill_slot-Slot k sent (slot_at k b s) s feed g h)
              v.slots;
        size = length-set b.ring i _ ∙ v.size;
        expected_in = v.expected_in;
      }

  -- The same buffer for the invariant: its expected number and its ring are those of a valid one.
  same-Streamed :
      (b c : SequenceReorderBuffer) (out : List Bytes)
      → IsValid c
      → c.expected_seq ≡ b.expected_seq
      → Streamed b out c out
  unfolding stream
  same-Streamed b c out v e = record {
    valid = v;
    onward = omega (arith, e);
    emitted =
        let z : c.expected_seq - b.expected_seq ≡ 0 = omega (arith, e) in
        rw z (sym (append-nil out));
  }

  -- The branches of a call, with their conditions. The last two change a counter alone.
  pub push_cases :
      (P : SequenceReorderBuffer → List Bytes → Type 0) (b : SequenceReorderBuffer) (s : ℕ)
      (out : List Bytes)
      → (s ≡ b.expected_seq
          → let r = push_expected k b (some (sent s)) (length (sent s)) out in P r.1 r.2)
      → (b.expected_seq < s
          → s < add_u64 b.expected_seq (2 ^ k)
          → P (buffer_ahead k b s (some (sent s)) (length (sent s))) out)
      → (b.expected_seq < s
          → add_u64 b.expected_seq (2 ^ k) ≤ s
          → P (record b { overflow_count = add_u64 b.overflow_count 1 }) out)
      → (s < b.expected_seq → P (record b { duplicates_count = add_u64 b.duplicates_count 1 }) out)
      → let r = deliver b s out in P r.1 r.2
  unfolding push
  push_cases P b s out now near far late = elim (Bool-cases (s == b.expected_seq)) [
    | inl e ↦ rw (e, push) (now (==→eq s b.expected_seq e))
    | inr ne ↦ elim (Bool-cases (ltb b.expected_seq s)) [
      | inl ahead ↦
          let lt = ltb→lt b.expected_seq s ahead in
          elim (Bool-cases (ltb s (add_u64 b.expected_seq (2 ^ k)))) [
            | inl inside ↦
                rw (ne, ahead, inside, push)
                  (near lt (ltb→lt s (add_u64 b.expected_seq (2 ^ k)) inside))
            | inr outside ↦
                rw (ne, ahead, outside, push)
                  (far lt (ltb→ge s (add_u64 b.expected_seq (2 ^ k)) outside))
          ]
      | inr behind ↦ rw (ne, behind, push) (late (ground arith))
    ]
  ]

  -- The invariant reads the ring and the expected number alone.
  same-IsValid :
      (b c : SequenceReorderBuffer)
      → IsValid b
      → c.ring ≡ b.ring
      → c.expected_seq ≡ b.expected_seq
      → IsValid c
  same-IsValid b c v r e = record {
    slots = rw r v.slots;
    size = rw r v.size;
    expected_in = omega (arith, v.expected_in);
  }

  pub push-Streamed :
      (b : SequenceReorderBuffer) (s : ℕ) (out : List Bytes)
      → Feed sent
      → s + 1 < 2 ^ 64
      → IsValid b
      → let r = deliver b s out in Streamed b out r.1 r.2
  unfolding buffer_ahead
  push-Streamed b s out feed h v =
      push_cases (Streamed b out) b s out (now_Streamed b s out feed h v)
        (λ lt near. same-Streamed b _ out (ahead-IsValid b s feed h v) refl)
        (λ lt far. same-Streamed b _ out (same-IsValid b _ v refl refl) refl)
        (λ lt. same-Streamed b _ out (same-IsValid b _ v refl refl) refl)

  -- A row of calls, in the order of arrival.
  unfoldable pub deliver_all :
      SequenceReorderBuffer → List ℕ → List Bytes → SequenceReorderBuffer × List Bytes
  deliver_all b [] out = (b, out)
  deliver_all b (s ∷ ss) out = let r = deliver b s out in deliver_all r.1 ss r.2

  Streamed-trans :
      (a b c : SequenceReorderBuffer) (out out' out'' : List Bytes)
      → Streamed a out b out'
      → Streamed b out' c out''
      → Streamed a out c out''
  Streamed-trans a b c out out' out'' p q =
      let m = b.expected_seq - a.expected_seq in
      let n = c.expected_seq - b.expected_seq in
      let whole : c.expected_seq - a.expected_seq ≡ m + n = omega (arith, p.onward, q.onward) in
      let here : a.expected_seq + m ≡ b.expected_seq = omega (arith, p.onward) in
      record {
        valid = q.valid;
        onward = omega (arith, p.onward, q.onward);
        emitted =
            q.emitted
            ∙ ap (λ l. l ++ stream sent b.expected_seq n) p.emitted
            ∙ append_assoc out (stream sent a.expected_seq m) (stream sent b.expected_seq n)
            ∙ ap (λ l. out ++ l)
                (ap (λ j. stream sent a.expected_seq m ++ stream sent j n) (sym here)
                  ∙ sym (stream-append sent a.expected_seq m n)
                  ∙ ap (stream sent a.expected_seq) (sym whole));
      }

  -- For a feed of messages of 1 to 512 bytes, numbered below 2 ^ 64 - 1, and a valid buffer:
  -- however the packets arrive, in whatever order and however often, the vector grows by
  -- exactly the sender's messages from the first expected number up to the last, each once and in
  -- order.
  pub deliver_all-Streamed :
      (b : SequenceReorderBuffer) (ss : List ℕ) (out : List Bytes)
      → Feed sent
      → All (λ s. s + 1 < 2 ^ 64) ss
      → IsValid b
      → let r = deliver_all b ss out in Streamed b out r.0 r.1
  unfolding deliver_all
  deliver_all-Streamed b [] out feed h v = Streamed-refl b out v
  deliver_all-Streamed b (s ∷ ss) out feed h v =
      let one = push-Streamed b s out feed h.0 v in
      let r = deliver b s out in
      Streamed-trans b r.1 (deliver_all r.1 ss r.2).0 out r.2 (deliver_all r.1 ss r.2).1 one
        (deliver_all-Streamed r.1 ss r.2 feed h.1 one.valid)
