-- ===== src/Protocol/GapDetector/Coverage.antt =====
-- What a row of calls says of the numbers that it passes: each was received or stands in a gap.
use hft_fix_engine.Base.{
  ℕ, ◌+◌, ◌<◌, ◌≤◌, ◌≡◌, ◌^◌, ◌⊎◌, inl, inr, List, [], ◌∷◌, All, length, add_u64, arith,
}
use hft_fix_engine.Protocol.GapDetector.{
  SequenceGapDetector, GapCheckResult, gap_detected, duplicate, process_sequence, process_all,
}

-- A number that leaves room for its successor.
abbrev pub HasNext : ℕ → Type 0
HasNext s = s + 1 < 2 ^ 64

-- The call for `s`, answered by `r`, says what became of `n`.
abbrev pub Explains : ℕ → ℕ → GapCheckResult → Type 0
Explains n s r = (n ≡ s) ⊎ ((r.status ≡ gap_detected) × (r.gap.begin_seq ≤ n) × (n ≤ r.gap.end_seq))

abbrev pub Explained : ℕ → List ℕ → List GapCheckResult → Type 0
Explained n [] rs = ⊥
Explained n (s ∷ ss) [] = ⊥
Explained n (s ∷ ss) (r ∷ rs) = Explains n s r ⊎ Explained n ss rs

-- Calls that moved the expected number on, calls that found a gap, and duplicates.
abbrev pub accepted : List GapCheckResult → ℕ
accepted [] = 0
accepted (r ∷ rs) = (elim r.status [ duplicate ↦ 0 | _ ↦ 1 ]) + accepted rs

abbrev pub gaps : List GapCheckResult → ℕ
gaps [] = 0
gaps (r ∷ rs) = (elim r.status [ gap_detected ↦ 1 | _ ↦ 0 ]) + gaps rs

abbrev pub duplicates : List GapCheckResult → ℕ
duplicates [] = 0
duplicates (r ∷ rs) = (elim r.status [ duplicate ↦ 1 | _ ↦ 0 ]) + duplicates rs

abbrev pub lost : List GapCheckResult → ℕ
lost [] = 0
lost (r ∷ rs) = r.gap.missing_count + lost rs

step-Explains :
    (d : SequenceGapDetector) (s n : ℕ)
    → HasNext s
    → d.expected_seq ≤ n
    → let (r, e) = process_sequence d s in Explains n s r ⊎ (e.expected_seq ≤ n)
unfolding process_sequence
step-Explains d s n h le = ground arith

-- If each number received is below 2 ^ 64 - 1, every number that the detector has moved
-- past was received, or lies in a gap that it reported.
pub process_all-Explained :
    (d : SequenceGapDetector) (ss : List ℕ) (n : ℕ)
    → All HasNext ss
    → d.expected_seq ≤ n
    → n < (process_all d ss).1.expected_seq
    → Explained n ss (process_all d ss).0
unfolding process_all
process_all-Explained d [] n h le lt = absurd (omega arith)
process_all-Explained d (s ∷ ss) n h le lt = elim (step-Explains d s n h.0 le) [
  | inl e ↦ inl e
  | inr le' ↦ inr (process_all-Explained (process_sequence d s).1 ss n h.1 le' lt)
]

-- The counters of a detector are below 2 ^ 64.
pub record InRange (d : SequenceGapDetector) : Type 0 where
  pub expected_in : d.expected_seq < 2 ^ 64
  pub gaps_in : d.gaps_detected < 2 ^ 64
  pub lost_in : d.packets_lost < 2 ^ 64
  pub duplicates_in : d.duplicates_count < 2 ^ 64

-- The counters after a row of calls, from its results.
pub record Tallied (d e : SequenceGapDetector) (rs : List GapCheckResult) (n : ℕ) : Type 0 where
  pub answered : length rs ≡ n
  pub split : accepted rs + duplicates rs ≡ n
  pub expected : e.expected_seq ≡ d.expected_seq + accepted rs + lost rs
  pub gaps_counted : e.gaps_detected ≡ add_u64 d.gaps_detected (gaps rs)
  pub lost_counted : e.packets_lost ≡ add_u64 d.packets_lost (lost rs)
  pub duplicates_counted : e.duplicates_count ≡ add_u64 d.duplicates_count (duplicates rs)

step-Tallied :
    (d : SequenceGapDetector) (s : ℕ)
    → HasNext s
    → InRange d
    → let (r, e) = process_sequence d s in Tallied d e (r ∷ []) 1 × InRange e
unfolding process_sequence
step-Tallied d s h v = ground arith

-- With counters below 2 ^ 64, over any row of numbers that are all below 2 ^ 64 - 1: the expected
-- number grows by the calls accepted and the numbers lost, every call is accepted or a duplicate,
-- and the counters add up the results modulo 2 ^ 64.
pub process_all-Tallied :
    (d : SequenceGapDetector) (ss : List ℕ)
    → All HasNext ss
    → InRange d
    → Tallied d (process_all d ss).1 (process_all d ss).0 (length ss)
unfolding process_all
process_all-Tallied d [] h v = omega arith
process_all-Tallied d (s ∷ ss) h v =
    let (one, v') = step-Tallied d s h.0 v in
    let rest = process_all-Tallied (process_sequence d s).1 ss h.1 v' in
    record {
      answered = omega (arith, rest.answered);
      split = omega (arith, one.split, rest.split);
      expected = omega (arith, one.expected, rest.expected);
      gaps_counted = omega (arith, one.gaps_counted, rest.gaps_counted);
      lost_counted = omega (arith, one.lost_counted, rest.lost_counted);
      duplicates_counted = omega (arith, one.duplicates_counted, rest.duplicates_counted);
    }
