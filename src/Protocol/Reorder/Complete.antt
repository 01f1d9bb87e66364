-- ===== src/Protocol/Reorder/Complete.antt =====
-- Completeness: what has arrived within the window comes out as soon as all before it has.
use hft_fix_engine.Base.{
  ℕ, ◌+◌, ◌<◌, ◌≤◌, ◌≡◌, ◌^◌, subst, inl, inr, ◌⊎◌, List, [], ◌∷◌, All, ltb, ltb→lt, ltb→ge,
  Bool-cases, Bytes, arith,
}
use hft_fix_engine.Protocol.Reorder.{SequenceReorderBuffer}
use hft_fix_engine.Protocol.Reorder.Ring.{Feed}
use hft_fix_engine.Protocol.Reorder.Stream.{
  IsValid, deliver, push-Streamed, deliver_all, deliver_all-Streamed,
}
use hft_fix_engine.Protocol.Reorder.Due.{
  Pending, Safe, deliver-Safe, deliver-Safe_self, deliver_not_stuck,
}

-- `s` stands in a row of arrivals.
abbrev pub Arrives : ℕ → List ℕ → Type 0
Arrives s [] = ⊥
Arrives s (t ∷ ts) = (s ≡ t) ⊎ Arrives s ts

module _ (k : ℕ) (sent : ℕ → Bytes) (feed : Feed sent) where
  deliver_all-Safe :
      (b : SequenceReorderBuffer) (s : ℕ) (ts : List ℕ) (out : List Bytes)
      → All (λ t. t + 1 < 2 ^ 64) ts
      → IsValid k sent b
      → Safe k s b
      → Safe k s (deliver_all k sent b ts out).0
  unfolding deliver_all
  deliver_all-Safe b s [] out h v safe = safe
  deliver_all-Safe b s (t ∷ ts) out h v safe =
      let r = deliver k sent b t out in
      deliver_all-Safe r.1 s ts r.2 h.1 (push-Streamed k sent b t out feed h.0 v).valid
        (deliver-Safe k sent feed b s t out h.0 v safe)

  -- A packet within the window is safe once it has come, whenever it comes.
  one-Safe :
      (b : SequenceReorderBuffer) (s t : ℕ) (out : List Bytes)
      → s ≡ t
      → t + 1 < 2 ^ 64
      → s + 2 ^ k < 2 ^ 64
      → s < b.expected_seq + 2 ^ k
      → IsValid k sent b
      → Safe k s (deliver k sent b t out).1
  one-Safe b s t out e h room near v =
      subst (λ j. Safe k s (deliver k sent b j out).1) e
        (elim (Bool-cases (ltb s b.expected_seq)) [
          | inl passed ↦
              deliver-Safe k sent feed b s s out (omega arith) v
                (inl (ltb→lt s b.expected_seq passed))
          | inr ahead ↦
              deliver-Safe_self k sent feed b s out (omega arith)
                (omega (arith, ltb→ge s b.expected_seq ahead)) v
        ])

  arrived-Safe :
      (b : SequenceReorderBuffer) (s : ℕ) (ts : List ℕ) (out : List Bytes)
      → All (λ t. t + 1 < 2 ^ 64) ts
      → s + 2 ^ k < 2 ^ 64
      → s < b.expected_seq + 2 ^ k
      → IsValid k sent b
      → Arrives s ts
      → Safe k s (deliver_all k sent b ts out).0
  unfolding deliver_all
  arrived-Safe b s [] out h room near v a = absurd a
  arrived-Safe b s (t ∷ ts) out h room near v (inl e) =
      let r = deliver k sent b t out in
      deliver_all-Safe r.1 s ts r.2 h.1 (push-Streamed k sent b t out feed h.0 v).valid
        (one-Safe b s t out e h.0 room near v)
  arrived-Safe b s (t ∷ ts) out h room near v (inr a) =
      let r = deliver k sent b t out in
      let one = push-Streamed k sent b t out feed h.0 v in
      arrived-Safe r.1 s ts r.2 h.1 room (omega (arith, one.onward)) one.valid a

  All-not_stuck :
      (b : SequenceReorderBuffer) (ts : List ℕ) (out : List Bytes)
      → All (λ t. t + 1 < 2 ^ 64) ts
      → IsValid k sent b
      → ¬ Pending k b b.expected_seq
      → ¬ Pending k (deliver_all k sent b ts out).0 (deliver_all k sent b ts out).0.expected_seq
  unfolding deliver_all
  All-not_stuck b [] out h v free = free
  All-not_stuck b (t ∷ ts) out h v free =
      let r = deliver k sent b t out in
      All-not_stuck r.1 ts r.2 h.1 (push-Streamed k sent b t out feed h.0 v).valid
        (deliver_not_stuck k sent feed b t out h.0 v free)

  -- For a feed of messages of 1 to 512 bytes, numbers below 2 ^ 64 - 1, and a valid buffer that holds
  -- nothing due: if every number from the expected one up to `last` arrives, in any order and among
  -- any others, `last` lies within the window at the start, and the window behind it stays below
  -- 2 ^ 64, then all of them have come out at the end: the buffer expects a number beyond `last`.
  pub deliver_all_complete :
      (b : SequenceReorderBuffer) (last : ℕ) (ts : List ℕ) (out : List Bytes)
      → All (λ t. t + 1 < 2 ^ 64) ts
      → IsValid k sent b
      → ¬ Pending k b b.expected_seq
      → last + 2 ^ k < 2 ^ 64
      → last < b.expected_seq + 2 ^ k
      → ((s : ℕ) → b.expected_seq ≤ s → s ≤ last → Arrives s ts)
      → last < (deliver_all k sent b ts out).0.expected_seq
  deliver_all_complete b last ts out h v free room near arrives =
      let c = (deliver_all k sent b ts out).0 in
      let onward = (deliver_all-Streamed k sent b ts out feed h v).onward in
      elim (Bool-cases (ltb last c.expected_seq)) [
        | inl done ↦ ltb→lt last c.expected_seq done
        | inr short ↦
            let le : c.expected_seq ≤ last = ltb→ge last c.expected_seq short in
            let safe =
              arrived-Safe b c.expected_seq ts out h (omega arith) (omega arith) v
                (arrives c.expected_seq onward le) in
            elim safe [
              | inl lt ↦ absurd (omega arith)
              | inr (close, p) ↦ absurd (All-not_stuck b ts out h v free p)
            ]
      ]
