-- ===== src/Common/SpscQueue/PopBatch.antt =====
-- `pop_batch`: the two contiguous moves out of the ring take a stretch off its front.
use hft_fix_engine.Base.{
  ℕ, ◌+◌, ◌-◌, ◌<◌, ◌≤◌, ◌≡◌, ◌≢◌, ◌^◌, refl, sym, ap, ap₂, ◌∙◌, List, [], ◌++◌, append-nil, length,
  leb, ◌==◌, min, arith, inl, inr, Bool-cases, ==→eq, ==→ne,
}
use hft_fix_engine.Common.SpscQueue.{SpscQueue, advance, dist, slice, pop_available, pop_batch}
use hft_fix_engine.Common.SpscQueue.Window.{window, length-window}
use hft_fix_engine.Common.SpscQueue.Valid.{IsValid, contents, advance_lem}
use hft_fix_engine.Common.SpscQueue.Walk.{window-split, slice-window}

module _ {A : Type 0} (k : ℕ) (blank : A) where
  abbrev c : ℕ
  c = 2 ^ k

  -- What a batch pop does: it takes `items` off the front of the ring, no more than asked for, and
  -- at least one if the ring holds one and one is asked for.
  pub record Popped (q : SpscQueue A) (max_items : ℕ) (r : List A × SpscQueue A) : Type 0 where
    pub front : contents k blank q ≡ r.0 ++ contents k blank r.1
    pub bounded : length r.0 ≤ max_items
    pub progress : contents k blank q ≢ [] → 0 < max_items → 0 < length r.0
    pub valid : IsValid k blank r.1

  -- The two moves out of the ring read `n` items from `h` on.
  two_moves :
      (buf : List A) (h n : ℕ)
      → length buf ≡ c
      → h < c
      → n ≤ c
      → slice buf h (min n (c - h)) ++ slice buf 0 (n - min n (c - h)) ≡ window blank c buf h n
  two_moves buf h n fits hh le = elim (Bool-cases (leb n (c - h))) [
    | inl short ↦
        let e : min n (c - h) ≡ n = ground arith in
        let z : n - n ≡ 0 = omega arith in
        rw (e, z)
          (append-nil (slice buf h n) ∙ slice-window blank c buf n h (ground arith) (omega arith))
    | inr long ↦
        let e : min n (c - h) ≡ c - h = ground arith in
        let s : n ≡ (c - h) + (n - (c - h)) = ground arith in
        rw e (
          ap₂ ◌++◌ (slice-window blank c buf (c - h) h (omega arith) (omega arith)) (
            slice-window blank c buf (n - (c - h)) 0 (omega arith) (omega arith)
            ∙ ap (λ j. window blank c buf j (n - (c - h))) (ground arith))
          ∙ sym (window-split blank c buf (c - h) (n - (c - h)) h hh (omega arith))
          ∙ ap (window blank c buf h) (sym s))
  ]

  -- The moves, up to the write position that the consumer has seen.
  pop_available-Popped :
      (q : SpscQueue A) (max_items : ℕ)
      → IsValid k blank q
      → q.read_pos ≢ q.cached_write_pos
      → Popped q max_items (pop_available k blank q q.cached_write_pos max_items)
  unfolding pop_available
  pop_available-Popped q max_items v ne =
      let r = q.read_pos in
      let d = dist c r q.write_pos in
      let n = min (dist c r q.cached_write_pos) max_items in
      let le : n ≤ d = ground arith in
      let lt : d < c = ground arith in
      let some_seen : 0 < dist c r q.cached_write_pos = ground arith in
      let adv = advance_lem k r n v.small v.read_in (omega arith) in
      let moves = two_moves q.buffer r n v.storage v.read_in (omega arith) in
      let rest : dist c (advance k r n) q.write_pos ≡ d - n = ground (arith, adv) in
      let count : length (slice q.buffer r (min n (c - r)) ++ slice q.buffer 0 (n - min n (c - r)))
          ≡ n =
        ap length moves ∙ length-window blank c q.buffer r n in
      record {
        front =
            ap (window blank c q.buffer r) (let e : d ≡ n + (d - n) = omega arith in e)
            ∙ window-split blank c q.buffer n (d - n) r v.read_in (omega arith)
            ∙ ap₂ ◌++◌ (sym moves) (ap₂ (window blank c q.buffer) (sym adv) (sym rest));
        bounded = omega (arith, count);
        progress = λ some_item wanted. omega (arith, count, some_seen);
        valid = record {
          small = v.small;
          storage = v.storage;
          write_in = v.write_in;
          read_in = ground (arith, adv);
          cached_read_in = v.cached_read_in;
          cached_write_in = v.cached_write_in;
          read_behind = omega (arith, rest);
          write_behind = ground (arith, adv);
        };
      }

  reload : SpscQueue A → SpscQueue A
  reload q = record q { cached_write_pos = q.write_pos }

  reload-IsValid : (q : SpscQueue A) → IsValid k blank q → IsValid k blank (reload q)
  unfolding reload
  reload-IsValid q v = ground arith

  empty-contents : (q : SpscQueue A) → q.read_pos ≡ q.write_pos → contents k blank q ≡ []
  empty-contents q e =
      ap (window blank c q.buffer q.read_pos)
        (let z : dist c q.read_pos q.write_pos ≡ 0 = ground arith in z)

  -- `pop_batch` on a valid ring takes its result off the front, in order: no more than `max_items`,
  -- and at least one item if there is one and one is asked for. The ring stays valid.
  pub pop_batch-Popped :
      (q : SpscQueue A) (max_items : ℕ)
      → IsValid k blank q
      → Popped q max_items (pop_batch k blank q max_items)
  unfolding pop_batch reload
  pop_batch-Popped q max_items v = elim (Bool-cases (q.read_pos == q.cached_write_pos)) [
    | inl e ↦ elim (Bool-cases (q.read_pos == q.write_pos)) [
      | inl none_left ↦
          let z = empty-contents q (==→eq _ _ none_left) in
          rw (e, none_left, pop_batch)
            (record {
              front = refl;
              bounded = omega arith;
              progress = λ some_item wanted. absurd (some_item z);
              valid = reload-IsValid q v;
            })
      | inr more ↦
          rw (e, more, pop_batch)
            (let p =
                pop_available-Popped (reload q) max_items (reload-IsValid q v)
                  (==→ne q.read_pos q.write_pos more) in
              record {
                front = p.front;
                bounded = p.bounded;
                progress = p.progress;
                valid = p.valid;
              })
    ]
    | inr ne ↦
        rw (ne, pop_batch)
          (pop_available-Popped q max_items v (==→ne q.read_pos q.cached_write_pos ne))
  ]
