-- ===== src/Common/SpscQueue/PushBatch.antt =====
-- `push_batch`: the two contiguous copies append a stretch to the ring.
use hft_fix_engine.Base.{
  ℕ, ◌+◌, ◌-◌, ◌<◌, ◌≤◌, ◌≡◌, ◌^◌, refl, sym, ap, ap₂, ◌∙◌, List, ◌++◌, length, length-take, take,
  drop, ltb, leb, min, arith, two-pow-pos, inl, inr, Bool-cases, take-slice,
}
use hft_fix_engine.Common.SpscQueue.{
  SpscQueue, advance, dist, free_between, slice, blit, push_free, push_batch, capacity,
}
use hft_fix_engine.Common.SpscQueue.Window.{window, length-window}
use hft_fix_engine.Common.SpscQueue.Valid.{IsValid, contents, advance_lem}
use hft_fix_engine.Common.SpscQueue.Walk.{
  steps, writes, writes-append, blit-writes, length-writes, window-writes,
}

module _ {A : Type 0} (k : ℕ) (blank : A) where
  abbrev c : ℕ
  c = 2 ^ k

  -- The two copies write `items` round the ring.
  two_copies :
      (buf : List A) (w : ℕ) (items : List A) (n : ℕ)
      → w < c
      → n ≤ c
      → n ≤ length items
      → blit
          (blit buf w (slice items 0 (min n (c - w))))
          0
          (slice items (min n (c - w)) (n - min n (c - w)))
        ≡ writes blank c buf w (take n items)
  unfolding blit writes
  two_copies buf w items n hw le fits = elim (Bool-cases (leb n (c - w))) [
    | inl short ↦
        let e : min n (c - w) ≡ n = ground arith in
        let z : n - n ≡ 0 = omega arith in
        rw (e, z) (blit-writes blank c buf w (take n items) (ground (arith, length-take n items)))
    | inr long ↦
        let m = c - w in
        let e : min n m ≡ m = ground arith in
        let xs = take m items in
        let ys = take (n - m) (drop m items) in
        let lx : length xs ≡ m = ground (arith, length-take m items) in
        let ly : length ys ≤ c = omega (arith, length-take (n - m) (drop m items)) in
        rw e (
          blit-writes blank c (blit buf w xs) 0 ys (omega arith)
          ∙ ap (λ l. writes blank c l 0 ys) (blit-writes blank c buf w xs (omega arith))
          ∙ ap (λ j. writes blank c (writes blank c buf w xs) j ys)
              (let st : 0 ≡ steps blank c w (length xs) = ground arith in st)
          ∙ sym (writes-append blank c buf w xs ys hw (omega arith))
          ∙ ap (writes blank c buf w) (
              take-slice items m (n - m)
              ∙ ap (λ j. take j items) (let s : m + (n - m) ≡ n = ground arith in s)))
  ]

  -- What a batch push does: as many items as there is room for go to the end, in order.
  pub record Pushed (q : SpscQueue A) (items : List A) (r : ℕ × SpscQueue A) : Type 0 where
    pub count : r.0 ≡ min (capacity k - length (contents k blank q)) (length items)
    pub back : contents k blank r.1 ≡ contents k blank q ++ take r.0 items
    pub valid : IsValid k blank r.1

  -- The copies into `free_slots` slots, where these hold no less of the items than are free.
  push_free-Pushed :
      (q : SpscQueue A) (free_slots : ℕ) (items : List A)
      → IsValid k blank q
      → min free_slots (length items) ≡ min (c - 1 - dist c q.read_pos q.write_pos) (length items)
      → min free_slots (length items) + dist c q.cached_read_pos q.write_pos < c
      → Pushed q items (push_free k blank q free_slots items)
  unfolding push_free capacity
  push_free-Pushed q free_slots items v e behind =
      let r = q.read_pos in
      let w = q.write_pos in
      let d = dist c r w in
      let n = min free_slots (length items) in
      let taken = take n items in
      let lt : d < c = ground arith in
      let room : n + d < c = omega (arith, two-pow-pos k) in
      let len : length taken ≡ n = omega (arith, length-take n items) in
      let adv = advance_lem k w n v.small v.write_in (omega arith) in
      let copies = two_copies q.buffer w items n v.write_in (omega arith) (omega arith) in
      let grown : dist c r (advance k w n) ≡ d + length taken = ground (arith, adv) in
      record {
        count = omega (arith, e, length-window blank c q.buffer r d);
        back =
            ap₂ (λ buf m. window blank c buf r m) copies grown
            ∙ window-writes blank c q.buffer taken d r w (omega (arith, v.storage)) v.read_in
                v.write_in refl (omega arith);
        valid = record {
          small = v.small;
          storage = ap length copies ∙ length-writes blank c q.buffer w taken ∙ v.storage;
          write_in = ground (arith, adv);
          read_in = v.read_in;
          cached_read_in = v.cached_read_in;
          cached_write_in = v.cached_write_in;
          read_behind = ground (arith, adv);
          write_behind = ground (arith, grown);
        };
      }

  -- `push_batch` on a valid ring appends as many of the items as there is room for, from the first
  -- on, and returns their number. The ring stays valid.
  pub push_batch-Pushed :
      (q : SpscQueue A) (items : List A)
      → IsValid k blank q
      → Pushed q items (push_batch k blank q items)
  unfolding push_batch push_free capacity
  push_batch-Pushed q items v =
      elim (Bool-cases (ltb (free_between c q.cached_read_pos q.write_pos) (length items))) [
        | inl short ↦
            rw (short, push_batch)
              (let p =
                  push_free-Pushed (record q { cached_read_pos = q.read_pos })
                    (free_between c q.read_pos q.write_pos) items (ground arith) (ground arith)
                    (ground arith) in
                record { count = p.count; back = p.back; valid = p.valid })
        | inr fits ↦
            rw (fits, push_batch)
              (push_free-Pushed q (free_between c q.cached_read_pos q.write_pos) items v
                (ground arith) (ground arith))
      ]
