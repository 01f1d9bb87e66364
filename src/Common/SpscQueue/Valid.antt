-- ===== src/Common/SpscQueue/Valid.antt =====
-- The invariant of the ring. Positions are below the capacity; the cached positions may be stale,
-- but lie where the other thread's position has been since.
use native.Mathlib.Nat.{pow-le-pow_right}
use hft_fix_engine.Base.{
  ℕ, ◌+◌, ◌-◌, ◌<◌, ◌≤◌, ◌≡◌, ◌^◌, List, length, length-set, length-replicate, ltb, if◌then◌else◌,
  arith, mask_wrap, two-pow-pos, add_u64,
}
use hft_fix_engine.Common.SpscQueue.{SpscQueue, advance, dist, empty_queue, push, pop}
use hft_fix_engine.Common.SpscQueue.Window.{next, window}

pub two-pow-small : (k : ℕ) → k < 64 → 2 ^ k ≤ 2 ^ 63
two-pow-small k h = pow-le-pow_right {n = 2} (omega arith) {i = k} {j = 63} (omega arith)

-- Moving a position by at most the capacity takes the capacity off at most once.
pub advance_lem :
    (k pos n : ℕ)
    → k < 64
    → pos < 2 ^ k
    → n ≤ 2 ^ k
    → advance k pos n ≡ (if ltb (pos + n) (2 ^ k) then pos + n else pos + n - 2 ^ k)
unfolding advance
advance_lem k pos n small h le =
    let bound = two-pow-small k small in
    let fits : add_u64 pos n ≡ pos + n = omega arith in
    rw fits (mask_wrap (pos + n) k (omega arith))

pub advance-next : (k pos : ℕ) → k < 64 → pos < 2 ^ k → advance k pos 1 ≡ next (2 ^ k) pos
advance-next k pos small h = ground (arith, advance_lem k pos 1 small h (two-pow-pos k))

module _ {ℓ} {A : Type ℓ} (k : ℕ) (blank : A) where
  pub record IsValid (q : SpscQueue A) : Type 0 where
    pub small : k < 64
    pub storage : length q.buffer ≡ 2 ^ k
    pub write_in : q.write_pos < 2 ^ k
    pub read_in : q.read_pos < 2 ^ k
    pub cached_read_in : q.cached_read_pos < 2 ^ k
    pub cached_write_in : q.cached_write_pos < 2 ^ k
    pub read_behind :
        dist (2 ^ k) q.read_pos q.write_pos ≤ dist (2 ^ k) q.cached_read_pos q.write_pos
    pub write_behind :
        dist (2 ^ k) q.read_pos q.cached_write_pos ≤ dist (2 ^ k) q.read_pos q.write_pos

  -- The items in the ring, oldest first.
  abbrev pub contents : SpscQueue A → List A
  contents q = window blank (2 ^ k) q.buffer q.read_pos (dist (2 ^ k) q.read_pos q.write_pos)

  pub empty_queue-IsValid : k < 64 → IsValid (empty_queue k blank)
  unfolding empty_queue
  empty_queue-IsValid small = record {
    small = small;
    storage = length-replicate (2 ^ k) blank;
    write_in = two-pow-pos k;
    read_in = two-pow-pos k;
    cached_read_in = two-pow-pos k;
    cached_write_in = two-pow-pos k;
    read_behind = ground arith;
    write_behind = ground arith;
  }

  -- A push on a valid ring, whether it succeeds or not, leaves a valid ring.
  pub push-IsValid : (q : SpscQueue A) (v : A) → IsValid q → IsValid (push k blank q v).1
  unfolding push
  push-IsValid q v i =
      ground
        (arith, advance-next k q.write_pos i.small i.write_in, length-set q.buffer q.write_pos v)

  -- A pop on a valid ring, whether it succeeds or not, leaves a valid ring.
  pub pop-IsValid : (q : SpscQueue A) (old : A) → IsValid q → IsValid (pop k blank q old).2
  unfolding pop
  pop-IsValid q old i = ground (arith, advance-next k q.read_pos i.small i.read_in)
