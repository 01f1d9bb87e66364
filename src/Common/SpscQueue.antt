-- ===== src/Common/SpscQueue.antt =====
-- include/hft/common/SPSCQueue.hpp: the bounded ring between one producer and one consumer. Here
-- each operation runs alone, from its first load to its last store. `Capacity` is 2 ^ k, as its
-- static_assert says, and `blank` is the value-initialised T.
pub mod Window
pub mod Valid
pub mod Fifo
pub mod Queries
pub mod Walk
pub mod PopBatch
pub mod PushBatch
mod Tests
use hft_fix_engine.Base.{
  ℕ, ◌+◌, ◌-◌, ◌^◌, ◌≡◌, min, bit_and, Bool, true, false, List, [], ◌∷◌, ◌++◌, length, get_or, set,
  take, drop, replicate, ltb, leb, ◌==◌, if◌then◌else◌, add_u64,
}

pub record SpscQueue {ℓ} (A : Type ℓ) : Type ℓ where
  pub write_pos : ℕ
  pub cached_read_pos : ℕ
  pub buffer : List A
  pub read_pos : ℕ
  pub cached_write_pos : ℕ

-- `(pos + n) & (Capacity - 1)`.
unfoldable pub advance : ℕ → ℕ → ℕ → ℕ
advance k pos n = bit_and (add_u64 pos n) (2 ^ k - 1)

-- `(write >= read) ? (write - read) : (Capacity - read + write)`.
abbrev pub dist : ℕ → ℕ → ℕ → ℕ
dist capacity read write = if leb read write then write - read else capacity - read + write

-- `(read > write) ? (read - write - 1) : (Capacity - write + read - 1)`.
abbrev pub free_between : ℕ → ℕ → ℕ → ℕ
free_between capacity read write =
    if ltb write read then read - write - 1 else capacity - write + read - 1

module _ {ℓ} {A : Type ℓ} where
  -- `std::copy` and `std::move` of a contiguous range.
  abbrev pub slice : List A → ℕ → ℕ → List A
  slice buf i n = take n (drop i buf)

  unfoldable pub blit : List A → ℕ → List A → List A
  blit buf i [] = buf
  blit buf i (x ∷ xs) = blit (set buf i x) (i + 1) xs

module _ {ℓ} {A : Type ℓ} (k : ℕ) (blank : A) where
  -- The constructor.
  unfoldable pub empty_queue : SpscQueue A
  empty_queue = record {
    write_pos = 0;
    cached_read_pos = 0;
    buffer = replicate (2 ^ k) blank;
    read_pos = 0;
    cached_write_pos = 0;
  }

  -- The write of an item and the release of the new position.
  abbrev store : SpscQueue A → A → Bool × SpscQueue A
  store q item = (
    true,
    record q { buffer = set q.buffer q.write_pos item; write_pos = advance k q.write_pos 1 },
  )

  -- The cached read position is reloaded only if the queue seems full.
  unfoldable pub push : SpscQueue A → A → Bool × SpscQueue A
  unfolding advance
  push q item =
      let next_write = advance k q.write_pos 1 in
      let reloaded = record q { cached_read_pos = q.read_pos } in
      if next_write == q.cached_read_pos
      then (if next_write == q.read_pos then (false, reloaded) else store reloaded item)
      else store q item

  abbrev fetch : SpscQueue A → Bool × A × SpscQueue A
  fetch q = (true, get_or q.buffer q.read_pos blank, record q { read_pos = advance k q.read_pos 1 })

  -- The item of a failed `pop` is the caller's, here `old`.
  unfoldable pub pop : SpscQueue A → A → Bool × A × SpscQueue A
  unfolding advance
  pop q old =
      let reloaded = record q { cached_write_pos = q.write_pos } in
      if q.read_pos == q.cached_write_pos
      then (if q.read_pos == q.write_pos then (false, old, reloaded) else fetch reloaded)
      else fetch q

  -- The two contiguous moves out of the ring, up to `write_pos`.
  unfoldable pub pop_available : SpscQueue A → ℕ → ℕ → List A × SpscQueue A
  unfolding advance
  pop_available q write_pos max_items =
      let available = dist (2 ^ k) q.read_pos write_pos in
      let count = min available max_items in
      let first_chunk = min count (2 ^ k - q.read_pos) in
      (
        slice q.buffer q.read_pos first_chunk ++ slice q.buffer 0 (count - first_chunk),
        record q { read_pos = advance k q.read_pos count },
      )

  -- The items moved to `output_items`; their number is the result of the source.
  unfoldable pub pop_batch : SpscQueue A → ℕ → List A × SpscQueue A
  unfolding pop_available
  pop_batch q max_items =
      let reloaded = record q { cached_write_pos = q.write_pos } in
      if q.read_pos == q.cached_write_pos
      then (if q.read_pos == q.write_pos
          then ([], reloaded)
          else pop_available reloaded q.write_pos max_items)
      else pop_available q q.cached_write_pos max_items

  -- The two contiguous copies into the ring.
  unfoldable pub push_free : SpscQueue A → ℕ → List A → ℕ × SpscQueue A
  unfolding advance blit
  push_free q free_slots items =
      let to_push = min free_slots (length items) in
      let first_chunk = min to_push (2 ^ k - q.write_pos) in
      let once = blit q.buffer q.write_pos (slice items 0 first_chunk) in
      (
        to_push,
        record q {
          buffer = blit once 0 (slice items first_chunk (to_push - first_chunk));
          write_pos = advance k q.write_pos to_push;
        },
      )

  -- The cached read position is reloaded only if the items seem not to fit.
  unfoldable pub push_batch : SpscQueue A → List A → ℕ × SpscQueue A
  unfolding push_free
  push_batch q items =
      let free_slots = free_between (2 ^ k) q.cached_read_pos q.write_pos in
      if ltb free_slots (length items)
      then push_free (record q { cached_read_pos = q.read_pos })
          (free_between (2 ^ k) q.read_pos q.write_pos) items
      else push_free q free_slots items

  unfoldable pub is_empty : SpscQueue A → Bool
  is_empty q = q.read_pos == q.write_pos

  unfoldable pub can_push : SpscQueue A → Bool
  unfolding advance
  can_push q = if advance k q.write_pos 1 == q.read_pos then false else true

  unfoldable pub size : SpscQueue A → ℕ
  size q = dist (2 ^ k) q.read_pos q.write_pos

-- One slot stays empty, so that a full ring differs from an empty one.
unfoldable pub capacity : ℕ → ℕ
capacity k = 2 ^ k - 1
