-- ===== src/Common/SpscQueue/Queries.antt =====
-- What the queries say of the items in the ring.
use hft_fix_engine.Base.{ℕ, ◌<◌, ◌≡◌, ◌↔◌, true, length, arith}
use hft_fix_engine.Common.SpscQueue.{SpscQueue, is_empty, can_push, size, capacity}
use hft_fix_engine.Common.SpscQueue.Valid.{IsValid, contents, advance-next}
use hft_fix_engine.Common.SpscQueue.Fifo.{length-contents}

module _ {A : Type 0} (k : ℕ) (blank : A) where
  -- On a valid ring `size` is the number of items, `empty` says whether it is 0, and `can_push`
  -- whether it is below the capacity.
  pub size-contents :
      (q : SpscQueue A)
      → IsValid k blank q
      → (size k blank q ≡ length (contents k blank q))
        × ((is_empty k blank q ≡ true) ↔ (length (contents k blank q) ≡ 0))
        × ((can_push k blank q ≡ true) ↔ (length (contents k blank q) < capacity k))
  unfolding size is_empty can_push capacity
  size-contents q v =
      ground (arith, length-contents k blank q, advance-next k q.write_pos v.small v.write_in)
