-- ===== src/Common/SpscQueue/Tests.antt =====
-- A ring of four places with two items in it, the first of them at the last place.
use hft_fix_engine.Base.{ℕ, [], ◌∷◌, ◌≡◌, arith}
use hft_fix_engine.Common.SpscQueue.{SpscQueue, push, pop, push_batch, pop_batch, capacity}
use hft_fix_engine.Common.SpscQueue.Valid.{IsValid, contents}
use hft_fix_engine.Common.SpscQueue.Fifo.{offer, poll, push_refines, pop_refines}
use hft_fix_engine.Common.SpscQueue.PushBatch.{Pushed, push_batch-Pushed}
use hft_fix_engine.Common.SpscQueue.PopBatch.{Popped, pop_batch-Popped}

-- The cached positions are stale.
abbrev wrapped : SpscQueue ℕ
wrapped = record {
  write_pos = 1;
  cached_read_pos = 2;
  buffer = 20 ∷ 0 ∷ 0 ∷ 10 ∷ [];
  read_pos = 3;
  cached_write_pos = 3;
}

wrapped-IsValid : IsValid 2 0 wrapped
wrapped-IsValid = ground arith

push_refines_example :
    let (done, q) = push 2 0 wrapped 30 in
    (done, contents 2 0 q) ≡ offer (capacity 2) (contents 2 0 wrapped) 30
push_refines_example = push_refines 2 0 wrapped 30 wrapped-IsValid

pop_refines_example :
    let (done, x, q) = pop 2 0 wrapped 5 in
    (done, x, contents 2 0 q) ≡ poll (contents 2 0 wrapped) 5
pop_refines_example = pop_refines 2 0 wrapped 5 wrapped-IsValid

push_batch-Pushed_example :
    Pushed 2 0 wrapped (30 ∷ 40 ∷ []) (push_batch 2 0 wrapped (30 ∷ 40 ∷ []))
push_batch-Pushed_example = push_batch-Pushed 2 0 wrapped (30 ∷ 40 ∷ []) wrapped-IsValid

pop_batch-Popped_example : Popped 2 0 wrapped 8 (pop_batch 2 0 wrapped 8)
pop_batch-Popped_example = pop_batch-Popped 2 0 wrapped 8 wrapped-IsValid
