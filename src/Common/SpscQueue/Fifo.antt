-- ===== src/Common/SpscQueue/Fifo.antt =====
-- The ring refines a bounded first-in first-out list of `Capacity - 1` items.
use hft_fix_engine.Base.{
  ℕ, zero, suc, ◌-◌, ◌≡◌, ◌≢◌, ◌^◌, refl, ap, ◌∙◌, List, [], ◌∷◌, ◌++◌, length, get_or, set, ◌==◌,
  if◌then◌else◌, arith, get_or-set_self, Bool, true, false,
}
use hft_fix_engine.Common.SpscQueue.{SpscQueue, dist, push, pop, capacity}
use hft_fix_engine.Common.SpscQueue.Window.{next, window, length-window, window-set, window-snoc}
use hft_fix_engine.Common.SpscQueue.Valid.{IsValid, contents, advance-next}

module _ {ℓ} {A : Type ℓ} where
  unfoldable pub offer : ℕ → List A → A → Bool × List A
  offer cap xs v = if length xs == cap then (false, xs) else (true, xs ++ (v ∷ []))

  unfoldable pub poll : List A → A → Bool × A × List A
  poll [] old = (false, old, [])
  poll (x ∷ xs) old = (true, x, xs)

module _ {A : Type 0} (k : ℕ) (blank : A) where
  abbrev c : ℕ
  c = 2 ^ k

  pub length-contents :
      (q : SpscQueue A) → length (contents k blank q) ≡ dist c q.read_pos q.write_pos
  length-contents q = length-window blank c q.buffer q.read_pos (dist c q.read_pos q.write_pos)

  window-suc :
      (buf : List A) (h n : ℕ)
      → n ≢ 0
      → window blank c buf h n ≡ get_or buf h blank ∷ window blank c buf (next c h) (n - 1)
  window-suc buf h zero ne = absurd (ne refl)
  window-suc buf h (suc n) ne = ap (λ m. window blank c buf h (suc m)) (omega arith)

  -- Writing at the write position appends the item.
  window-push :
      (q : SpscQueue A) (v : A)
      → IsValid k blank q
      → window blank c (set q.buffer q.write_pos v) q.read_pos (suc (dist c q.read_pos q.write_pos))
        ≡ contents k blank q ++ (v ∷ [])
  window-push q v i =
      let n = dist c q.read_pos q.write_pos in
      window-snoc blank c (set q.buffer q.write_pos v) n q.read_pos q.write_pos i.read_in i.write_in
        refl
      ∙ ground (
        arith,
        window-set blank c q.buffer v n q.read_pos q.write_pos i.read_in i.write_in (omega arith),
        get_or-set_self q.buffer q.write_pos v blank (omega (arith, i.storage, i.write_in)),
      )

  -- On a valid ring `push` fails exactly if the ring holds `Capacity - 1` items, and then changes
  -- none; else it appends the item. The cached read position makes no difference.
  pub push_refines :
      (q : SpscQueue A) (v : A)
      → IsValid k blank q
      → let (done, q') = push k blank q v in
        (done, contents k blank q') ≡ offer (capacity k) (contents k blank q) v
  unfolding push offer capacity
  push_refines q v i =
      ground
        (arith, advance-next k q.write_pos i.small i.write_in, length-contents q, window-push q v i)

  -- On a valid ring `pop` fails exactly if the ring is empty; else it takes the oldest item out. The
  -- cached write position makes no difference.
  pub pop_refines :
      (q : SpscQueue A) (old : A)
      → IsValid k blank q
      → let (done, x, q') = pop k blank q old in
        (done, x, contents k blank q') ≡ poll (contents k blank q) old
  unfolding pop poll
  pop_refines q old i = ground (
    arith,
    advance-next k q.read_pos i.small i.read_in,
    window-suc q.buffer q.read_pos (dist c q.read_pos q.write_pos),
  )
