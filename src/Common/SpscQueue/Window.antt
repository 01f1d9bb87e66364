-- ===== src/Common/SpscQueue/Window.antt =====
-- A stretch of the ring as a list, and what writes do to it.
use hft_fix_engine.Base.{
  ℕ, zero, suc, ◌+◌, ◌<◌, ◌≤◌, ◌≡◌, refl, ap, ap₂, List, [], ◌∷◌, ◌++◌, length, get_or, set, ltb,
  if◌then◌else◌, arith, get_or-set_ne,
}
use hft_fix_engine.Common.SpscQueue.{dist}

-- The next index of a ring.
abbrev pub next : ℕ → ℕ → ℕ
next c i = if ltb (i + 1) c then i + 1 else 0

module _ {ℓ} {A : Type ℓ} (blank : A) (c : ℕ) where
  -- The `n` items from index `h` on.
  abbrev pub window : List A → ℕ → ℕ → List A
  window buf h zero = []
  window buf h (suc n) = get_or buf h blank ∷ window buf (next c h) n

  pub length-window : (buf : List A) (h n : ℕ) → length (window buf h n) ≡ n
  length-window buf h zero = refl
  length-window buf h (suc n) = ap suc (length-window buf (next c h) n)

  -- A write at or behind the end of a stretch leaves the stretch alone.
  pub window-set :
      (buf : List A) (v : A) (n h i : ℕ)
      → h < c
      → i < c
      → n ≤ dist c h i
      → window (set buf i v) h n ≡ window buf h n
  window-set buf v zero h i hh hi e = refl
  window-set buf v (suc n) h i hh hi e =
      ap₂ ◌∷◌ (get_or-set_ne buf i h v blank (ground arith))
        (window-set buf v n (next c h) i (ground arith) hi (ground arith))

  -- A stretch grows by the item at its end.
  pub window-snoc :
      (buf : List A) (n h i : ℕ)
      → h < c
      → i < c
      → dist c h i ≡ n
      → window buf h (suc n) ≡ window buf h n ++ (get_or buf i blank ∷ [])
  window-snoc buf zero h i hh hi e = ap (λ j. get_or buf j blank ∷ []) (ground arith)
  window-snoc buf (suc n) h i hh hi e =
      ap (λ l. get_or buf h blank ∷ l)
        (window-snoc buf n (next c h) i (ground arith) hi (ground arith))
