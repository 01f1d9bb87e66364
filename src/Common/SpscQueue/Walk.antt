-- ===== src/Common/SpscQueue/Walk.antt =====
-- A walk round the ring in contiguous pieces: reading a stretch, and writing one item by item.
use hft_fix_engine.Base.{
  ℕ, zero, suc, ◌+◌, ◌-◌, ◌<◌, ◌≤◌, ◌≡◌, refl, sym, ap, ap₂, ◌∙◌, List, [], ◌∷◌, ◌++◌, append_assoc,
  append-nil, length, length-set, get_or, set, take, ltb, if◌then◌else◌, arith, get_or-set_self,
  drop-cons,
}
use hft_fix_engine.Common.SpscQueue.{dist, slice, blit}
use hft_fix_engine.Common.SpscQueue.Window.{next, window, window-set, window-snoc}

module _ {ℓ} {A : Type ℓ} (blank : A) (c : ℕ) where
  -- The index `a` steps on, at most once round.
  abbrev pub steps : ℕ → ℕ → ℕ
  steps h a = if ltb (h + a) c then h + a else h + a - c

  pub window-split :
      (buf : List A) (a b h : ℕ)
      → h < c
      → a ≤ c
      → window blank c buf h (a + b) ≡ window blank c buf h a ++ window blank c buf (steps h a) b
  window-split buf zero b h hh ha = ap₂ (window blank c buf) (ground arith) (omega arith)
  window-split buf (suc a) b h hh ha =
      ap (window blank c buf h) (let e : suc a + b ≡ suc (a + b) = omega arith in e)
      ∙ ap (λ l. get_or buf h blank ∷ l)
          (window-split buf a b (next c h) (ground arith) (omega arith)
            ∙ ap (λ j. window blank c buf (next c h) a ++ window blank c buf j b) (ground arith))

  pub slice-window :
      (buf : List A) (m h : ℕ) → h + m ≤ c → c ≤ length buf → slice buf h m ≡ window blank c buf h m
  slice-window buf zero h le fits = refl
  slice-window buf (suc m) h le fits =
      ap (take (suc m)) (drop-cons blank buf h (omega arith))
      ∙ ap (λ l. get_or buf h blank ∷ l)
          (slice-window buf m (suc h) (omega arith) fits ∙ shift m (omega arith))
    where
      shift :
          (n : ℕ) → suc h + n ≤ c → window blank c buf (suc h) n ≡ window blank c buf (next c h) n
      shift zero lt = refl
      shift (suc n) lt = ap (λ j. window blank c buf j (suc n)) (ground arith)

  -- Item by item round the ring.
  unfoldable pub writes : List A → ℕ → List A → List A
  writes buf i [] = buf
  writes buf i (x ∷ xs) = writes (set buf i x) (next c i) xs

  pub writes-append :
      (buf : List A) (i : ℕ) (xs ys : List A)
      → i < c
      → length xs ≤ c
      → writes buf i (xs ++ ys) ≡ writes (writes buf i xs) (steps i (length xs)) ys
  unfolding writes
  writes-append buf i [] ys hi le = ap (λ j. writes buf j ys) (ground arith)
  writes-append buf i (x ∷ xs) ys hi le =
      writes-append (set buf i x) (next c i) xs ys (ground arith) (omega arith)
      ∙ ap (λ j. writes (writes (set buf i x) (next c i) xs) j ys) (ground arith)

  pub blit-writes :
      (buf : List A) (i : ℕ) (xs : List A) → i + length xs ≤ c → blit buf i xs ≡ writes buf i xs
  unfolding writes blit
  blit-writes buf i [] le = refl
  blit-writes buf i (x ∷ []) le = refl
  blit-writes buf i (x ∷ y ∷ xs) le =
      blit-writes (set buf i x) (i + 1) (y ∷ xs) (omega arith)
      ∙ ap (λ j. writes (set buf i x) j (y ∷ xs)) (ground arith)

  pub length-writes : (buf : List A) (i : ℕ) (xs : List A) → length (writes buf i xs) ≡ length buf
  unfolding writes
  length-writes buf i [] = refl
  length-writes buf i (x ∷ xs) = length-writes (set buf i x) (next c i) xs ∙ length-set buf i x

  -- Writing on from the end of a stretch extends it.
  pub window-writes :
      (buf : List A) (xs : List A) (n h i : ℕ)
      → c ≤ length buf
      → h < c
      → i < c
      → dist c h i ≡ n
      → n + length xs < c
      → window blank c (writes buf i xs) h (n + length xs) ≡ window blank c buf h n ++ xs
  unfolding writes
  window-writes buf [] n h i fits hh hi e lt =
      ap (window blank c buf h) (let z : n + 0 ≡ n = omega arith in z) ∙ sym (append-nil _)
  window-writes buf (x ∷ xs) n h i fits hh hi e lt =
      let buf' = set buf i x in
      ap (window blank c (writes buf' (next c i) xs) h)
        (let z : n + suc (length xs) ≡ suc n + length xs = omega arith in z)
      ∙ window-writes buf' xs (suc n) h (next c i) (omega (arith, length-set buf i x)) hh
          (ground arith) (ground arith) (omega arith)
      ∙ ap (λ l. l ++ xs)
          (window-snoc blank c buf' n h i hh hi e
            ∙ ap₂ (λ l y. l ++ (y ∷ [])) (window-set blank c buf x n h i hh hi (omega arith))
                (get_or-set_self buf i x blank (omega arith)))
      ∙ append_assoc (window blank c buf h n) (x ∷ []) xs
