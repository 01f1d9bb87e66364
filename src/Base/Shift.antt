-- ===== src/Base/Shift.antt =====
-- Rows of an array moved by one place, and what that makes of the places in use.
use Prim.Native.Nat.{ℕ, zero, suc, ◌+◌, ◌<◌, ◌≤◌}
use mathlib.Core.Path.{◌≡◌, refl, sym, ap, ap₂, ◌∙◌}
use mathlib.Core.List.{List, [], ◌∷◌, ◌++◌, append-nil, append_assoc}
use native.Mathlib.Omega.{arith}
use hft_fix_engine.Base.Lists.{
  length, get_or, set, take, drop, length-set, length-take, drop-cons, take-nil,
}
use hft_fix_engine.Base.Arrays.{take-append_le}

module _ {ℓ} {A : Type ℓ} (blank : A) where
  -- `levels[j] = levels[j - 1]`, for j from i + n down to i + 1.
  unfoldable pub shift_up : List A → ℕ → ℕ → List A
  shift_up levels i zero = levels
  shift_up levels i (suc n) = shift_up (set levels (i + suc n) (get_or levels (i + n) blank)) i n

  -- `levels[j] = levels[j + 1]`, for n numbers j from `j` on.
  unfoldable pub shift_down : List A → ℕ → ℕ → List A
  shift_down levels j zero = levels
  shift_down levels j (suc n) = shift_down (set levels j (get_or levels (j + 1) blank)) (j + 1) n

  pub length-shift_up : (ls : List A) (i n : ℕ) → length (shift_up ls i n) ≡ length ls
  unfolding shift_up
  length-shift_up ls i zero = refl
  length-shift_up ls i (suc n) =
      length-shift_up (set ls (i + suc n) (get_or ls (i + n) blank)) i n
      ∙ length-set ls (i + suc n) (get_or ls (i + n) blank)

  pub length-shift_down : (ls : List A) (j n : ℕ) → length (shift_down ls j n) ≡ length ls
  unfolding shift_down
  length-shift_down ls j zero = refl
  length-shift_down ls j (suc n) =
      length-shift_down (set ls j (get_or ls (j + 1) blank)) (j + 1) n
      ∙ length-set ls j (get_or ls (j + 1) blank)

module _ {ℓ} {A : Type ℓ} where
  take-set_behind : (n : ℕ) (xs : List A) (v : A) → take n (set xs (suc n) v) ≡ take n xs
  take-set_behind zero xs v = refl
  take-set_behind (suc n) [] v = refl
  take-set_behind (suc n) (x ∷ xs) v = ap (λ l. x ∷ l) (take-set_behind n xs v)

  pub drop-set :
      (n : ℕ) (xs : List A) (v : A) → n < length xs → drop n (set xs n v) ≡ v ∷ drop (suc n) xs
  drop-set n [] v h = absurd (omega arith)
  drop-set zero (x ∷ xs) v h = refl
  drop-set (suc n) (x ∷ xs) v h = drop-set n xs v (omega arith)

  pub set_split :
      (ls : List A) (i n : ℕ) (v : A)
      → i + suc n ≤ length ls
      → take (i + suc n) (set ls i v) ≡ take i ls ++ (v ∷ take n (drop (i + 1) ls))
  set_split [] i n v h = absurd (omega arith)
  set_split (y ∷ ys) zero n v h =
      ap (λ m. take m (v ∷ ys)) (let e : 0 + suc n ≡ suc n = omega arith in e)
  set_split (y ∷ ys) (suc i) n v h =
      ap (λ m. take m (y ∷ set ys i v)) (let e : suc i + suc n ≡ suc (i + suc n) = omega arith in e)
      ∙ ap (λ l. y ∷ l) (set_split ys i n v (omega arith))
      ∙ ap (λ j. y ∷ (take i ys ++ (v ∷ take n (drop j (y ∷ ys)))))
          (let e : suc (i + 1) ≡ suc i + 1 = omega arith in e)

  pub take-split : (i m : ℕ) (ls : List A) → take (i + m) ls ≡ take i ls ++ take m (drop i ls)
  take-split zero m ls = ap (λ j. take j ls) (let e : 0 + m ≡ m = omega arith in e)
  take-split (suc i) m [] =
      ap (λ j. take j []) (let e : suc i + m ≡ suc (i + m) = omega arith in e) ∙ sym (take-nil m)
  take-split (suc i) m (y ∷ ys) =
      ap (λ j. take j (y ∷ ys)) (let e : suc i + m ≡ suc (i + m) = omega arith in e)
      ∙ ap (λ l. y ∷ l) (take-split i m ys)

  pub drop-set_before :
      (n : ℕ) (xs : List A) (j : ℕ) (v : A) → j < n → drop n (set xs j v) ≡ drop n xs
  drop-set_before zero xs j v h = absurd (omega arith)
  drop-set_before (suc n) [] j v h = refl
  drop-set_before (suc n) (x ∷ xs) zero v h = refl
  drop-set_before (suc n) (x ∷ xs) (suc j) v h = drop-set_before n xs j v (omega arith)

module _ {ℓ} {A : Type ℓ} (blank : A) where
  shift_up-cons :
      (y : A) (ls : List A) (i n : ℕ)
      → shift_up blank (y ∷ ls) (suc i) n ≡ y ∷ shift_up blank ls i n
  unfolding shift_up
  shift_up-cons y ls i zero = refl
  shift_up-cons y ls i (suc n) =
      ap₂ (λ j k. shift_up blank (set (y ∷ ls) j (get_or (y ∷ ls) k blank)) (suc i) n)
        (let e : suc i + suc n ≡ suc (i + suc n) = omega arith in e)
        (let e : suc i + n ≡ suc (i + n) = omega arith in e)
      ∙ shift_up-cons y (set ls (i + suc n) (get_or ls (i + n) blank)) i n

  pub take-snoc :
      (n : ℕ) (xs : List A)
      → n < length xs
      → take (suc n) xs ≡ take n xs ++ (get_or xs n blank ∷ [])
  take-snoc n [] h = absurd (omega arith)
  take-snoc zero (x ∷ xs) h = refl
  take-snoc (suc n) (x ∷ xs) h = ap (λ l. x ∷ l) (take-snoc n xs (omega arith))

  -- A shift up from the front doubles the first level and drops the one behind the shifted ones.
  shift_up_front :
      (y : A) (ys : List A) (n : ℕ)
      → n ≤ length ys
      → shift_up blank (y ∷ ys) 0 n ≡ y ∷ (take n (y ∷ ys) ++ drop n ys)
  unfolding shift_up
  shift_up_front y ys zero h = refl
  shift_up_front y ys (suc n) h =
      let g = get_or (y ∷ ys) n blank in
      ap (λ j. shift_up blank (set (y ∷ ys) j (get_or (y ∷ ys) (0 + n) blank)) 0 n)
        (let e : 0 + suc n ≡ suc n = omega arith in e)
      ∙ ap (λ j. shift_up blank (y ∷ set ys n (get_or (y ∷ ys) j blank)) 0 n)
          (let e : 0 + n ≡ n = omega arith in e)
      ∙ shift_up_front y (set ys n g) n (omega (arith, length-set ys n g))
      ∙ ap (λ l. y ∷ l)
          (ap₂ ◌++◌ (take-set_behind n (y ∷ ys) g) (drop-set n ys g (omega arith))
            ∙ sym (append_assoc (take n (y ∷ ys)) (g ∷ []) (drop (suc n) ys))
            ∙ ap (λ l. l ++ drop (suc n) ys) (sym (take-snoc n (y ∷ ys) (omega arith))))

  -- The array behind an insertion at `i` with `n` levels behind it.
  pub insert_shift :
      (ls : List A) (i n : ℕ) (v : A)
      → i + n < length ls
      → take (suc (i + n)) (set (shift_up blank ls i n) i v) ≡ take i ls ++ (v ∷ take n (drop i ls))
  insert_shift [] i n v h = absurd (omega arith)
  insert_shift (y ∷ ys) zero n v h =
      ap₂ take (let e : suc (0 + n) ≡ suc n = omega arith in e)
        (ap (λ l. set l 0 v) (shift_up_front y ys n (omega arith)))
      ∙ ap (λ l. v ∷ l)
          (take-append_le n (take n (y ∷ ys)) (drop n ys) (omega (arith, length-take n (y ∷ ys))))
  insert_shift (y ∷ ys) (suc i) n v h =
      ap₂ (λ m l. take (suc m) (set l (suc i) v))
        (let e : suc i + n ≡ suc (i + n) = omega arith in e) (shift_up-cons y ys i n)
      ∙ ap (λ l. y ∷ l) (insert_shift ys i n v (omega arith))

  -- The levels in front of `j + n` after `n` levels from `j + 1` on have moved down by one.
  pub take-shift_down :
      (ls : List A) (j n : ℕ)
      → j + n < length ls
      → take (j + n) (shift_down blank ls j n) ≡ take j ls ++ take n (drop (j + 1) ls)
  unfolding shift_down
  take-shift_down ls j zero h =
      ap (λ m. take m ls) (let e : j + 0 ≡ j = omega arith in e) ∙ sym (append-nil (take j ls))
  take-shift_down ls j (suc n) h =
      let g = get_or ls (j + 1) blank in
      let moved = set ls j g in
      let front : take (j + 1) moved ≡ take j ls ++ (g ∷ []) =
        ap (λ m. take m moved) (let e : j + 1 ≡ j + suc 0 = omega arith in e)
        ∙ set_split ls j 0 g (omega arith) in
      let back : take (suc n) (drop (j + 1) ls) ≡ g ∷ take n (drop (j + 1 + 1) ls) =
        ap (take (suc n)) (drop-cons blank ls (j + 1) (omega arith))
        ∙ ap (λ m. g ∷ take n (drop m ls)) (let e : suc (j + 1) ≡ j + 1 + 1 = omega arith in e) in
      ap (λ m. take m (shift_down blank moved (j + 1) n))
        (let e : j + suc n ≡ j + 1 + n = omega arith in e)
      ∙ take-shift_down moved (j + 1) n (omega (arith, length-set ls j g))
      ∙ ap₂ ◌++◌ front (ap (take n) (drop-set_before (j + 1 + 1) ls j g (omega arith)))
      ∙ append_assoc (take j ls) (g ∷ []) (take n (drop (j + 1 + 1) ls))
      ∙ ap (λ l. take j ls ++ l) (sym back)
