-- ===== src/Base/Arrays.antt =====
-- Lists as arrays: predicates under writes, and prefixes.
use Prim.Native.Nat.{ℕ, zero, suc, ◌-◌}
use mathlib.Core.Path.{◌≡◌, refl, ap}
use mathlib.Core.List.{List, [], ◌∷◌, ◌++◌}
use native.Mathlib.Omega.{arith}
use hft_fix_engine.Base.Lists.{length, get_or, set, take, drop, replicate, All}

pub length-drop {ℓ} : {A : Type ℓ} (n : ℕ) (xs : List A) → length (drop n xs) ≡ length xs - n
length-drop zero xs = omega arith
length-drop (suc n) [] = omega arith
length-drop (suc n) (x ∷ xs) = omega (arith, length-drop n xs)

pub All-set {ℓ κ} :
    {A : Type ℓ} (P : A → Type κ) (xs : List A) (i : ℕ) (v : A)
    → P v
    → All P xs
    → All P (set xs i v)
All-set P [] i v p h = tt
All-set P (x ∷ xs) zero v p h = (p, h.1)
All-set P (x ∷ xs) (suc i) v p h = (h.0, All-set P xs i v p h.1)

pub All_split {ℓ κ} :
    {A : Type ℓ} (P : A → Type κ) (xs ys : List A) → All P (xs ++ ys) → All P xs × All P ys
All_split P [] ys h = (tt, h)
All_split P (x ∷ xs) ys h = let (left, right) = All_split P xs ys h.1 in ((h.0, left), right)

pub All-get_or {ℓ κ} :
    {A : Type ℓ} (P : A → Type κ) (xs : List A) (i : ℕ) (d : A) → P d → All P xs → P (get_or xs i d)
All-get_or P [] i d p h = p
All-get_or P (x ∷ xs) zero d p h = h.0
All-get_or P (x ∷ xs) (suc i) d p h = All-get_or P xs i d p h.1

pub All-replicate {ℓ κ} :
    {A : Type ℓ} (P : A → Type κ) (n : ℕ) (a : A) → P a → All P (replicate n a)
All-replicate P zero a p = tt
All-replicate P (suc n) a p = (p, All-replicate P n a p)

pub take-append_le {ℓ} :
    {A : Type ℓ} (n : ℕ) (xs ys : List A) → length xs ≡ n → take n (xs ++ ys) ≡ xs
take-append_le zero [] ys e = refl
take-append_le (suc n) [] ys e = absurd (omega arith)
take-append_le zero (x ∷ xs) ys e = absurd (omega arith)
take-append_le (suc n) (x ∷ xs) ys e = ap (λ l. x ∷ l) (take-append_le n xs ys (omega arith))

pub take-set {ℓ} : {A : Type ℓ} (n : ℕ) (xs : List A) (v : A) → take n (set xs n v) ≡ take n xs
take-set zero xs v = refl
take-set (suc n) [] v = refl
take-set (suc n) (x ∷ xs) v = ap (λ l. x ∷ l) (take-set n xs v)

pub take_all {ℓ} : {A : Type ℓ} (xs : List A) → take (length xs) xs ≡ xs
take_all [] = refl
take_all (x ∷ xs) = ap (λ l. x ∷ l) (take_all xs)
