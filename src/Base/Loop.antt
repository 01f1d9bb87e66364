-- ===== src/Base/Loop.antt =====
-- `while` loops on fuel: one round is a function into Option, `none` where the loop is left.
use Prim.Native.Nat.{ℕ, zero, suc, ◌<◌}
use mathlib.Core.Path.{◌≡◌, refl}
use mathlib.Core.Logic.{inl, inr}
use mathlib.Core.Option.{Option, none, some}
use native.Mathlib.Omega.{arith}
use hft_fix_engine.Base.Tests.{Option-cases}

module _ {ℓ} {S : Type ℓ} where
  unfoldable pub loop : ℕ → (S → Option S) → S → S
  loop zero round s = s
  loop (suc fuel) round s = elim (round s) [ none ↦ s | some s' ↦ loop fuel round s' ]

  pub loop-none : (fuel : ℕ) (round : S → Option S) (s : S) → round s ≡ none → loop fuel round s ≡ s
  unfolding loop
  loop-none zero round s e = refl
  loop-none (suc fuel) round s e = rw (e, loop)

  pub loop-some :
      (fuel : ℕ) (round : S → Option S) (s t : S)
      → round s ≡ some t
      → loop (suc fuel) round s ≡ loop fuel round t
  unfolding loop
  loop-some fuel round s t e = rw (e, loop)

  -- What every round keeps holds at the end, whatever the fuel.
  pub loop_inv {κ} :
      (P : S → Type κ) (round : S → Option S)
      → ((s t : S) → P s → round s ≡ some t → P t)
      → (fuel : ℕ) (s : S) → P s
      → P (loop fuel round s)
  unfolding loop
  loop_inv P round keep zero s p = p
  loop_inv P round keep (suc fuel) s p = elim (Option-cases (round s)) [
    | inl e ↦ rw (e, loop) p
    | inr (t, e) ↦ rw (e, loop) (loop_inv P round keep fuel t (keep s t p e))
  ]

  -- With more fuel than the measure of the start, the loop is left by its own test.
  pub loop_exit {κ} :
      (P : S → Type κ) (measure : S → ℕ) (round : S → Option S)
      → ((s t : S) → P s → round s ≡ some t → P t × (measure t < measure s))
      → (fuel : ℕ) (s : S) → P s
      → measure s < fuel
      → round (loop fuel round s) ≡ none
  loop_exit P measure round keep zero s p h = absurd (omega arith)
  loop_exit P measure round keep (suc fuel) s p h = elim (Option-cases (round s)) [
    | inl e ↦ rw (loop-none (suc fuel) round s e) e
    | inr (t, e) ↦
        rw (loop-some fuel round s t e)
          (loop_exit P measure round keep fuel t (keep s t p e).0 (omega (arith, (keep s t p e).1)))
  ]
