-- ===== src/Base/Runs.antt =====
-- Runs of goroutines as sequences of steps, and what every run comes to.
use Prim.Native.Nat.{ℕ, zero, suc, ◌<◌}
use mathlib.Core.Logic.{◌⊎◌, inl, inr}
use native.Mathlib.Omega.{arith}

module _ {S : Type 0} (Step : S → S → Type 0) (Panics : S → Type 0) (P : S → Type 0) where
  -- Whatever steps are taken, the run comes to a state with P, and no state before panics or is stuck.
  pub data Inevitably : S → Type 0 where
    now : {s : S} → P s → Inevitably s
    next :
        {s : S}
        → ¬ Panics s
        → (s' : S) × Step s s'
        → ((s' : S) → Step s s' → Inevitably s')
        → Inevitably s

  -- It does when something holds in all states that rules out a panic and gives a step before P, and
  -- every step leaves less to do.
  pub record Ends (Holds : S → Type 0) (left : S → ℕ) : Type 0 where
    pub keeps : (s s' : S) → Step s s' → Holds s → Holds s'
    pub less : (s s' : S) → Step s s' → left s' < left s
    pub safe : (s : S) → Holds s → ¬ Panics s
    pub moves : (s : S) → Holds s → ((s' : S) × Step s s') ⊎ P s

  pub Ends-Inevitably :
      {Holds : S → Type 0} {left : S → ℕ} → Ends Holds left → (s : S) → Holds s → Inevitably s
  Ends-Inevitably {Holds} {left} ends s h = on (suc (left s)) s (omega arith) h
    where
      on : (fuel : ℕ) (s : S) → left s < fuel → Holds s → Inevitably s
      on zero s fits h = absurd (omega arith)
      on (suc fuel) s fits h = elim (ends.moves s h) [
        | inr end ↦ now end
        | inl move ↦ next (ends.safe s h) move λ s' step.
            on fuel s' (omega (arith, fits, ends.less s s' step)) (ends.keeps s s' step h)
      ]

pub Inevitably-map :
    {S : Type 0} (Step : S → S → Type 0) (Panics P Q : S → Type 0)
    → ((s : S) → P s → Q s)
    → (s : S) → Inevitably Step Panics P s
    → Inevitably Step Panics Q s
Inevitably-map Step Panics P Q f s (now p) = now (f s p)
Inevitably-map Step Panics P Q f s (next safe move go) =
    next safe move (λ s' step. Inevitably-map Step Panics P Q f s' (go s' step))
