-- ===== src/Base/Halts.antt =====
-- Code that does not block: it panics or returns.
use mathlib.Core.Path.{◌≡◌, refl}
use mathlib.Core.Bool.{Bool, true, false, ◌&&◌}
use mathlib.Core.Logic.{◌⊎◌, inl, inr}
use mathlib.Core.Option.{Option, none, some}
use Prim.Native.Nat.{ℕ}
use duck_duck_xor.Base.Tests.{leb, if◌then◌else◌}
use duck_duck_xor.Base.Lists.{length}
use duck_duck_xor.Base.Slices.{Bytes, slice}
use duck_duck_xor.Base.Results.{Outcome, done, panic, ◌>>=◌, deref}

abbrev pub Halts {ℓ} : {A : Type ℓ} → Outcome A → Type ℓ
Halts {A} m = (m ≡ panic) ⊎ ((a : A) × (m ≡ done a))

pub done-Halts {ℓ} : {A : Type ℓ} (a : A) → Halts (done a)
done-Halts a = inr (a, refl)

pub bind-Halts {ℓ κ} :
    {A : Type ℓ} {B : Type κ} (m : Outcome A) (f : A → Outcome B)
    → Halts m
    → ((a : A) → Halts (f a))
    → Halts (m >>= f)
bind-Halts m f (inl e) h = inl (rw e)
bind-Halts m f (inr (a, e)) h = elim (h a) [
  | inl e' ↦ inl (rw e e')
  | inr (b, e') ↦ inr (b, rw e e')
]

pub if-Halts {ℓ} :
    {A : Type ℓ} (t : Bool) (m n : Outcome A) → Halts m → Halts n → Halts (if t then m else n)
if-Halts true m n h k = h
if-Halts false m n h k = k

pub deref-Halts {ℓ} : {A : Type ℓ} (o : Option A) → Halts (deref o)
deref-Halts none = inl refl
deref-Halts (some a) = inr (a, refl)

pub slice-Halts : (b : Bytes) (lo hi : ℕ) → Halts (slice b lo hi)
unfolding slice
slice-Halts b lo hi = if-Halts (leb lo hi && leb hi (length b)) _ _ (done-Halts _) (inl refl)
