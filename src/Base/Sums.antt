-- ===== src/Base/Sums.antt =====
-- A measure added up over the workers of a list, one of which takes a step.
use Prim.Native.Nat.{ℕ, zero, suc, ◌+◌, ◌<◌, ◌≤◌}
use mathlib.Core.Path.{◌≡◌, refl, ap}
use mathlib.Core.Logic.{inl, inr}
use mathlib.Core.List.Perm
use mathlib.Core.List.{List, [], ◌∷◌, ◌++◌, foldr, Perm}
use native.Mathlib.Nat.{ℕ_set}
use native.Mathlib.Omega.{arith}
use duck_duck_xor.Base.Tests.{Nat-cases}
use duck_duck_xor.Base.Lists.{length, length-append}

module _ {ℓ} {A : Type ℓ} where
  unfoldable pub sum_by : (A → ℕ) → List A → ℕ
  sum_by f [] = 0
  sum_by f (x ∷ xs) = f x + sum_by f xs

  -- One worker is replaced.
  sum_by-at :
      (f : A → ℕ) (before after : List A) (x y : A)
      → sum_by f (before ++ x ∷ after) + f y ≡ sum_by f (before ++ y ∷ after) + f x
  unfolding sum_by
  sum_by-at f [] after x y = omega arith
  sum_by-at f (z ∷ before) after x y = omega (arith, sum_by-at f before after x y)

  pub sum_by-replace :
      (f : A → ℕ) {xs : List A} (before : List A) (x y : A) (after : List A)
      → xs ≡ before ++ x ∷ after
      → sum_by f xs + f y ≡ sum_by f (before ++ y ∷ after) + f x
  sum_by-replace f before x y after e = omega (arith, ap (sum_by f) e, sum_by-at f before after x y)

  pub sum_by-member :
      (f : A → ℕ) {xs : List A} (before : List A) (x : A) (after : List A)
      → xs ≡ before ++ x ∷ after
      → f x ≤ sum_by f xs
  unfolding sum_by
  sum_by-member f {xs} before x after e = omega (arith, ap (sum_by f) e, here before)
    where
      here : (before : List A) → f x ≤ sum_by f (before ++ x ∷ after)
      here [] = omega arith
      here (z ∷ before) = omega (arith, here before)

  pub length-replace :
      {xs : List A} (before : List A) (x y : A) (after : List A)
      → xs ≡ before ++ x ∷ after
      → length (before ++ y ∷ after) ≡ length xs
  length-replace before x y after e =
      omega (arith, ap length e, length-append before (x ∷ after), length-append before (y ∷ after))

  -- A positive sum has a worker that counts.
  pub sum_by-find :
      (f : A → ℕ) (xs : List A)
      → 0 < sum_by f xs
      → (before : List A) × (x : A) × (after : List A) × (xs ≡ before ++ x ∷ after) × (0 < f x)
  unfolding sum_by
  sum_by-find f [] h = absurd (omega arith)
  sum_by-find f (x ∷ xs) h = elim (Nat-cases (f x)) [
    | inl none_ ↦
        let (before, y, after, e, counts) = sum_by-find f xs (omega arith) in
        (x ∷ before, y, after, ap (λ l. x ∷ l) e, counts)
    | inr counts ↦ ([], x, xs, refl, counts)
  ]

  pub sum_by-append : (f : A → ℕ) (xs ys : List A) → sum_by f (xs ++ ys) ≡ sum_by f xs + sum_by f ys
  unfolding sum_by
  sum_by-append f [] ys = omega arith
  sum_by-append f (x ∷ xs) ys = omega (arith, sum_by-append f xs ys)

  -- What stands at an index.
  pub split_at :
      (xs : List A) (k : ℕ)
      → k < length xs
      → (before : List A) × (x : A) × (after : List A) × (xs ≡ before ++ x ∷ after)
        × (length before ≡ k)
  split_at [] k h = absurd (omega arith)
  split_at (x ∷ xs) zero h = ([], x, xs, refl, refl)
  split_at (x ∷ xs) (suc k) h =
      let (before, y, after, e, at) = split_at xs k (omega arith) in
      (x ∷ before, y, after, ap (λ l. x ∷ l) e, ap suc at)

  sum_by-foldr : (f : A → ℕ) (xs : List A) → foldr (λ x n. f x + n) 0 xs ≡ sum_by f xs
  unfolding sum_by
  sum_by-foldr f [] = refl
  sum_by-foldr f (x ∷ xs) = omega (arith, sum_by-foldr f xs)

  -- The order does not count.
  pub sum_by-perm : (f : A → ℕ) {xs ys : List A} → Perm xs ys → sum_by f xs ≡ sum_by f ys
  sum_by-perm f {xs} {ys} p = omega (
    arith,
    sum_by-foldr f xs,
    sum_by-foldr f ys,
    Perm.foldr-eq ℕ_set (λ x n. f x + n) (λ a b n. omega arith) p 0,
  )
