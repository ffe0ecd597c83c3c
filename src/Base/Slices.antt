-- ===== src/Base/Slices.antt =====
-- Byte slices and strings as lists of numbers: slices, equality, big-endian integers.
use Prim.Native.Nat.{ℕ, ◌+◌, ◌-◌, ◌*◌, ◌/◌, ◌%◌, ◌^◌, ◌<◌}
use mathlib.Core.Path.{◌≡◌, refl}
use mathlib.Core.Bool.{Bool, true, false, ◌&&◌}
use mathlib.Core.Logic.{◌↔◌}
use mathlib.Core.List.{List, [], ◌∷◌}
use native.Mathlib.Omega.{arith}
use duck_duck_xor.Base.Tests.{◌==◌, leb, if◌then◌else◌}
use duck_duck_xor.Base.Lists.{length, take, drop}
use duck_duck_xor.Base.Results.{Outcome, done, panic}

abbrev pub Bytes : Type 0
Bytes = List ℕ

abbrev pub u32 : ℕ → ℕ
u32 n = n % 2 ^ 32

-- Every element is a byte.
abbrev pub IsBytes : Bytes → Type 0
IsBytes [] = Unit {0}
IsBytes (b ∷ bs) = (b < 256) × IsBytes bs

unfoldable pub bytes_eq : Bytes → Bytes → Bool
bytes_eq [] [] = true
bytes_eq [] (y ∷ ys) = false
bytes_eq (x ∷ xs) [] = false
bytes_eq (x ∷ xs) (y ∷ ys) = (x == y) && bytes_eq xs ys

pub bytes_eq_refl : (xs : Bytes) → bytes_eq xs xs ≡ true
unfolding bytes_eq
bytes_eq_refl [] = refl
bytes_eq_refl (x ∷ xs) = ground (arith, bytes_eq_refl xs)

pub bytes_eq_sound : (xs ys : Bytes) → bytes_eq xs ys ≡ true → xs ≡ ys
unfolding bytes_eq
bytes_eq_sound [] [] h = refl
bytes_eq_sound [] (y ∷ ys) h = absurd (ground arith)
bytes_eq_sound (x ∷ xs) [] h = absurd (ground arith)
bytes_eq_sound (x ∷ xs) (y ∷ ys) h = ground (arith, bytes_eq_sound xs ys)

pub bytes_eq_iff : (xs ys : Bytes) → (bytes_eq xs ys ≡ true) ↔ (xs ≡ ys)
bytes_eq_iff xs ys = (bytes_eq_sound xs ys, λ e. rw e (bytes_eq_refl ys))

-- `b[lo:hi]`, which panics out of range.
unfoldable pub slice : Bytes → ℕ → ℕ → Outcome Bytes
slice b lo hi = if leb lo hi && leb hi (length b) then done (take (hi - lo) (drop lo b)) else panic

-- binary.BigEndian of a uint32.
unfoldable pub be32 : ℕ → Bytes
be32 n = (n / 2 ^ 24 % 256) ∷ (n / 2 ^ 16 % 256) ∷ (n / 2 ^ 8 % 256) ∷ (n % 256) ∷ []

-- binary.BigEndian.Uint32: panics on fewer than four bytes, and reads no more than four.
unfoldable pub be_uint32 : Bytes → Outcome ℕ
be_uint32 (a ∷ b ∷ c ∷ d ∷ rest) = done (((a * 256 + b) * 256 + c) * 256 + d)
be_uint32 short = panic

-- The number that bytes spell in base 256, `big.Int.SetBytes`.
unfoldable pub from_bytes : ℕ → Bytes → ℕ
from_bytes acc [] = acc
from_bytes acc (b ∷ bs) = from_bytes (acc * 256 + b) bs
