-- ===== src/EncIndex/Tuple/Inverse.antt =====
-- computeBlindedXind: what is stored at the server times z is xind again, and it fits 28 bytes.
use duck_duck_xor.Base.{
  ℕ, zero, suc, ◌+◌, ◌*◌, ◌/◌, ◌%◌, ◌^◌, ◌≤◌, ◌<◌, ◌≡◌, refl, sym, ap, ◌∙◌, inl, inr,
}
use duck_duck_xor.Base.{none, some, [], ◌∷◌, ◌++◌, arith}
use duck_duck_xor.Base.{◌==◌, Bool-cases}
use duck_duck_xor.Base.{length, length-append}
use duck_duck_xor.Base.{Bytes, from_bytes}
use duck_duck_xor.Base.{done, panic}
use native.Mathlib.Nat.{mod-add-div', add-mul-mod_self_right, mod-lt, pow-suc}
use duck_duck_xor.EncIndex.Tuple.{find_inverse, mod_inverse, to_bytes, compute_blinded_xind}

-- The search returns an inverse whenever there is one below the bound, and nothing else.
find_inverse_sound : (g n bound k : ℕ) → find_inverse g n bound ≡ some k → (g * k) % n ≡ 1 % n
unfolding find_inverse
find_inverse_sound g n zero k h = absurd (ground arith)
find_inverse_sound g n (suc b) k h = ground (arith, find_inverse_sound g n b k)

find_inverse_complete :
    (g n bound k : ℕ)
    → k < bound
    → (g * k) % n ≡ 1 % n
    → (k' : ℕ) × (find_inverse g n bound ≡ some k')
unfolding find_inverse
find_inverse_complete g n zero k h e = absurd (omega arith)
find_inverse_complete g n (suc b) k h e = elim (Bool-cases ((g * b) % n == 1 % n)) [
  | inl hit ↦ (b, rw hit)
  | inr miss ↦
      let (k', found) = find_inverse_complete g n b k (ground arith) e in (k', rw miss found)
]

-- `big.Int.Bytes` and `SetBytes`: the bytes spell the number.
from_bytes-append :
    (acc : ℕ) (xs : Bytes) (b : ℕ) → from_bytes acc (xs ++ b ∷ []) ≡ from_bytes acc xs * 256 + b
unfolding from_bytes
from_bytes-append acc [] b = refl
from_bytes-append acc (x ∷ xs) b = from_bytes-append (acc * 256 + x) xs b

from_bytes-to_bytes : (fuel n : ℕ) → n ≤ fuel → from_bytes 0 (to_bytes fuel n) ≡ n
unfolding to_bytes from_bytes
from_bytes-to_bytes zero n h = omega arith
from_bytes-to_bytes (suc fuel) n h = elim (Bool-cases (n == 0)) [
  | inl z ↦ rw z (ground arith)
  | inr p ↦ rw p (rw from_bytes-append (ground (arith, from_bytes-to_bytes fuel (n / 256))))
]

length-to_bytes : (k fuel n : ℕ) → n < 256 ^ k → length (to_bytes fuel n) ≤ k
unfolding to_bytes
length-to_bytes k zero n h = omega arith
length-to_bytes zero (suc fuel) n h = ground arith
length-to_bytes (suc k) (suc fuel) n h = elim (Bool-cases (n == 0)) [
  | inl z ↦ rw z (omega arith)
  | inr p ↦ rw p (
      omega (
        arith,
        length-append (to_bytes fuel (n / 256)) ((n % 256) ∷ []),
        length-to_bytes k fuel (n / 256) (omega (arith, pow-suc 256 k)),
      ))
]

mul-mod_drop : (a b m : ℕ) → (a % m * b) % m ≡ (a * b) % m
mul-mod_drop a b m = sym (
    ap (λ (t : ℕ). t % m) (omega (arith, ap (λ (t : ℕ). t * b) (mod-add-div' a m)))
    ∙ add-mul-mod_self_right (a % m * b) (a / m * b) m)

unblinded : (x z k p : ℕ) → (z * k) % p ≡ 1 % p → ((x * k) % p * z) % p ≡ x % p
unblinded x z k p e =
    mul-mod_drop (x * k) z p
    ∙ ap (λ (t : ℕ). t % p) (omega arith)
    ∙ sym (mul-mod_drop (z * k) x p)
    ∙ ap (λ (t : ℕ). (t * x) % p) e
    ∙ mul-mod_drop 1 x p
    ∙ ap (λ (t : ℕ). t % p) (omega arith)

-- For a blinding value z that has an inverse k modulo the given modulus, computeBlindedXind
-- returns. The number that its bytes spell, times z, is xind modulo the modulus, and for a modulus
-- up to 256 ^ 28 (that of P-224 is one) there are at most 28 bytes.
pub compute_blinded_xind-unblinds :
    (z xind : Bytes) (order k : ℕ)
    → 0 < order
    → order ≤ 256 ^ 28
    → k < order
    → (from_bytes 0 z * k) % order ≡ 1 % order
    → (y : Bytes) × (compute_blinded_xind z xind order ≡ done y)
      × ((from_bytes 0 y * from_bytes 0 z) % order ≡ from_bytes 0 xind % order)
      × (length y ≤ 28)
unfolding compute_blinded_xind mod_inverse
compute_blinded_xind-unblinds z xind order k pos small below inverse =
    let (k', found) = find_inverse_complete (from_bytes 0 z) order order k below inverse in
    let y = (from_bytes 0 xind * k') % order in
    (
      to_bytes y y,
      rw found,
      rw (from_bytes-to_bytes y y (omega arith)) (
          unblinded (from_bytes 0 xind) (from_bytes 0 z) k' order
            (find_inverse_sound (from_bytes 0 z) order order k' found)),
      length-to_bytes 28 y y (omega (arith, mod-lt (from_bytes 0 xind * k') pos)),
    )

-- With no inverse the product has a nil factor.
pub compute_blinded_xind-no_inverse :
    (z xind : Bytes) (order : ℕ)
    → mod_inverse (from_bytes 0 z) order ≡ none
    → compute_blinded_xind z xind order ≡ panic
unfolding compute_blinded_xind
compute_blinded_xind-no_inverse z xind order h = rw h
