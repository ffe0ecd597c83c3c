-- ===== src/Crypto/Toy.antt =====
-- Primitives of the right sizes that run, for tests. They are not secure.
use duck_duck_xor.Base.{
  ℕ, zero, suc, ◌+◌, ◌*◌, ◌%◌, ◌≡◌, refl, true, [], ◌∷◌, Bytes, IsBytes, length, arith, ap,
}
use duck_duck_xor.Crypto.{Primitives}

-- `n` bytes that depend on a seed.
unfoldable pub stretch : ℕ → ℕ → Bytes
stretch zero seed = []
stretch (suc n) seed = (seed % 256) ∷ stretch n (seed * 5 + 1)

pub length-stretch : (n seed : ℕ) → length (stretch n seed) ≡ n
unfolding stretch
length-stretch zero seed = refl
length-stretch (suc n) seed = ap suc (length-stretch n (seed * 5 + 1))

pub stretch-IsBytes : (n seed : ℕ) → IsBytes (stretch n seed)
unfolding stretch
stretch-IsBytes zero seed = tt
stretch-IsBytes (suc n) seed = (omega arith, stretch-IsBytes n (seed * 5 + 1))

-- A seed from a message.
unfoldable pub digest : ℕ → Bytes → ℕ
digest acc [] = acc
digest acc (b ∷ bs) = digest ((acc * 31 + b) % 65521) bs

abbrev pub toy : Primitives
toy = record {
  valid_key = λ k. true;
  mac = λ k m. stretch 16 (digest (digest 7 k) m);
  sha512 = λ m. stretch 64 (digest 3 m);
  valid_key_sizes = λ k h. refl;
  length-mac = λ k m. length-stretch 16 _;
  length-sha512 = λ m. length-stretch 64 _;
  sha512-IsBytes = λ m. stretch-IsBytes 64 _;
}
