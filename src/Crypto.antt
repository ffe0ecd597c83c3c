-- ===== src/Crypto.antt =====
-- The primitives that the program calls and does not implement: AES-CMAC of
-- github.com/jacobsa/crypto/cmac, and SHA-512. They are a parameter of the development, with what
-- their documentation says of sizes. `Prf` is the `hash.Hash` that `cmac.New` returns: `Write`
-- appends to the message, `Sum` leaves the state alone, and `Reset` empties the message.
pub mod Toy
use duck_duck_xor.Base.{ℕ, ◌≡◌, ◌⊎◌, Bool, true, List, [], ◌++◌, Bytes, IsBytes, length}
use duck_duck_xor.Base.{Outcome, done, panic, if◌then◌else◌}

pub record Primitives : Type 0 where
  -- `cmac.New` accepts the key.
  pub valid_key : Bytes → Bool
  pub mac : Bytes → Bytes → Bytes
  pub sha512 : Bytes → Bytes
  -- Keys of 16 and of 32 bytes are accepted.
  pub valid_key_sizes : (k : Bytes) → (length k ≡ 16) ⊎ (length k ≡ 32) → valid_key k ≡ true
  pub length-mac : (k m : Bytes) → length (mac k m) ≡ 16
  pub length-sha512 : (m : Bytes) → length (sha512 m) ≡ 64
  pub sha512-IsBytes : (m : Bytes) → IsBytes (sha512 m)

pub record Prf : Type 0 where
  pub key : Bytes
  pub written : Bytes

-- `cmac.New(key)` with its error dropped: a key that is refused leaves a nil hash, whose first use
-- panics.
unfoldable pub new_prf : Primitives → Bytes → Outcome Prf
new_prf c k = if c.valid_key k then done (record { key = k; written = [] }) else panic

abbrev pub write : Prf → Bytes → Prf
write p b = record p { written = p.written ++ b }

abbrev pub sum : Primitives → Prf → Bytes
sum c p = c.mac p.key p.written

abbrev pub reset : Prf → Prf
reset p = record p { written = [] }
