-- ===== src/Tset.antt =====
-- crypto/tset.go: where a t-set tuple is stored and how it is hidden, the one-time pad, and the
-- document identifiers.
pub mod Xor
pub mod Values
pub mod DocId
use duck_duck_xor.Base.{
  ℕ, ◌∷◌, [], ◌>>=◌, Bytes, Outcome, done, panic, slice, be32, be_uint32, bit_xor,
}
use duck_duck_xor.Crypto.{Primitives, Prf, new_prf, write, sum}

-- The bucket (1 byte), the label (16 bytes) and the one-time pad (33 bytes).
pub record TsetVals : Type 0 where
  pub bucket : Bytes
  pub label : Bytes
  pub otp : Bytes

-- CalcTsetVals.
unfoldable pub calc_tset_vals : Primitives → Bytes → ℕ → Outcome TsetVals
calc_tset_vals c stag index = do
  prf ← new_prf c stag
  let tset_sum = c.sha512 (sum c (write prf (be32 index)))
  bucket ← slice tset_sum 0 1
  label ← slice tset_sum 1 17
  otp ← slice tset_sum 17 50
  done (record { bucket = bucket; label = label; otp = otp })

-- XorBytes: as long as its first argument, and an index out of range if the second is shorter.
unfoldable pub xor_bytes : Bytes → Bytes → Outcome Bytes
xor_bytes [] ys = done []
xor_bytes (x ∷ xs) [] = panic
xor_bytes (x ∷ xs) (y ∷ ys) = do rest ← xor_bytes xs ys; done (bit_xor x y ∷ rest)

-- PermuteDocId: neither the word nor its PRF is used.
unfoldable pub permute_doc_id : Bytes → Prf → ℕ → Bytes
permute_doc_id word w_prf doc_id = be32 doc_id

-- UnpermuteDocId.
unfoldable pub unpermute_doc_id : Bytes → Prf → Bytes → Outcome ℕ
unpermute_doc_id word w_prf doc_id = be_uint32 doc_id
