-- ===== src/EncIndex/Tuple.antt =====
-- The pieces of a t-set tuple: computeBlindingValue, computeXind, computeBlindedXind and
-- calcTsetTuple of client_proxy/encrypted_index.go, with TSetFragment of protos/sse.pb.go.
pub mod Inverse
pub mod Bounds
use duck_duck_xor.Base.{
  ℕ, zero, suc, ◌*◌, ◌/◌, ◌%◌, Bool, true, false, Option, none, some, [], ◌∷◌, ◌++◌, ◌==◌,
  if◌then◌else◌, Bytes, be32, from_bytes, Outcome, done, ◌>>=◌, deref,
}
use duck_duck_xor.Crypto.{Primitives, Prf, write, sum}
use duck_duck_xor.Tset.{TsetVals, calc_tset_vals, xor_bytes}

-- pb.TSetFragment; its field Data is `payload`.
pub record TsetFragment : Type 0 where
  pub bucket : Bytes
  pub label : Bytes
  pub payload : Bytes

-- computeBlindingValue: the PRF after the call, and F(w || c) if the PRF was empty.
unfoldable pub compute_blinding_value : Primitives → Prf → Bytes → ℕ → Prf × Bytes
compute_blinding_value c prf word blind_counter =
    let prf' = write prf (word ++ be32 blind_counter) in (prf', sum c prf')

-- computeXind.
unfoldable pub compute_xind : Primitives → Prf → ℕ → Prf × Bytes
compute_xind c prf ind = let prf' = write prf (be32 ind) in (prf', sum c prf')

-- The k below a bound with g * k ≡ 1 (mod n), searched from the top. Below n there is at most one.
unfoldable pub find_inverse : ℕ → ℕ → ℕ → Option ℕ
find_inverse g n zero = none
find_inverse g n (suc k) =
    let rest = find_inverse g n k in if (g * k) % n == 1 % n then some k else rest

-- `big.Int.ModInverse`: the inverse in [0, n), or nil.
unfoldable pub mod_inverse : ℕ → ℕ → Option ℕ
unfolding find_inverse
mod_inverse g n = find_inverse g n n

-- `big.Int.Bytes` of a number below 256 ^ fuel: big-endian with no leading zero.
unfoldable pub to_bytes : ℕ → ℕ → Bytes
to_bytes zero n = []
to_bytes (suc fuel) n =
    let high = to_bytes fuel (n / 256) in if n == 0 then [] else high ++ (n % 256) ∷ []

-- computeBlindedXind: xind * z^-1 mod the group order. A z with no inverse leaves a nil factor.
unfoldable pub compute_blinded_xind : Bytes → Bytes → ℕ → Outcome Bytes
unfolding mod_inverse to_bytes
compute_blinded_xind z xind group_order = do
  let z_big = from_bytes 0 z
  let xind_big = from_bytes 0 xind
  z_inverse ← deref (mod_inverse z_big group_order)
  let y = (xind_big * z_inverse) % group_order
  done (to_bytes y y)

-- The byte that tells the last tuple of a word.
unfoldable pub last_byte : Bool → ℕ
last_byte true = 1
last_byte false = 0

-- calcTsetTuple: the stag's PRF after the call, and the fragment.
unfoldable pub calc_tset_tuple :
    Primitives → Prf → Bytes → ℕ → Bytes → Bytes → Bool → Outcome (Prf × TsetFragment)
calc_tset_tuple c sprf word tuple_index permuted_id blinded_xind is_last = do
  let sprf' = write sprf word
  vals ← calc_tset_vals c (sum c sprf') tuple_index
  hidden ← xor_bytes (last_byte is_last ∷ (permuted_id ++ blinded_xind)) vals.otp
  done (sprf', record { bucket = vals.bucket; label = vals.label; payload = hidden })
