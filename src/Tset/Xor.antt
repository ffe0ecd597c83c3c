-- ===== src/Tset/Xor.antt =====
-- XorBytes as a one-time pad, over paddings of any size.
use duck_duck_xor.Base.{◌≤◌, ◌<◌, ◌≡◌, refl, [], ◌∷◌, Bytes, length, arith}
use duck_duck_xor.Base.{done, panic, bit_xor}
use duck_duck_xor.Base.Xor.{bit_xor_undo}
use duck_duck_xor.Tset.{xor_bytes}

-- With a second argument that is long enough the call returns, as many bytes as the first has.
pub xor_bytes-total :
    (xs ys : Bytes)
    → length xs ≤ length ys
    → (out : Bytes) × (xor_bytes xs ys ≡ done out) × (length out ≡ length xs)
unfolding xor_bytes
xor_bytes-total [] ys h = ([], refl, refl)
xor_bytes-total (x ∷ xs) [] h = absurd (omega arith)
xor_bytes-total (x ∷ xs) (y ∷ ys) h =
    let (out, e, n) = xor_bytes-total xs ys (omega arith) in (bit_xor x y ∷ out, rw e, omega arith)

-- A second argument that is too short is an index out of range.
pub xor_bytes-short : (xs ys : Bytes) → length ys < length xs → xor_bytes xs ys ≡ panic
unfolding xor_bytes
xor_bytes-short [] ys h = absurd (omega arith)
xor_bytes-short (x ∷ xs) [] h = refl
xor_bytes-short (x ∷ xs) (y ∷ ys) h = rw (xor_bytes-short xs ys (omega arith))

-- Encrypting and decrypting with a pad of the same length gives the bytes back.
pub xor_bytes-undo :
    (pad xs ys : Bytes)
    → length xs ≡ length pad
    → xor_bytes xs pad ≡ done ys
    → xor_bytes pad ys ≡ done xs
unfolding xor_bytes
xor_bytes-undo [] [] ys h e = refl
xor_bytes-undo [] (x ∷ xs) ys h e = absurd (omega arith)
xor_bytes-undo (k ∷ pad) [] ys h e = absurd (omega arith)
xor_bytes-undo (k ∷ pad) (x ∷ xs) [] h e =
    absurd (ground (arith, xor_bytes-total xs pad (omega arith)))
xor_bytes-undo (k ∷ pad) (x ∷ xs) (y ∷ ys) h e = ground (
  arith,
  xor_bytes-total xs pad (omega arith),
  bit_xor_undo k x,
  xor_bytes-undo pad xs ys (omega arith),
)
