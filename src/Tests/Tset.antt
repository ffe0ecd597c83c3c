-- ===== src/Tests/Tset.antt =====
-- The slots, the pad and the counter at small inputs.
use duck_duck_xor.Base.{◌+◌, ◌*◌, ◌%◌, ◌≤◌, ◌≡◌, refl}
use duck_duck_xor.Base.{false, List, [], ◌∷◌, arith}
use duck_duck_xor.Base.{length}
use duck_duck_xor.Base.{Bytes, from_bytes}
use duck_duck_xor.Base.{done}
use duck_duck_xor.Crypto.{Prf, write}
use duck_duck_xor.Crypto.Toy.{toy}
use duck_duck_xor.Tset.{xor_bytes}
use duck_duck_xor.Tset.Xor.{}
use duck_duck_xor.Tset.Values.{values}
use duck_duck_xor.EncIndex.Counter.History.{Call}
use duck_duck_xor.EncIndex.Tuple.{compute_blinded_xind, calc_tset_tuple}
use duck_duck_xor.EncIndex.Tuple.Inverse.{compute_blinded_xind-unblinds}
use duck_duck_xor.EncIndex.Tuple.Bounds.{stag_after, element, calc_tset_tuple-fits}
use duck_duck_xor.Tests.Data.{key7, duck, xor}

abbrev prf7 : Prf
prf7 = record { key = key7; written = [] }

-- Three calls on two words.
abbrev calls3 : List Call
calls3 = (duck, 1) ∷ (xor, 1) ∷ (duck, 2) ∷ []

-- Modulo 7 the inverse of 3 is 5.
compute_blinded_xind-unblinds_example :
    (y : Bytes) × (compute_blinded_xind (3 ∷ []) (4 ∷ []) 7 ≡ done y)
    × ((from_bytes 0 y * from_bytes 0 (3 ∷ [])) % 7 ≡ from_bytes 0 (4 ∷ []) % 7)
    × (length y ≤ 28)
unfolding from_bytes
compute_blinded_xind-unblinds_example =
    compute_blinded_xind-unblinds (3 ∷ []) (4 ∷ []) 7 5 (omega arith) (omega arith) (omega arith)
      refl

calc_tset_tuple-fits_example :
    (let v = values toy (stag_after toy prf7 duck) 1 in
      (hidden : Bytes) × (calc_tset_tuple toy prf7 duck 1 (0 ∷ 0 ∷ 0 ∷ 9 ∷ []) (5 ∷ 6 ∷ []) false
        ≡ done (write prf7 duck, record { bucket = v.bucket; label = v.label; payload = hidden }))
      × (xor_bytes (element (0 ∷ 0 ∷ 0 ∷ 9 ∷ []) (5 ∷ 6 ∷ []) false) v.otp ≡ done hidden)
      × (length hidden ≡ 5 + 2))
calc_tset_tuple-fits_example =
    calc_tset_tuple-fits toy prf7 duck 1 (0 ∷ 0 ∷ 0 ∷ 9 ∷ []) (5 ∷ 6 ∷ []) false refl (omega arith)
