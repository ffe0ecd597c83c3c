-- ===== src/EncIndex/Tuple/Bounds.antt =====
-- calcTsetTuple fits its one-time pad.
use duck_duck_xor.Base.{ℕ, ◌+◌, ◌≤◌, ◌≡◌, inl}
use duck_duck_xor.Base.{Bool, ◌∷◌, ◌++◌, arith}
use duck_duck_xor.Base.{length, length-append}
use duck_duck_xor.Base.{Bytes}
use duck_duck_xor.Base.{done}
use duck_duck_xor.Crypto.{Primitives, Prf, write}
use duck_duck_xor.Tset.{xor_bytes}
use duck_duck_xor.Tset.Values.{values, calc_tset_vals-values, values_sizes}
use duck_duck_xor.Tset.Xor.{xor_bytes-total}
use duck_duck_xor.EncIndex.Tuple.{last_byte, calc_tset_tuple}

-- The stag that a call uses: the PRF of all that was written since the last reset, and the word.
abbrev pub stag_after : Primitives → Prf → Bytes → Bytes
stag_after c sprf word = c.mac sprf.key (sprf.written ++ word)

-- The element that is hidden: end byte, document and blinded xind.
abbrev pub element : Bytes → Bytes → Bool → Bytes
element permuted_id blinded_xind is_last = last_byte is_last ∷ (permuted_id ++ blinded_xind)

-- With an identifier of 4 bytes and a blinded xind of at most 28 the call returns. The fragment
-- has the bucket and the label of the stag and the index, and its data is the element of 5 bytes
-- and the blinded xind, under the pad of the stag and the index.
pub calc_tset_tuple-fits :
    (c : Primitives) (sprf : Prf) (word : Bytes) (index : ℕ) (pid y : Bytes) (is_last : Bool)
    → length pid ≡ 4
    → length y ≤ 28
    → let v = values c (stag_after c sprf word) index in
      (hidden : Bytes) × (calc_tset_tuple c sprf word index pid y is_last
        ≡ done (write sprf word, record { bucket = v.bucket; label = v.label; payload = hidden }))
      × (xor_bytes (element pid y is_last) v.otp ≡ done hidden)
      × (length hidden ≡ 5 + length y)
unfolding calc_tset_tuple
calc_tset_tuple-fits c sprf word index pid y is_last four small =
    let stag = stag_after c sprf word in
    let v = values c stag index in
    let ok =
      calc_tset_vals-values c stag index
        (c.valid_key_sizes stag (inl (c.length-mac sprf.key (sprf.written ++ word)))) in
    let sizes = values_sizes c stag index in
    let n = length-append pid y in
    let (hidden, e, m) = xor_bytes-total (element pid y is_last) v.otp (omega arith) in
    (hidden, rw (ok, e), e, omega arith)
