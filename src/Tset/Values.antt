-- ===== src/Tset/Values.antt =====
-- CalcTsetVals: it returns for every stag that a PRF made, and its parts have the stated sizes.
use duck_duck_xor.Base.{ℕ, ◌-◌, ◌≤◌, ◌≡◌}
use duck_duck_xor.Base.{true, false, arith}
use duck_duck_xor.Base.{length, take, drop, length-take, length-drop}
use duck_duck_xor.Base.{Bytes, slice, be32}
use duck_duck_xor.Base.{done, panic}
use duck_duck_xor.Crypto.{Primitives, new_prf}
use duck_duck_xor.Tset.{TsetVals, calc_tset_vals}

-- A slice within the bytes is there, with the length of its bounds.
pub slice_within :
    (b : Bytes) (lo hi : ℕ)
    → lo ≤ hi
    → hi ≤ length b
    → (slice b lo hi ≡ done (take (hi - lo) (drop lo b)))
      × (length (take (hi - lo) (drop lo b)) ≡ hi - lo)
unfolding slice
slice_within b lo hi p q =
    (ground arith, omega (arith, length-take (hi - lo) (drop lo b), length-drop lo b))

-- The parts of the hash that CalcTsetVals returns, without the checks of its slices.
abbrev pub values : Primitives → Bytes → ℕ → TsetVals
values c stag index =
    let h = c.sha512 (c.mac stag (be32 index)) in
    record { bucket = take 1 (drop 0 h); label = take 16 (drop 1 h); otp = take 33 (drop 17 h) }

-- For a stag of a size that CMAC accepts as a key the call returns those parts of the hash.
pub calc_tset_vals-values :
    (c : Primitives) (stag : Bytes) (index : ℕ)
    → c.valid_key stag ≡ true
    → calc_tset_vals c stag index ≡ done (values c stag index)
unfolding calc_tset_vals new_prf slice
calc_tset_vals-values c stag index h = rw (h, c.length-sha512 (c.mac stag (be32 index)))

-- The bucket has 1 byte, the label 16 and the one-time pad 33.
pub values_sizes :
    (c : Primitives) (stag : Bytes) (index : ℕ)
    → let v = values c stag index in
      (length v.bucket ≡ 1) × (length v.label ≡ 16) × (length v.otp ≡ 33)
values_sizes c stag index =
    let h = c.sha512 (c.mac stag (be32 index)) in
    let n = c.length-sha512 (c.mac stag (be32 index)) in
    (
      (slice_within h 0 1 (omega arith) (omega arith)).1,
      (slice_within h 1 17 (omega arith) (omega arith)).1,
      (slice_within h 17 50 (omega arith) (omega arith)).1,
    )

-- A key that CMAC refuses crashes the call: the error of `cmac.New` is dropped.
pub calc_tset_vals-refused :
    (c : Primitives) (stag : Bytes) (index : ℕ)
    → c.valid_key stag ≡ false
    → calc_tset_vals c stag index ≡ panic
unfolding calc_tset_vals new_prf
calc_tset_vals-refused c stag index h = rw h
