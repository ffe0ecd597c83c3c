-- ===== src/Searcher/Fetcher.antt =====
-- tupleFetcher against what tSetWriter wrote.
use duck_duck_xor.Base.{ℕ, ◌<◌, ◌≡◌, refl, ap, inl, inr}
use duck_duck_xor.Base.{Bool, true, false, some, [], ◌∷◌, arith}
use duck_duck_xor.Base.{◌==◌, Bool-cases}
use duck_duck_xor.Base.{length, take, drop}
use duck_duck_xor.Base.{Bytes, be32}
use duck_duck_xor.Base.{done, panic, ◌>>=◌}
use duck_duck_xor.Crypto.{Primitives}
use duck_duck_xor.Bolt.{Bolt}
use duck_duck_xor.Tset.{xor_bytes}
use duck_duck_xor.Tset.Values.{values, values_sizes, calc_tset_vals-values, slice_within}
use duck_duck_xor.Tset.Xor.{xor_bytes-undo, xor_bytes-short}
use duck_duck_xor.EncIndex.Tuple.{TsetFragment, last_byte}
use duck_duck_xor.EncIndex.Tuple.Bounds.{element}
use duck_duck_xor.EncIndex.TsetWorker.Places.{Place, StoredAt}
use duck_duck_xor.Searcher.{
  MetaData, TupleData, empty_tuple, t_set_bucket_key, read_tuple, fetch_at, tuple_fetcher,
}
use duck_duck_xor.Searcher.Writer.{IsTset}

module _ (c : Primitives) (D : Bolt) (meta : MetaData) (db : D.Db) where
  -- The fetcher looks for a bucket of 16 bytes, named by the label, in a t-set whose buckets have
  -- names of 1 byte. So in a store of that shape with a t-set it finds no tuple, whatever has been
  -- written, for any stag that CMAC takes as a key.
  pub tuple_fetcher-misses :
      (stag : Bytes) (index : ℕ)
      → c.valid_key stag ≡ true
      → IsTset D db
      → D.bucket db (t_set_bucket_key ∷ []) ≡ true
      → tuple_fetcher D c meta db stag index ≡ done empty_tuple
  unfolding tuple_fetcher fetch_at
  tuple_fetcher-misses stag index valid shape root =
      let v = values c stag index in
      let absent : D.bucket db (t_set_bucket_key ∷ v.label ∷ []) ≡ false =
        elim (Bool-cases (D.bucket db (t_set_bucket_key ∷ v.label ∷ []))) [
          | inl has ↦ absurd (omega (arith, shape.one_byte v.label has, values_sizes c stag index))
          | inr not_there ↦ not_there
        ] in
      rw (calc_tset_vals-values c stag index valid) (rw root (rw absent))

  -- With no t-set in the store the fetcher dereferences a nil bucket.
  pub tuple_fetcher-no_root :
      (stag : Bytes) (index : ℕ)
      → c.valid_key stag ≡ true
      → D.bucket db (t_set_bucket_key ∷ []) ≡ false
      → tuple_fetcher D c meta db stag index ≡ panic
  unfolding tuple_fetcher fetch_at
  tuple_fetcher-no_root stag index valid root =
      rw (calc_tset_vals-values c stag index valid) (rw root)

last_byte-test : (b : Bool) → (last_byte b == 1) ≡ b
unfolding last_byte
last_byte-test true = refl
last_byte-test false = refl

-- The metadata that the client uploads.
abbrev pub client_meta : MetaData
client_meta = record { num_eid_bytes = 4; num_blind_bytes = 28 }

-- A stored tuple with a blinded value of 28 bytes is decrypted, but the client's metadata cuts the
-- element at other places than calcTsetTuple joined it: the identifier comes back as the upper
-- three of its four bytes.
pub read_tuple-StoredAt :
    (c : Primitives) (p : Place) (f : TsetFragment) (s : StoredAt c p f) (index : ℕ)
    → length s.y ≡ 28
    → (v : Bytes) × ((xor_bytes (values c p.stag p.index).otp f.payload >>= λ d.
          read_tuple client_meta index d)
        ≡ done (record {
          e_id = some (take 3 (be32 p.doc_id));
          blinding_val = some v;
          worker_index = index;
          is_last = p.is_last;
        }))
      × (length v ≡ 24)
unfolding read_tuple be32 last_byte
read_tuple-StoredAt c p f s index full =
    let el = element (be32 p.doc_id) s.y p.is_last in
    let n : length el ≡ 33 = omega (arith, full) in
    let d =
      xor_bytes-undo (values c p.stag p.index).otp el f.payload
        (omega (arith, n, values_sizes c p.stag p.index)) s.hides in
    let e1 = slice_within el 1 4 (omega arith) (omega (arith, n)) in
    let e2 = slice_within el 4 28 (omega arith) (omega (arith, n)) in
    let tuple_with : Bool → TupleData = λ l. record {
      e_id = some (take 3 (be32 p.doc_id));
      blinding_val = some (take 24 (drop 4 el));
      worker_index = index;
      is_last = l;
    } in
    (
      take 24 (drop 4 el),
      rw d (rw (e1.0, e2.0) (ap done (λ i. tuple_with (last_byte-test p.is_last i)))),
      e2.1,
    )

-- A stored tuple with a blinded value of fewer than 28 bytes makes the decryption panic: the pad
-- is longer than the data.
pub xor_bytes-StoredAt_short :
    (c : Primitives) (p : Place) (f : TsetFragment) (s : StoredAt c p f)
    → length s.y < 28
    → xor_bytes (values c p.stag p.index).otp f.payload ≡ panic
xor_bytes-StoredAt_short c p f s short =
    xor_bytes-short (values c p.stag p.index).otp f.payload
      (omega (arith, s.same_size, values_sizes c p.stag p.index))
