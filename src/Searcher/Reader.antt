-- ===== src/Searcher/Reader.antt =====
-- tSetReader: what becomes of a request.
use duck_duck_xor.Base.{ℕ, zero, suc, ◌+◌, ◌≡◌, refl, inl, inr}
use duck_duck_xor.Base.{Bool, true, false, Option, none, some, List, [], ◌∷◌, ◌++◌, arith}
use duck_duck_xor.Base.{ltb}
use duck_duck_xor.Base.{length, get_elem?, replicate}
use duck_duck_xor.Base.{Bytes, u32}
use duck_duck_xor.Base.{done, panic, ◌>>=◌}
use duck_duck_xor.Base.Halts.{Halts, done-Halts, bind-Halts, if-Halts, deref-Halts, slice-Halts}
use duck_duck_xor.Crypto.{Primitives, new_prf}
use duck_duck_xor.Bolt.{Bolt}
use duck_duck_xor.Tset.{calc_tset_vals, xor_bytes}
use duck_duck_xor.Searcher.{
  MetaData, TupleData, tuple_fetcher, fetch_at, read_tuple, fetch_batch, put_result, collect, less,
  insert_by_index, sort_batch, read_batches, t_set_reader, search_chunk_size, t_set_bucket_key,
  empty_tuple,
}

-- Sorting a batch in which the last two entries are nil dereferences one of them.
nil_tail-panics : (ts : List (Option TupleData)) → sort_batch (ts ++ none ∷ none ∷ []) ≡ panic
unfolding sort_batch insert_by_index less
nil_tail-panics [] = refl
nil_tail-panics (t ∷ ts) = rw (nil_tail-panics ts)

-- All results of a batch go to its first entry.
collect-first :
    (ts : List TupleData) (b : Option TupleData) (batch : List (Option TupleData))
    → (b' : Option TupleData) × (collect 0 ts (b ∷ batch) ≡ done (b' ∷ batch))
unfolding collect put_result
collect-first [] b batch = (b, refl)
collect-first (t ∷ ts) b batch =
    let (b', e) = collect-first ts (some t) batch in
    let in_range : ltb 0 (length (b ∷ batch)) ≡ true = ground arith in (b', rw in_range e)

xor_bytes-Halts : (xs ys : Bytes) → Halts (xor_bytes xs ys)
unfolding xor_bytes
xor_bytes-Halts [] ys = done-Halts []
xor_bytes-Halts (x ∷ xs) [] = inl refl
xor_bytes-Halts (x ∷ xs) (y ∷ ys) =
    bind-Halts (xor_bytes xs ys) _ (xor_bytes-Halts xs ys) (λ r. done-Halts _)

calc_tset_vals-Halts :
    (c : Primitives) (stag : Bytes) (index : ℕ) → Halts (calc_tset_vals c stag index)
unfolding calc_tset_vals new_prf
calc_tset_vals-Halts c stag index =
    bind-Halts _ _ (if-Halts (c.valid_key stag) _ _ (done-Halts _) (inl refl)) λ prf.
      bind-Halts _ _ (slice-Halts _ 0 1) λ b.
        bind-Halts _ _ (slice-Halts _ 1 17)
          λ l. bind-Halts _ _ (slice-Halts _ 17 50) λ o. done-Halts _

module _ (c : Primitives) (D : Bolt) (meta : MetaData) (db : D.Db) where
  read_tuple-Halts : (index : ℕ) (d : Bytes) → Halts (read_tuple meta index d)
  unfolding read_tuple
  read_tuple-Halts index d = bind-Halts _ _ (deref-Halts (get_elem? d 0)) λ b.
      bind-Halts _ _ (slice-Halts d 1 meta.num_eid_bytes) λ e.
        bind-Halts _ _ (slice-Halts d meta.num_eid_bytes meta.num_blind_bytes) λ v. done-Halts _

  fetch_at-Halts :
      (index : ℕ) (bucket_key label otp : Bytes)
      → Halts (fetch_at D meta db index bucket_key label otp)
  unfolding fetch_at
  fetch_at-Halts index bucket_key label otp =
      if-Halts (D.bucket db (t_set_bucket_key ∷ [])) _ _
        (if-Halts (D.bucket db (t_set_bucket_key ∷ bucket_key ∷ [])) _ _
          (found (D.get db (t_set_bucket_key ∷ bucket_key ∷ []) label)) (done-Halts _))
        (inl refl)
    where
      found :
          (o : Option Bytes)
          → Halts (elim o [
            | none ↦ done empty_tuple
            | some encrypted ↦ (xor_bytes otp encrypted >>= λ d. read_tuple meta index d)
          ])
      found none = done-Halts _
      found (some encrypted) =
          bind-Halts _ _ (xor_bytes-Halts otp encrypted) (read_tuple-Halts index)

  fetch_batch-Halts : (stag : Bytes) (count i : ℕ) → Halts (fetch_batch c D meta db stag count i)
  unfolding fetch_batch tuple_fetcher
  fetch_batch-Halts stag zero i = done-Halts []
  fetch_batch-Halts stag (suc count) i =
      bind-Halts _ _
        (bind-Halts _ _ (calc_tset_vals-Halts c stag i)
          λ v. fetch_at-Halts i v.label v.bucket v.otp)
        λ t. bind-Halts _ _ (fetch_batch-Halts stag count (u32 (i + 1))) λ ts. done-Halts _

  -- Every request that is not cancelled before its first batch crashes the server, whatever is
  -- stored, whatever the stag, and in whatever order the results of the batch come in: they all go
  -- to the first entry of the batch, and the sort dereferences one that is nil.
  pub t_set_reader-panics :
      (stag : Bytes) (arrive : ℕ → List TupleData → List TupleData) (cancelled : ℕ → Bool)
      (fuel : ℕ)
      → cancelled 0 ≡ false
      → t_set_reader c D meta db stag arrive cancelled (suc fuel) ≡ panic
  unfolding t_set_reader read_batches
  t_set_reader-panics stag arrive cancelled fuel h =
      elim (fetch_batch-Halts stag search_chunk_size 0) [
        | inl e ↦ rw h (rw e)
        | inr (ts, e) ↦
            let (b, e') = collect-first (arrive 0 ts) none (replicate 19 none) in
            rw h (rw e (rw e' (rw (nil_tail-panics (b ∷ replicate 17 none)))))
      ]

  -- A request that is cancelled before its first batch is dropped, and its channel stays open.
  pub t_set_reader-cancelled :
      (stag : Bytes) (arrive : ℕ → List TupleData → List TupleData) (cancelled : ℕ → Bool)
      (fuel : ℕ)
      → cancelled 0 ≡ true
      → t_set_reader c D meta db stag arrive cancelled (suc fuel)
        ≡ done (record { sent = []; closed = false })
  unfolding t_set_reader read_batches
  t_set_reader-cancelled stag arrive cancelled fuel h = rw h
