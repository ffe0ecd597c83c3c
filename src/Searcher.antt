-- ===== src/Searcher.antt =====
-- server/encrypted_searcher.go: writing t-set fragments to the store, and searching the store for a
-- stag. Goroutines of a batch answer in any order, which is a parameter of the search.
pub mod Writer
pub mod Fetcher
pub mod Reader
pub mod Startup
use duck_duck_xor.Base.{
  ℕ, zero, suc, ◌+◌, Bool, true, false, Option, none, some, List, [], ◌∷◌, ◌++◌, ltb, ◌==◌,
  if◌then◌else◌, length, get_elem?, set, replicate, Bytes, u32, slice, Outcome, done, panic,
  blocked, ◌>>=◌, deref,
}
use duck_duck_xor.Crypto.{Primitives}
use duck_duck_xor.Bolt.{Bolt}
use duck_duck_xor.Tset.{calc_tset_vals, xor_bytes}
use duck_duck_xor.EncIndex.Tuple.{TsetFragment}

-- tSetBucketKey, the bytes of "tset".
abbrev pub t_set_bucket_key : Bytes
t_set_bucket_key = b't' ∷ b's' ∷ b'e' ∷ b't' ∷ []

-- searchChunkSize.
abbrev pub search_chunk_size : ℕ
search_chunk_size = 20

-- pb.MetaData.
pub record MetaData : Type 0 where
  pub num_eid_bytes : ℕ
  pub num_blind_bytes : ℕ

-- tupleData; `none` is a nil slice.
pub record TupleData : Type 0 where
  pub e_id : Option Bytes
  pub blinding_val : Option Bytes
  pub worker_index : ℕ
  pub is_last : Bool

-- The zero value of tupleData.
abbrev pub empty_tuple : TupleData
empty_tuple = record { e_id = none; blinding_val = none; worker_index = 0; is_last = false }

-- The slicing of a decrypted tuple in tupleFetcher.
unfoldable pub read_tuple : MetaData → ℕ → Bytes → Outcome TupleData
read_tuple meta index decrypted = do
  finished_byte ← deref (get_elem? decrypted 0)
  encrypted_id ← slice decrypted 1 meta.num_eid_bytes
  blinding_val ← slice decrypted meta.num_eid_bytes meta.num_blind_bytes
  done (record {
    e_id = some encrypted_id;
    blinding_val = some blinding_val;
    worker_index = index;
    is_last = finished_byte == 1;
  })

module _ (D : Bolt) where
  open D use {Db, bucket, get, create, put}

  -- A read-write transaction: what the function did is kept only if it has no error.
  unfoldable pub update : (Db → Option Db) → Db → Db
  update f db = elim (f db) [ none ↦ db | some db' ↦ db' ]

  -- The transaction of tSetWriter for one fragment.
  unfoldable pub put_fragment : TsetFragment → Db → Option Db
  put_fragment t db = elim (create true db [] t_set_bucket_key) [
    | none ↦ none
    | some db' ↦ elim (create true db' (t_set_bucket_key ∷ []) t.bucket) [
      | none ↦ none
      | some db'' ↦ put db'' (t_set_bucket_key ∷ t.bucket ∷ []) t.label t.payload
    ]
  ]

  -- tSetWriter over the requests that arrive. An error is printed, and the next request is served.
  unfoldable pub t_set_writer : List TsetFragment → Db → Db
  unfolding update put_fragment
  t_set_writer [] db = db
  t_set_writer (t ∷ ts) db = t_set_writer ts (update (put_fragment t) db)

  -- The transaction of tupleFetcher at a bucket, a label and a pad.
  unfoldable pub fetch_at : MetaData → Db → ℕ → Bytes → Bytes → Bytes → Outcome TupleData
  fetch_at meta db index bucket_key label otp =
      if bucket db (t_set_bucket_key ∷ [])
      then (if bucket db (t_set_bucket_key ∷ bucket_key ∷ [])
          then (elim (get db (t_set_bucket_key ∷ bucket_key ∷ []) label) [
            | none ↦ done empty_tuple
            | some encrypted ↦ (xor_bytes otp encrypted >>= λ d. read_tuple meta index d)
          ])
          else done empty_tuple)
      else panic

  -- tupleFetcher. The results of CalcTsetVals are the bucket, the label and the pad; here the first
  -- is called the label, and the second the bucket.
  unfoldable pub tuple_fetcher : Primitives → MetaData → Db → Bytes → ℕ → Outcome TupleData
  unfolding fetch_at read_tuple
  tuple_fetcher c meta db stag index = do
    vals ← calc_tset_vals c stag index
    let label = vals.bucket
    let bucket_key = vals.label
    fetch_at meta db index bucket_key label vals.otp

-- `batchResults[i] = t`: an index out of range panics.
unfoldable pub put_result :
    ℕ → TupleData → List (Option TupleData) → Outcome (List (Option TupleData))
put_result i t batch = if ltb i (length batch) then done (set batch i (some t)) else panic

-- The loop that collects a batch: every result goes to the index at which the batch begins.
unfoldable pub collect :
    ℕ → List TupleData → List (Option TupleData) → Outcome (List (Option TupleData))
unfolding put_result
collect i [] batch = done batch
collect i (t ∷ ts) batch = do batch' ← put_result i t batch; collect i ts batch'

-- tupleBatch.Less: both entries are dereferenced.
unfoldable pub less : Option TupleData → Option TupleData → Outcome Bool
less a b = do x ← deref a; y ← deref b; done (ltb x.worker_index y.worker_index)

-- sort.Sort by Less.
unfoldable pub insert_by_index :
    Option TupleData → List (Option TupleData) → Outcome (List (Option TupleData))
unfolding less
insert_by_index t [] = done (t ∷ [])
insert_by_index t (u ∷ us) =
    let rest = insert_by_index t us in
    (less u t >>= λ later. if later then (rest >>= λ r. done (u ∷ r)) else done (t ∷ u ∷ us))

unfoldable pub sort_batch : List (Option TupleData) → Outcome (List (Option TupleData))
unfolding insert_by_index
sort_batch [] = done []
sort_batch (t ∷ ts) = do sorted ← sort_batch ts; insert_by_index t sorted

-- What goes out over the response channel of a request, and whether it is closed.
pub record Response : Type 0 where
  pub sent : List TupleData
  pub closed : Bool

-- The loop that sends a sorted batch: it ends the request at a missing tuple and behind the last.
unfoldable pub emit : List (Option TupleData) → Response → Outcome Response
emit [] r = done r
emit (none ∷ ts) r = panic
emit (some t ∷ ts) r =
    let more = emit ts (record r { sent = r.sent ++ t ∷ [] }) in
    elim t.e_id [
      | none ↦ done (record r { closed = true })
      | some e ↦
          if t.is_last then done (record { sent = r.sent ++ t ∷ []; closed = true }) else more
    ]

module _ (c : Primitives) (D : Bolt) (meta : MetaData) (db : D.Db) (stag : Bytes) where
  -- The fetchers of a batch: `count` indexes from `i` on. Indexes are uint32.
  unfoldable pub fetch_batch : ℕ → ℕ → Outcome (List TupleData)
  fetch_batch zero i = done []
  fetch_batch (suc count) i = do
    t ← tuple_fetcher D c meta db stag i
    ts ← fetch_batch count (u32 (i + 1))
    done (t ∷ ts)

  -- The loop of tSetReader for one request, on fuel. `arrive` is the order in which the results of
  -- a batch come in, and `cancelled` whether the request has been cancelled before a batch.
  unfoldable pub read_batches :
      (arrive : ℕ → List TupleData → List TupleData) (cancelled : ℕ → Bool)
      → ℕ
      → ℕ
      → List (Option TupleData)
      → Response
      → Outcome Response
  read_batches arrive cancelled zero i batch r = blocked
  read_batches arrive cancelled (suc fuel) i batch r =
      let next = λ (b : List (Option TupleData)) (s : Response).
        read_batches arrive cancelled fuel (u32 (i + search_chunk_size)) b s in
      let round : Outcome Response =
        (fetch_batch search_chunk_size i >>= λ ts. collect i (arrive i ts) batch >>= λ batch'.
        sort_batch batch' >>= λ sorted.
        emit sorted r >>= λ s. if s.closed then done s else next sorted s) in
      if cancelled i then done r else round

  -- tSetReader for one request: a batch of nil entries, and no result sent.
  unfoldable pub t_set_reader :
      (arrive : ℕ → List TupleData → List TupleData) (cancelled : ℕ → Bool) → ℕ → Outcome Response
  t_set_reader arrive cancelled fuel =
      read_batches arrive cancelled fuel 0 (replicate search_chunk_size none)
        (record { sent = []; closed = false })
