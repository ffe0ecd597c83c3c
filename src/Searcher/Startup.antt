-- ===== src/Searcher/Startup.antt =====
-- server/encrypted_searcher.go and the calls of server/server.go behind them: starting the searcher,
-- its meta data, and the filter of the X-Set.
pub mod Restart
use duck_duck_xor.Base.{
  ℕ, ◌*◌, Bool, true, false, Option, none, some, List, [], ◌∷◌, if◌then◌else◌, Bytes, Outcome, done,
  ◌>>=◌,
}
use duck_duck_xor.Bolt.{Bolt}
use duck_duck_xor.Bloom.{close_chan}
use duck_duck_xor.Keys.Setup.{or_nil}
use duck_duck_xor.Searcher.{MetaData, update}

-- indexBucketKey.
abbrev pub index_bucket_key : Bytes
index_bucket_key = b'i' ∷ b'n' ∷ b'd' ∷ b'e' ∷ b'x' ∷ []

-- xSetKey.
abbrev pub x_set_key : Bytes
x_set_key = b'x' ∷ b's' ∷ b'e' ∷ b't' ∷ []

-- numTsetReaders and numTsetWriters.
abbrev pub num_tset_readers : ℕ → ℕ
num_tset_readers num_cpu = num_cpu * 3

abbrev pub num_tset_writers : ℕ
num_tset_writers = 2

-- The part of encryptedIndexSearcher for the meta data; `received` is whether metaDataRecived is
-- closed.
pub record Meta : Type 0 where
  pub t_set_meta_data : Option MetaData
  pub is_meta_loaded : Bool
  pub received : Bool

abbrev pub new_meta : Meta
new_meta = record { t_set_meta_data = none; is_meta_loaded = false; received = false }

-- LoadTSetMetaData.
unfoldable pub load_t_set_meta_data : MetaData → Meta → Outcome Meta
unfolding close_chan
load_t_set_meta_data m_data e =
    if e.is_meta_loaded
    then done (record e { t_set_meta_data = some m_data })
    else (close_chan e.received >>= λ closed.
        done (record e { t_set_meta_data = some m_data; is_meta_loaded = true; received = closed }))

-- UploadMetaData over the calls of the clients.
unfoldable pub upload_meta_data : List MetaData → Meta → Outcome Meta
upload_meta_data [] e = done e
upload_meta_data (m_data ∷ ms) e = do e' ← load_t_set_meta_data m_data e; upload_meta_data ms e'

-- What a searcher has after Start: its filter, the writers and readers that run, and whether there
-- was no error.
pub record Running {ℓ} (F : Type ℓ) : Type ℓ where
  pub x_set : Option F
  pub writers : ℕ
  pub readers : ℕ
  pub ok : Bool

-- `F` is the type of the filters, and `decode f text` is what decoding a text into the filter `f` by
-- encoding/gob leaves of it.
module _ {ℓ} {F : Type ℓ} (D : Bolt) (decode : F → Bytes → F) where
  open D use {Db, bucket, get, create, put}

  -- Decoding into the field xSet: into a nil pointer it is an error, which is passed over.
  unfoldable pub decode_x_set : Option F → Bytes → Option F
  decode_x_set none text = none
  decode_x_set (some f) text = some (decode f text)

  -- The transaction of PutXSetFilter.
  unfoldable pub put_filter : Bytes → Db → Option Db
  put_filter xf db = elim (create true db [] index_bucket_key) [
    | none ↦ none
    | some db' ↦ put db' (index_bucket_key ∷ []) x_set_key xf
  ]

  -- PutXSetFilter, which is all that UploadXSetFilter does before it acknowledges.
  unfoldable pub put_x_set_filter : Bytes → Option F × Db → Option F × Db
  unfolding decode_x_set put_filter update
  put_x_set_filter xf (x_set, db) = (decode_x_set x_set xf, update D (put_filter xf) db)

  -- loadXSetFilterFromDb: the filter, and whether there was no error.
  unfoldable pub load_x_set_filter_from_db : Db → Option F → Option F × Bool
  unfolding decode_x_set
  load_x_set_filter_from_db db x_set = elim (create false db [] index_bucket_key) [
    | none ↦ (x_set, false)
    | some db' ↦ (decode_x_set x_set (or_nil (get db' (index_bucket_key ∷ []) x_set_key)), true)
  ]

  -- The first Start of a new searcher.
  unfoldable pub start_searcher : ℕ → Db → Running F
  unfolding load_x_set_filter_from_db
  start_searcher num_cpu db =
      if bucket db (index_bucket_key ∷ [])
      then (let (x_set, ok) = load_x_set_filter_from_db db none in
          record {
            x_set = x_set;
            writers = 0;
            readers = if ok then num_tset_readers num_cpu else 0;
            ok = ok;
          })
      else record {
        x_set = none;
        writers = num_tset_writers;
        readers = num_tset_readers num_cpu;
        ok = true;
      }
