-- ===== src/Bloom/Saver.antt =====
-- client_proxy/bloom_master.go: the frequency filters in the database: freqBloomSaver,
-- loadFiltersFromDb, and the choice between them.
pub mod Load
use duck_duck_xor.Base.{
  ℕ, zero, suc, Bool, true, false, not, Option, none, some, List, [], ◌∷◌, Bytes, Outcome, done,
  panic, blocked, ◌>>=◌,
}
use duck_duck_xor.Bolt.{Bolt}
use duck_duck_xor.Bloom.{
  BloomLib, FrequencyBucket, below_100, below_1000, below_10000, below_100000, bucket_unknown,
  put_bucket,
}

-- bloomBucketKey.
abbrev pub bloom_bucket_key : Bytes
bloom_bucket_key = b'b' ∷ b'l' ∷ b'o' ∷ b'o' ∷ b'm' ∷ b's' ∷ []

-- bucketToKey; the map has no key for the last bucket.
unfoldable pub bucket_to_key : FrequencyBucket → Bytes
bucket_to_key below_100 = b'b' ∷ b'_' ∷ b'1' ∷ b'0' ∷ b'0' ∷ []
bucket_to_key below_1000 = b'b' ∷ b'_' ∷ b'1' ∷ b'0' ∷ b'0' ∷ b'0' ∷ []
bucket_to_key below_10000 = b'b' ∷ b'_' ∷ b'1' ∷ b'0' ∷ b'0' ∷ b'0' ∷ b'0' ∷ []
bucket_to_key below_100000 = b'b' ∷ b'_' ∷ b'1' ∷ b'0' ∷ b'0' ∷ b'0' ∷ b'0' ∷ b'0' ∷ []
bucket_to_key bucket_unknown = []

module _ (B : BloomLib) (D : Bolt) where
  open B use {Filter, gob_encode, gob_decode}
  open D use {Db, bucket, get, create, put}

  -- newBloomMaster: whether there is no bucket of filters yet.
  abbrev pub is_first_time : Db → Bool
  is_first_time db = not (bucket db (bloom_bucket_key ∷ []))

  -- The transaction of freqBloomSaver for one filter. An error of CreateBucketIfNotExists is passed
  -- to abort and then a nil bucket is used; an error of Put undoes the transaction.
  unfoldable pub save_filter : FrequencyBucket × Filter → Db → Outcome Db
  unfolding bucket_to_key
  save_filter (which_bucket, filter) db = elim (create true db [] bloom_bucket_key) [
    | none ↦ panic
    | some db' ↦
        elim (put db' (bloom_bucket_key ∷ []) (bucket_to_key which_bucket) (gob_encode filter)) [
          | none ↦ done db
          | some db'' ↦ done db''
        ]
  ]

  -- The loop of freqBloomSaver: it waits until `n` more filters have come.
  unfoldable pub freq_bloom_saver : ℕ → List (FrequencyBucket × Filter) → Db → Outcome Db
  unfolding save_filter
  freq_bloom_saver zero finished db = done db
  freq_bloom_saver (suc n) [] db = blocked
  freq_bloom_saver (suc n) (f_bloom ∷ finished) db = do
    db' ← save_filter f_bloom db
    freq_bloom_saver n finished db'

  -- The loop of loadFiltersFromDb over the buckets that are left: the map, and whether there was no
  -- error. It stops at the first filter that is missing or broken.
  unfoldable pub load_buckets :
      List FrequencyBucket
      → Db
      → (FrequencyBucket → Option Filter)
      → (FrequencyBucket → Option Filter) × Bool
  unfolding bucket_to_key
  load_buckets [] db m = (m, true)
  load_buckets (r ∷ rs) db m = elim (get db (bloom_bucket_key ∷ []) (bucket_to_key r)) [
    | none ↦ (m, false)
    | some serialized_filter ↦ elim (gob_decode serialized_filter) [
      | none ↦ (m, false)
      | some filter ↦ load_buckets rs db (put_bucket r (some filter) m)
    ]
  ]

  -- loadFiltersFromDb.
  unfoldable pub load_filters_from_db :
      Db → (FrequencyBucket → Option Filter) → (FrequencyBucket → Option Filter) × Bool
  load_filters_from_db db m =
      load_buckets (below_100 ∷ below_1000 ∷ below_10000 ∷ below_100000 ∷ []) db m
