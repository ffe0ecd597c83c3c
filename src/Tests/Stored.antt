-- ===== src/Tests/Stored.antt =====
-- What stands in a database for the next start: filters, keys, and the filter of the X-Set.
use duck_duck_xor.Base.{ℕ, ◌≡◌, refl, ◌≢◌, inl, inr}
use duck_duck_xor.Base.{true, false, Option, none, some, List, [], ◌∷◌, ◌++◌, map, arith}
use duck_duck_xor.Base.{if◌then◌else◌}
use duck_duck_xor.Base.{replicate}
use duck_duck_xor.Base.{Bytes, bytes_eq}
use duck_duck_xor.Base.{done}
use duck_duck_xor.Bolt.Root.{IsRoot}
use duck_duck_xor.Bolt.Toy.{Store, empty, toy_bolt}
use duck_duck_xor.Bloom.{
  FrequencyBucket, below_100, below_1000, below_10000, below_100000, bucket_unknown, num_buckets,
}
use duck_duck_xor.Bloom.Toy.{toy_bloom}
use duck_duck_xor.Bloom.Saver.{
  bloom_bucket_key, is_first_time, freq_bloom_saver, load_filters_from_db,
}
use duck_duck_xor.Bloom.Saver.Load.{freq_bloom_saver-loads}
use duck_duck_xor.Crypto.Toy.{toy}
use duck_duck_xor.Keys.{KeyMap}
use duck_duck_xor.Keys.Manager.{Snacl, new_key_manager}
use duck_duck_xor.Keys.Manager.Restart.{IsFresh, new_key_manager-restarts}
use duck_duck_xor.Searcher.Startup.{index_bucket_key, x_set_key, put_x_set_filter, start_searcher}
use duck_duck_xor.Searcher.Startup.Restart.{put_x_set_filter-restart}
use duck_duck_xor.Tests.Data.{key7, duck, xor, secret}

-- The same filter for every bucket, and an order in which they are finished.
abbrev filters : FrequencyBucket → Bytes
filters r = duck

abbrev finished : List FrequencyBucket
finished = below_1000 ∷ below_100 ∷ below_100000 ∷ below_10000 ∷ []

empty-IsRoot : (name : Bytes) → IsRoot toy_bolt name empty
empty-IsRoot name = record { root_free = refl; no_buckets = λ k. refl }

freq_bloom_saver-loads_example :
    (db' : Store) × (freq_bloom_saver toy_bloom toy_bolt num_buckets
        (map (λ r. (r, filters r)) finished)
        empty
      ≡ done db')
    × (is_first_time toy_bloom toy_bolt db' ≡ false)
    × (m' : FrequencyBucket → Option Bytes) × (load_filters_from_db toy_bloom toy_bolt db'
          (λ r. none)
        ≡ (m', true))
    × ((r : FrequencyBucket) → r ≢ bucket_unknown → m' r ≡ some (filters r))
freq_bloom_saver-loads_example =
    freq_bloom_saver-loads toy_bloom toy_bolt filters finished empty (λ r. none) (λ r. omega arith)
      refl
      ((λ h. ground arith), ((λ h. ground arith), ((λ h. ground arith), ((λ h. ground arith), tt))))
      (record {
        has_100 = inr (inl refl);
        has_1000 = inl refl;
        has_10000 = inr (inr (inr (inl refl)));
        has_100000 = inr (inr (inl refl));
      })
      (empty-IsRoot bloom_bucket_key)

-- Decoding gives the text.
abbrev decoded : Bytes → Bytes → Bytes
decoded f text = text

put_x_set_filter-restart_example :
    (db' : Store) × (start_searcher toy_bolt decoded 4 empty
      ≡ record { x_set = none; writers = 2; readers = 12; ok = true })
    × (put_x_set_filter toy_bolt decoded xor (none, empty) ≡ (none, db'))
    × (toy_bolt.get db' (index_bucket_key ∷ []) x_set_key ≡ some xor)
    × ((cpus : ℕ)
        → start_searcher toy_bolt decoded cpus db'
          ≡ record { x_set = none; writers = 0; readers = 0; ok = false })
put_x_set_filter-restart_example =
    put_x_set_filter-restart toy_bolt decoded 4 xor empty (omega arith)
      (empty-IsRoot index_bucket_key) refl

-- A library that takes one passphrase, and whose keys and parameters carry nothing.
abbrev derived : Bytes → Option Bytes
derived passphrase = if bytes_eq passphrase duck then some key7 else none

abbrev opens : Bytes → Option (Bytes × Unit {0})
opens passphrase = if bytes_eq passphrase duck then some (key7, tt) else none

toy_derives :
    (passphrase k : Bytes) (p : Unit {0})
    → opens passphrase ≡ some (k, p)
    → derived passphrase ≡ some k
toy_derives passphrase k p h = ground (arith, h)

abbrev toy_snacl : Snacl
toy_snacl = record {
  MasterKey = Bytes;
  Params = Unit {0};
  new_secret_key = λ salt passphrase. opens passphrase;
  key_bytes = λ k. k;
  secret_key = λ k. secret;
  marshal = λ p. replicate 88 1;
  unmarshal = λ b. some tt;
  derive_key = λ p passphrase. derived passphrase;
  length-marshal = λ p. refl;
  unmarshal-marshal = λ p. refl;
  derive_key-new_secret_key = λ salt passphrase k p h. toy_derives passphrase k p h;
}

empty-IsFresh : IsFresh toy_bolt empty
empty-IsFresh = record { absent = refl; free = refl; nothing_below = λ k. refl }

new_key_manager-restarts_example :
    (m : KeyMap) × (db' : Store) × (new_key_manager toy_bolt toy_snacl toy.sha512 1 duck empty
      ≡ done (some m, db'))
    × (new_key_manager toy_bolt toy_snacl toy.sha512 2 duck db' ≡ done (some m, db'))
    × (new_key_manager toy_bolt toy_snacl toy.sha512 2 xor db' ≡ done (none, db'))
unfolding bytes_eq
new_key_manager-restarts_example =
    new_key_manager-restarts toy_bolt toy_snacl toy.sha512 1 2 duck xor key7 tt
      (λ n m. replicate 40 n ++ m) empty toy.length-sha512 empty-IsFresh refl (λ n m. refl) refl
