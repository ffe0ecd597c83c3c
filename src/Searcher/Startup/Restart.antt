-- ===== src/Searcher/Startup/Restart.antt =====
-- The searcher before and after the filter of the X-Set has come.
use duck_duck_xor.Base.{ℕ, ◌-◌, ◌*◌, ◌^◌, ◌<◌, ◌≡◌, refl, ◌∙◌}
use duck_duck_xor.Base.{true, false, none, some, List, [], ◌∷◌, arith}
use duck_duck_xor.Base.{length}
use duck_duck_xor.Base.{Bytes, bytes_eq_refl}
use duck_duck_xor.Base.{done}
use duck_duck_xor.Bolt.{Bolt}
use duck_duck_xor.Bolt.Root.{IsRoot, writes}
use duck_duck_xor.Bloom.{close_chan}
use duck_duck_xor.Searcher.{MetaData, update}
use duck_duck_xor.Searcher.Startup.{
  index_bucket_key, x_set_key, Meta, new_meta, load_t_set_meta_data, upload_meta_data, decode_x_set,
  put_filter, put_x_set_filter, load_x_set_filter_from_db, start_searcher,
}

-- The meta data that came last.
unfoldable pub last_of : MetaData → List MetaData → MetaData
last_of m [] = m
last_of m (n ∷ ms) = last_of n ms

abbrev pub loaded : MetaData → Meta
loaded m = record { t_set_meta_data = some m; is_meta_loaded = true; received = true }

upload_meta_data-loaded :
    (m : MetaData) (ms : List MetaData)
    → upload_meta_data ms (loaded m) ≡ done (loaded (last_of m ms))
unfolding upload_meta_data load_t_set_meta_data last_of
upload_meta_data-loaded m [] = refl
upload_meta_data-loaded m (n ∷ ms) = upload_meta_data-loaded n ms

-- The meta data may come any number of times: the readers are woken once, no channel is closed
-- twice, and what came last is kept.
pub upload_meta_data-last :
    (m : MetaData) (ms : List MetaData)
    → upload_meta_data (m ∷ ms) new_meta ≡ done (loaded (last_of m ms))
unfolding upload_meta_data load_t_set_meta_data close_chan
upload_meta_data-last m ms = upload_meta_data-loaded m ms

module _ {ℓ} {F : Type ℓ} (D : Bolt) (decode : F → Bytes → F) where
  -- A start on a store where the bucket is there.
  start_searcher-fails :
      (cpus : ℕ) (db : D.Db)
      → D.bucket db (index_bucket_key ∷ []) ≡ true
      → start_searcher D decode cpus db
        ≡ record { x_set = none; writers = 0; readers = 0; ok = false }
  unfolding start_searcher load_x_set_filter_from_db
  start_searcher-fails cpus db there =
      let refused : load_x_set_filter_from_db D decode db none ≡ (none, false) =
        rw (load_x_set_filter_from_db, D.create_read_only db [] index_bucket_key) in
      rw (there, refused)

  -- In a store with no index that has the place of its bucket free, and for a filter that bolt
  -- takes: the first start has no error and gives writers and readers. The filter that then comes is
  -- stored, but not kept in memory, and from then on every new searcher's start fails and gives
  -- neither writers nor readers.
  pub put_x_set_filter-restart :
      (num_cpu : ℕ) (xf : Bytes) (db : D.Db)
      → length xf < 2 ^ 31 - 2
      → IsRoot D index_bucket_key db
      → D.bucket db (index_bucket_key ∷ []) ≡ false
      → (db' : D.Db) × (start_searcher D decode num_cpu db
          ≡ record { x_set = none; writers = 2; readers = num_cpu * 3; ok = true })
        × (put_x_set_filter D decode xf (none, db) ≡ (none, db'))
        × (D.get db' (index_bucket_key ∷ []) x_set_key ≡ some xf)
        × ((cpus : ℕ)
            → start_searcher D decode cpus db'
              ≡ record { x_set = none; writers = 0; readers = 0; ok = false })
  put_x_set_filter-restart num_cpu xf db small shape fresh =
      let w =
        writes D index_bucket_key x_set_key xf db (omega arith, omega arith)
          (omega arith, omega arith) small shape in
      (
        w.after,
        unfold start_searcher in rw fresh,
        unfold put_x_set_filter decode_x_set update put_filter in ground (arith, w.creates, w.puts),
        w.gets x_set_key ∙ (rw (bytes_eq_refl x_set_key)),
        λ cpus. start_searcher-fails cpus w.after w.there,
      )
