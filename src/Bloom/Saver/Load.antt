-- ===== src/Bloom/Saver/Load.antt =====
-- What freqBloomSaver wrote is what loadFiltersFromDb reads.
use duck_duck_xor.Base.{ℕ, ◌-◌, ◌^◌, ◌<◌, ◌≡◌, refl, sym, ap, ◌∙◌, ◌≢◌, ◌⊎◌, inl, inr}
use duck_duck_xor.Base.{true, false, not, Option, some, List, [], ◌∷◌, map, arith}
use duck_duck_xor.Base.{◌==◌, if◌then◌else◌, Bool-cases}
use duck_duck_xor.Base.{length}
use duck_duck_xor.Base.{bytes_eq, bytes_eq_refl, bytes_eq_iff}
use duck_duck_xor.Base.{done, ◌>>=◌}
use mathlib.Core.Path.{subst}
use duck_duck_xor.Bolt.{Bolt, IsKey}
use duck_duck_xor.Bolt.Root.{IsRoot, writes}
use duck_duck_xor.Bloom.{
  BloomLib, FrequencyBucket, below_100, below_1000, below_10000, below_100000, bucket_unknown,
  num_buckets, put_bucket, same_bucket, bucket_number,
}
use duck_duck_xor.Bloom.Query.{Visited, AllKnown}
use duck_duck_xor.Bloom.Saver.{
  bloom_bucket_key, bucket_to_key, is_first_time, save_filter, freq_bloom_saver, load_buckets,
  load_filters_from_db,
}

-- The bucket whose key has a given length.
bucket_of : ℕ → FrequencyBucket
bucket_of n =
    if n == 5
    then below_100
    else if n == 6
    then below_1000
    else if n == 7
    then below_10000
    else if n == 8
    then below_100000
    else bucket_unknown

bucket_of-key : (r : FrequencyBucket) → bucket_of (length (bucket_to_key r)) ≡ r
unfolding bucket_to_key bucket_of
bucket_of-key below_100 = refl
bucket_of-key below_1000 = refl
bucket_of-key below_10000 = refl
bucket_of-key below_100000 = refl
bucket_of-key bucket_unknown = refl

-- Different buckets have different keys.
bucket_to_key-injective : (r q : FrequencyBucket) → bucket_to_key r ≡ bucket_to_key q → r ≡ q
bucket_to_key-injective r q e =
    sym (bucket_of-key r) ∙ ap (λ k. bucket_of (length k)) e ∙ bucket_of-key q

bucket_to_key-IsKey : (r : FrequencyBucket) → r ≢ bucket_unknown → IsKey (bucket_to_key r)
unfolding bucket_to_key
bucket_to_key-IsKey below_100 h = (omega arith, omega arith)
bucket_to_key-IsKey below_1000 h = (omega arith, omega arith)
bucket_to_key-IsKey below_10000 h = (omega arith, omega arith)
bucket_to_key-IsKey below_100000 h = (omega arith, omega arith)
bucket_to_key-IsKey bucket_unknown h = absurd (h refl)

-- Each of the four buckets stands in the list.
pub record Covers (order : List FrequencyBucket) : Type 0 where
  pub has_100 : Visited below_100 order
  pub has_1000 : Visited below_1000 order
  pub has_10000 : Visited below_10000 order
  pub has_100000 : Visited below_100000 order

covered :
    (order : List FrequencyBucket)
    → Covers order
    → (r : FrequencyBucket) → r ≢ bucket_unknown
    → Visited r order
covered order c below_100 h = c.has_100
covered order c below_1000 h = c.has_1000
covered order c below_10000 h = c.has_10000
covered order c below_100000 h = c.has_100000
covered order c bucket_unknown h = absurd (h refl)

module _ (B : BloomLib) (D : Bolt) (f : FrequencyBucket → B.Filter) where
  open B use {Filter, gob_encode, gob_decode, gob_decode-gob_encode}
  open D use {Db, bucket, get}

  -- The bucket of filters is there, and the filter stands under its key.
  abbrev Saved : Db → FrequencyBucket → Type 0
  Saved db r =
      (bucket db (bloom_bucket_key ∷ []) ≡ true)
      × (get db (bloom_bucket_key ∷ []) (bucket_to_key r) ≡ some (gob_encode (f r)))

  -- bolt takes the serialised filters.
  abbrev pub AllShort : Type 0
  AllShort = (r : FrequencyBucket) → length (gob_encode (f r)) < 2 ^ 31 - 2

  -- One filter: it is saved, and those that were saved stay.
  save_filter-saves :
      (r : FrequencyBucket) (db : Db)
      → AllShort
      → r ≢ bucket_unknown
      → IsRoot D bloom_bucket_key db
      → (db' : Db) × (save_filter B D (r, f r) db ≡ done db')
        × IsRoot D bloom_bucket_key db'
        × Saved db' r
        × ((q : FrequencyBucket) → Saved db q → Saved db' q)
  save_filter-saves r db short known shape =
      let w =
        writes D bloom_bucket_key (bucket_to_key r) (gob_encode (f r)) db (omega arith, omega arith)
          (bucket_to_key-IsKey r known) (short r) shape in
      (
        w.after,
        unfold save_filter in ground (arith, w.creates, w.puts),
        w.shape,
        (w.there, w.gets (bucket_to_key r) ∙ (rw (bytes_eq_refl (bucket_to_key r)))),
        λ q h. (
          w.there,
          w.gets (bucket_to_key q)
              ∙ elim (Bool-cases (bytes_eq (bucket_to_key r) (bucket_to_key q))) [
                | inl same ↦
                    (rw same (
                      ap (λ p. some (gob_encode (f p)))
                        (bucket_to_key-injective r q
                          ((bytes_eq_iff (bucket_to_key r) (bucket_to_key q)).0 same))))
                | inr other ↦ (rw other h.1)
              ],
        ),
      )

  all-Saved :
      (order : List FrequencyBucket) (db : Db)
      → AllShort
      → AllKnown order
      → IsRoot D bloom_bucket_key db
      → (db' : Db) × (freq_bloom_saver B D (length order) (map (λ r. (r, f r)) order) db ≡ done db')
        × ((q : FrequencyBucket) → Saved db q ⊎ Visited q order → Saved db' q)
  unfolding freq_bloom_saver
  all-Saved [] db short known shape = (db, refl, λ q h. elim h [ inl old ↦ old | inr v ↦ absurd v ])
  all-Saved (r ∷ order) db short known shape =
      let (db1, e1, shape1, new, kept) = save_filter-saves r db short known.0 shape in
      let (db2, e2, all) = all-Saved order db1 short known.1 shape1 in
      (
        db2,
        rw (e1, ◌>>=◌) e2,
        λ q h. all q (elim h [
          | inl old ↦ inl (kept q old)
          | inr v ↦ elim v [ inl here ↦ inl (subst (Saved db1) here new) | inr later ↦ inr later ]
        ]),
      )

  load-Saved :
      (db : Db) (r : FrequencyBucket) (rs : List FrequencyBucket)
      (m : FrequencyBucket → Option Filter)
      → Saved db r
      → load_buckets B D (r ∷ rs) db m ≡ load_buckets B D rs db (put_bucket r (some (f r)) m)
  unfolding load_buckets
  load-Saved db r rs m h = ground (arith, h.1, gob_decode-gob_encode (f r))

  -- The map that the four loads leave.
  loaded : (FrequencyBucket → Option Filter) → FrequencyBucket → Option Filter
  loaded m = put_bucket below_100000 (some (f below_100000)) (
      put_bucket below_10000 (some (f below_10000))
        (put_bucket below_1000 (some (f below_1000)) (put_bucket below_100 (some (f below_100)) m)))

  loaded_each :
      (m : FrequencyBucket → Option Filter) (r : FrequencyBucket)
      → r ≢ bucket_unknown
      → loaded m r ≡ some (f r)
  unfolding loaded put_bucket same_bucket bucket_number
  loaded_each m below_100 h = refl
  loaded_each m below_1000 h = refl
  loaded_each m below_10000 h = refl
  loaded_each m below_100000 h = refl
  loaded_each m bucket_unknown h = absurd (h refl)

  load_all-Saved :
      (db : Db) (m : FrequencyBucket → Option Filter)
      → ((r : FrequencyBucket) → r ≢ bucket_unknown → Saved db r)
      → load_filters_from_db B D db m ≡ (loaded m, true)
  unfolding load_filters_from_db loaded
  load_all-Saved db m saved =
      load-Saved db below_100 _ m (saved below_100 (λ h. ground arith))
      ∙ load-Saved db below_1000 _ _ (saved below_1000 (λ h. ground arith))
      ∙ load-Saved db below_10000 _ _ (saved below_10000 (λ h. ground arith))
      ∙ load-Saved db below_100000 _ _ (saved below_100000 (λ h. ground arith))
      ∙ (unfold load_buckets in refl)

  -- If bolt takes the filters, and the buckets that are finished are the four in any order: the
  -- saver ends, the database is then not that of a first time, and loading it has no error and gives
  -- each of the four buckets its filter.
  pub freq_bloom_saver-loads :
      (order : List FrequencyBucket) (db : Db) (m : FrequencyBucket → Option Filter)
      → AllShort
      → length order ≡ num_buckets
      → AllKnown order
      → Covers order
      → IsRoot D bloom_bucket_key db
      → (db' : Db) × (freq_bloom_saver B D num_buckets (map (λ r. (r, f r)) order) db ≡ done db')
        × (is_first_time B D db' ≡ false)
        × (m' : FrequencyBucket → Option Filter) × (load_filters_from_db B D db' m ≡ (m', true))
        × ((r : FrequencyBucket) → r ≢ bucket_unknown → m' r ≡ some (f r))
  freq_bloom_saver-loads order db m short four known covers shape =
      let (db', e, all) = all-Saved order db short known shape in
      let saved : (q : FrequencyBucket) → q ≢ bucket_unknown → Saved db' q =
        λ q h. all q (inr (covered order covers q h)) in
      (
        db',
        subst (λ n. freq_bloom_saver B D n (map (λ r. (r, f r)) order) db ≡ done db') four e,
        ap not (all below_100 (inr covers.has_100)).0,
        loaded m,
        load_all-Saved db' m saved,
        loaded_each m,
      )
