-- ===== src/Bloom/Freq.antt =====
-- The frequency buckets: a bucket's filter is sent to be saved when its size has been reached.
use duck_duck_xor.Base.{ℕ, ◌+◌, ◌^◌, ◌<◌, ◌≡◌, refl, ap, ◌∙◌}
use duck_duck_xor.Base.{true, false, some, List, [], ◌∷◌, ◌++◌, map, append-nil, arith}
use duck_duck_xor.Base.{◌==◌, if◌then◌else◌}
use duck_duck_xor.Base.{length}
use duck_duck_xor.Base.{Bytes}
use duck_duck_xor.Base.{done}
use duck_duck_xor.Bloom.{
  BloomLib, FrequencyBucket, below_100, below_1000, below_10000, below_100000, bucket_unknown,
  bucket_number, same_bucket, put_bucket, Master, freq_bucket_add, u64, add_terms, add_to_bucket,
  handle_freq_bucket_add, handle, bloom_worker,
}
use duck_duck_xor.Bloom.XSet.{total, NoneEmpty, AllTestEach, add_batches, AllTestEach-add_batches}

pub same_bucket_self : (b : FrequencyBucket) → same_bucket b b ≡ true
unfolding same_bucket bucket_number
same_bucket_self below_100 = refl
same_bucket_self below_1000 = refl
same_bucket_self below_10000 = refl
same_bucket_self below_100000 = refl
same_bucket_self bucket_unknown = refl

nothing_sent {ℓ} :
    {A : Type ℓ} (size n : ℕ) (xs ys : List A)
    → n < size
    → size < 2 ^ 64
    → xs ++ (if size == u64 n then ys else []) ≡ xs
nothing_sent size n xs ys h small =
    let short : (size == u64 n) ≡ false = ground arith in rw short (append-nil xs)

module _ (B : BloomLib) where
  open B use {Filter}

  -- A bucket with its filter, its size and its count.
  pub record At (target : FrequencyBucket) (f : Filter) (size n : ℕ) (b : Master Filter)
      : Type 0 where
    pub filter_at : b.bloom_freq_buckets target ≡ some f
    pub size_at : b.full_bucket_size target ≡ size
    pub count_at : b.current_bucket_size target ≡ n

  -- One message of terms to a bucket: they are added and counted, and the filter is sent off if
  -- the count meets the size.
  pub handle_freq_bucket_add-At :
      (target : FrequencyBucket) (f : Filter) (size n : ℕ) (terms : List Bytes) (b : Master Filter)
      → At target f size n b
      → (b' : Master Filter) × (handle_freq_bucket_add B target terms b ≡ done b')
        × At target (add_terms B f terms) size (u64 (n + length terms)) b'
        × (b'.finished_freq_blooms
            ≡ b.finished_freq_blooms
              ++ (if size == u64 (n + length terms)
                  then (target, add_terms B f terms) ∷ []
                  else []))
  unfolding handle_freq_bucket_add add_to_bucket put_bucket
  handle_freq_bucket_add-At target f size n terms b at = (
    add_to_bucket B target f terms b,
    rw (at.filter_at, handle_freq_bucket_add),
    record {
      filter_at = rw (same_bucket_self target);
      size_at = at.size_at;
      count_at = rw (same_bucket_self target, at.count_at);
    },
    rw (at.size_at, at.count_at),
  )

  -- Messages that leave the count short of the size send nothing.
  terms-short :
      (target : FrequencyBucket) (size n : ℕ) (f : Filter) (batches : List (List Bytes))
      (b : Master Filter)
      → At target f size n b
      → size < 2 ^ 64
      → n + total batches < size
      → (b' : Master Filter) × (bloom_worker B (map (freq_bucket_add target) batches) b ≡ done b')
        × (b'.finished_freq_blooms ≡ b.finished_freq_blooms)
  unfolding bloom_worker handle total
  terms-short target size n f [] b at small h = (b, refl, refl)
  terms-short target size n f (terms ∷ batches) b at small h =
      let (b', e, at', sent) = handle_freq_bucket_add-At target f size n terms b at in
      let (b'', e', same) =
        terms-short target size (u64 (n + length terms)) (add_terms B f terms) batches b' at' small
          (omega arith) in
      (b'', rw e e', same ∙ sent ∙ nothing_sent size (n + length terms) _ _ (omega arith) small)

  terms-reach :
      (target : FrequencyBucket) (size n : ℕ) (f : Filter) (terms : List Bytes)
      (batches : List (List Bytes)) (b : Master Filter)
      → At target f size n b
      → size < 2 ^ 64
      → NoneEmpty batches
      → n + total (terms ∷ batches) ≡ size
      → (b' : Master Filter) × (bloom_worker B (map (freq_bucket_add target) (terms ∷ batches)) b
          ≡ done b')
        × (b'.finished_freq_blooms
            ≡ b.finished_freq_blooms ++ (target, add_batches B f (terms ∷ batches)) ∷ [])
  unfolding bloom_worker handle total add_batches
  terms-reach target size n f terms [] b at small h e =
      let (b', r, at', sent) = handle_freq_bucket_add-At target f size n terms b at in
      let full : (size == u64 (n + length terms)) ≡ true = ground arith in
      (b', rw r, sent ∙ (rw full))
  terms-reach target size n f terms (next ∷ batches) b at small h e =
      let (b', r, at', sent) = handle_freq_bucket_add-At target f size n terms b at in
      let (b'', r', last) =
        terms-reach target size (u64 (n + length terms)) (add_terms B f terms) next batches b' at'
          small h.1 (omega arith) in
      (
        b'',
        rw r r',
        last
            ∙ ap (λ l. l ++ (target, add_batches B f (terms ∷ next ∷ batches)) ∷ [])
                (sent ∙ nothing_sent size (n + length terms) _ _ (omega arith) small),
      )

  -- A bucket that has been made with a size below 2 ^ 64 and has no terms yet: messages with as many
  -- terms in all, none of them empty but perhaps the first, send one filter off to be saved, and it
  -- has every term.
  pub bloom_worker-finishes_bucket :
      (target : FrequencyBucket) (f : Filter) (terms : List Bytes) (batches : List (List Bytes))
      (b : Master Filter)
      → At target f (total (terms ∷ batches)) 0 b
      → total (terms ∷ batches) < 2 ^ 64
      → NoneEmpty batches
      → (b' : Master Filter) × (g : Filter) × (bloom_worker B
            (map (freq_bucket_add target) (terms ∷ batches))
            b
          ≡ done b')
        × (b'.finished_freq_blooms ≡ b.finished_freq_blooms ++ (target, g) ∷ [])
        × AllTestEach B g (terms ∷ batches)
  bloom_worker-finishes_bucket target f terms batches b at small h =
      let (b', r, sent) =
        terms-reach target (total (terms ∷ batches)) 0 f terms batches b at small h (omega arith) in
      (
        b',
        add_batches B f (terms ∷ batches),
        r,
        sent,
        AllTestEach-add_batches B f (terms ∷ batches),
      )

  -- A bucket that has been made with a size below 2 ^ 64 and has no terms yet: while it has
  -- received fewer terms than its size, nothing is sent off.
  pub bloom_worker-holds_bucket :
      (target : FrequencyBucket) (f : Filter) (size : ℕ) (batches : List (List Bytes))
      (b : Master Filter)
      → At target f size 0 b
      → size < 2 ^ 64
      → total batches < size
      → (b' : Master Filter) × (bloom_worker B (map (freq_bucket_add target) batches) b ≡ done b')
        × (b'.finished_freq_blooms ≡ b.finished_freq_blooms)
  bloom_worker-holds_bucket target f size batches b at small h =
      terms-short target size 0 f batches b at small (omega arith)
