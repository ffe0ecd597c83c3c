-- ===== src/TfCalc/Populate.antt =====
-- populateBloomFilters: sending the words to their frequency buckets.
use duck_duck_xor.Base.{ℕ, zero, suc, ◌+◌, ◌≡◌, refl, sym, ap, ◌∙◌, inl, inr}
use duck_duck_xor.Base.{
  true, ◌&&◌, none, some, List, [], ◌∷◌, map, append-nil, append_assoc, ◌++◌, Option,
}
use duck_duck_xor.Base.{ltb, ◌==◌, if◌then◌else◌, ==_iff, Bool-cases, Option-cases}
use duck_duck_xor.Base.{length, set, take, drop, replicate}
use duck_duck_xor.Base.{Bytes}
use duck_duck_xor.Base.{Outcome, done, panic, ◌>>=◌}
use duck_duck_xor.Bloom.{
  BloomLib, Master, Inbox, FrequencyBucket, below_100, below_1000, below_10000, below_100000,
  bucket_unknown, bucket_number, same_bucket, put_bucket, freq_bucket_add, queue_freq_bucket_add,
  send_message, handle_freq_bucket_add, add_to_bucket, add_terms, handle, bloom_worker,
}
use duck_duck_xor.TfCalc.{Frequencies, BucketVals, no_vals}

-- A slice of words with the index of its next free place.
pub record Batch : Type 0 where
  pub slice : List Bytes
  pub index : ℕ

-- The four slices and the bloom master's queue.
pub record Batches : Type 0 where
  pub lt_hundred : Batch
  pub lt_one_k : Batch
  pub lt_ten_k : Batch
  pub lt_hundred_k : Batch
  pub bloom : Inbox

-- `slice[i] = word` at an index of its own: out of range panics.
unfoldable pub put_word : Bytes → ℕ → Batch → Outcome Batch
put_word word i b =
    if ltb i (length b.slice)
    then done (record { slice = set b.slice i word; index = b.index + 1 })
    else panic

-- The switch: a word goes to the slice of its size. The last slice is written at the index of the
-- first.
unfoldable pub place_word : Bytes → ℕ → Batches → Outcome Batches
unfolding put_word
place_word word size p =
    if ltb size 100
    then (put_word word p.lt_hundred.index p.lt_hundred >>= λ b. done (record p { lt_hundred = b }))
    else if ltb 100 size && ltb size 1000
    then (put_word word p.lt_one_k.index p.lt_one_k >>= λ b. done (record p { lt_one_k = b }))
    else if ltb 1000 size && ltb size 10000
    then (put_word word p.lt_ten_k.index p.lt_ten_k >>= λ b. done (record p { lt_ten_k = b }))
    else if ltb 10000 size && ltb size 100000
    then (put_word word p.lt_hundred.index p.lt_hundred_k >>= λ b.
        done (record p { lt_hundred_k = b }))
    else done p

-- The call of QueueFreqBucketAdd: its error is dropped.
unfoldable pub queue_words : FrequencyBucket → List Bytes → Inbox → Inbox
queue_words target words q = elim (queue_freq_bucket_add target words q) [ none ↦ q | some q' ↦ q' ]

-- A slice with 10000 words is sent, and what is behind them is left; of the last slice the words
-- themselves are left. The index of the last slice may pass its length, where slicing panics; the
-- others are written at their own index.
unfoldable pub flush : Batches → Outcome Batches
unfolding queue_words
flush p0 =
    let p1 =
      if p0.lt_hundred.index == 10000
      then record p0 {
        lt_hundred = record { slice = drop 10000 p0.lt_hundred.slice; index = 0 };
        bloom = queue_words below_100 (take 10000 p0.lt_hundred.slice) p0.bloom;
      }
      else p0 in
    let p2 =
      if p1.lt_one_k.index == 10000
      then record p1 {
        lt_one_k = record { slice = drop 10000 p1.lt_one_k.slice; index = 0 };
        bloom = queue_words below_1000 (take 10000 p1.lt_one_k.slice) p1.bloom;
      }
      else p1 in
    let p3 =
      if p2.lt_ten_k.index == 10000
      then record p2 {
        lt_ten_k = record { slice = drop 10000 p2.lt_ten_k.slice; index = 0 };
        bloom = queue_words below_10000 (take 10000 p2.lt_ten_k.slice) p2.bloom;
      }
      else p2 in
    if p3.lt_hundred_k.index == 10000
    then (if ltb (length p3.lt_hundred_k.slice) 10000
        then panic
        else done (record p3 {
          lt_hundred_k = record { slice = take 10000 p3.lt_hundred_k.slice; index = 0 };
          bloom = queue_words below_100000 (take 10000 p3.lt_hundred_k.slice) p3.bloom;
        }))
    else done p3

-- The loop over ResultMap.
unfoldable pub place_words : Frequencies → Batches → Outcome Batches
unfolding place_word flush
place_words [] p = done p
place_words ((word, size) ∷ m) p = do p' ← place_word word size p; p'' ← flush p'; place_words m p''

-- Empty slices of the sizes, and the queue.
abbrev pub fresh_batches : BucketVals → Inbox → Batches
fresh_batches v bloom = record {
  lt_hundred = record { slice = replicate v.lt_hundred []; index = 0 };
  lt_one_k = record { slice = replicate v.lt_one_k []; index = 0 };
  lt_ten_k = record { slice = replicate v.lt_ten_k []; index = 0 };
  lt_hundred_k = record { slice = replicate v.lt_hundred_k []; index = 0 };
  bloom = bloom;
}

-- populateBloomFilters over the result map and the calculator's size fields: what is left in the
-- slices is sent in the end.
unfoldable pub populate_bloom_filters : Frequencies → BucketVals → Inbox → Outcome Inbox
unfolding place_words queue_words
populate_bloom_filters result_map sizes bloom = do
  p ← place_words result_map (fresh_batches sizes bloom)
  done (
      queue_words below_100000 p.lt_hundred_k.slice (
        queue_words below_10000 p.lt_ten_k.slice (
          queue_words below_1000 p.lt_one_k.slice
            (queue_words below_100 p.lt_hundred.slice p.bloom))))

-- The bucket of a number.
numbered : ℕ → FrequencyBucket
numbered zero = below_100
numbered (suc zero) = below_1000
numbered (suc (suc zero)) = below_10000
numbered (suc (suc (suc zero))) = below_100000
numbered (suc (suc (suc (suc n)))) = bucket_unknown

numbered-bucket_number : (t : FrequencyBucket) → numbered (bucket_number t) ≡ t
unfolding numbered bucket_number
numbered-bucket_number below_100 = refl
numbered-bucket_number below_1000 = refl
numbered-bucket_number below_10000 = refl
numbered-bucket_number below_100000 = refl
numbered-bucket_number bucket_unknown = refl

same_bucket_eq : (t q : FrequencyBucket) → same_bucket t q ≡ true → t ≡ q
unfolding same_bucket
same_bucket_eq t q h =
    sym (numbered-bucket_number t)
    ∙ ap numbered ((==_iff (bucket_number t) (bucket_number q)).0 h)
    ∙ numbered-bucket_number q

module _ (B : BloomLib) where
  open B use {Filter}

  -- No bucket that has been made has a word yet.
  abbrev pub NoneYet : Master Filter → Type 0
  NoneYet b =
      (t : FrequencyBucket) (f : Filter)
      → b.bloom_freq_buckets t ≡ some f
      → b.current_bucket_size t ≡ 0

  -- A bucket that has been made for no word at all, with its filter.
  unfoldable pub if_for_none : FrequencyBucket → Option Filter → ℕ → List (FrequencyBucket × Filter)
  if_for_none t none size = []
  if_for_none t (some f) size = if size == 0 then (t, f) ∷ [] else []

  -- Those of these buckets.
  unfoldable pub made_for_none :
      List FrequencyBucket → Master Filter → List (FrequencyBucket × Filter)
  unfolding if_for_none
  made_for_none [] b = []
  made_for_none (t ∷ ts) b =
      if_for_none t (b.bloom_freq_buckets t) (b.full_bucket_size t) ++ made_for_none ts b

  -- Nothing added to a bucket leaves all filters as they are.
  add_to_bucket-filters :
      (t q : FrequencyBucket) (f : Filter) (b : Master Filter)
      → b.bloom_freq_buckets t ≡ some f
      → (add_to_bucket B t f [] b).bloom_freq_buckets q ≡ b.bloom_freq_buckets q
  unfolding add_to_bucket put_bucket add_terms
  add_to_bucket-filters t q f b at = elim (Bool-cases (same_bucket t q)) [
    | inl here ↦ rw here (sym at ∙ ap b.bloom_freq_buckets (same_bucket_eq t q here))
    | inr away ↦ rw away
  ]

  add_to_bucket-NoneYet :
      (t : FrequencyBucket) (f : Filter) (b : Master Filter)
      → b.bloom_freq_buckets t ≡ some f
      → NoneYet b
      → NoneYet (add_to_bucket B t f [] b)
  add_to_bucket-NoneYet t f b at none_ q g e =
      let kept : b.bloom_freq_buckets q ≡ some g = sym (add_to_bucket-filters t q f b at) ∙ e in
      elim (Bool-cases (same_bucket t q)) [
        | inl here ↦ unfold add_to_bucket put_bucket in rw (here, none_ t f at)
        | inr away ↦ unfold add_to_bucket put_bucket in rw away (none_ q g kept)
      ]

  add_to_bucket-made_for_none :
      (t : FrequencyBucket) (f : Filter) (b : Master Filter) (ts : List FrequencyBucket)
      → b.bloom_freq_buckets t ≡ some f
      → made_for_none ts (add_to_bucket B t f [] b) ≡ made_for_none ts b
  unfolding made_for_none add_to_bucket
  add_to_bucket-made_for_none t f b [] at = refl
  add_to_bucket-made_for_none t f b (q ∷ ts) at = λ i.
      if_for_none q (add_to_bucket-filters t q f b at i) (b.full_bucket_size q)
      ++ add_to_bucket-made_for_none t f b ts at i

  -- A bucket is sent off again by an empty message, if it was made for none.
  empty_batches-made_for_none :
      (ts : List FrequencyBucket) (b : Master Filter)
      → NoneYet b
      → (b' : Master Filter) × (bloom_worker B (map (λ t. freq_bucket_add t []) ts) b ≡ done b')
        × (b'.finished_freq_blooms ≡ b.finished_freq_blooms ++ made_for_none ts b)
  unfolding bloom_worker handle handle_freq_bucket_add made_for_none
  empty_batches-made_for_none [] b none_ = (b, refl, sym (append-nil b.finished_freq_blooms))
  empty_batches-made_for_none (t ∷ ts) b none_ = elim (Option-cases (b.bloom_freq_buckets t)) [
    | inl gone ↦
        let (b', e, same) = empty_batches-made_for_none ts b none_ in
        (b', rw (handle_freq_bucket_add, gone) e, rw gone same)
    | inr (f, at) ↦
        let b1 = add_to_bucket B t f [] b in
        let (b', e, same) =
          empty_batches-made_for_none ts b1 (add_to_bucket-NoneYet t f b at none_) in
        let finished : b1.finished_freq_blooms
            ≡ b.finished_freq_blooms ++ if_for_none t (some f) (b.full_bucket_size t) =
          unfold add_to_bucket add_terms if_for_none in rw (none_ t f at) in
        (
          b',
          rw (handle_freq_bucket_add, at) e,
          same
              ∙ (λ i. finished i ++ add_to_bucket-made_for_none t f b ts at i)
              ∙ append_assoc b.finished_freq_blooms (if_for_none t (some f) (b.full_bucket_size t))
                  (made_for_none ts b)
              ∙ sym (
                  ap
                    (λ o.
                      b.finished_freq_blooms
                      ++ (if_for_none t o (b.full_bucket_size t) ++ made_for_none ts b))
                    at),
        )
  ]

  -- The result map and the size fields of a calculator are never set. So for a running bloom master
  -- with an empty queue and buckets that have no word yet, the worker returns from all messages of
  -- populateBloomFilters, and the buckets that have been sent off to be saved behind them are those
  -- that were made for no word at all, each with the filter that it had: no word has come to a bucket.
  pub populate_bloom_filters-saves_no_word :
      (b : Master Filter)
      → NoneYet b
      → (q : Inbox) × (b' : Master Filter) × (populate_bloom_filters [] no_vals
            (record { shutdown = 0; msg_chan = [] })
          ≡ done q)
        × (bloom_worker B q.msg_chan b ≡ done b')
        × (b'.finished_freq_blooms
            ≡ b.finished_freq_blooms
              ++ made_for_none (below_100 ∷ below_1000 ∷ below_10000 ∷ below_100000 ∷ []) b)
  unfolding populate_bloom_filters place_words queue_words queue_freq_bucket_add send_message
  populate_bloom_filters-saves_no_word b none_ =
      let ts = below_100 ∷ below_1000 ∷ below_10000 ∷ below_100000 ∷ [] in
      let (b', e, same) = empty_batches-made_for_none ts b none_ in
      (record { shutdown = 0; msg_chan = map (λ t. freq_bucket_add t []) ts }, b', refl, e, same)
