-- ===== src/TfCalc.antt =====
-- client_proxy/tf_calc.go: counting the words of the corpus by mappers, shufflers and reducers, and
-- the sizes of the frequency buckets. Counts are ints, which no corpus fills.
pub mod Reduce
pub mod Sizes
pub mod Populate
pub mod Network
use duck_duck_xor.Base.{
  ℕ, zero, suc, ◌+◌, ◌%◌, ◌&&◌, Option, none, some, List, [], ◌∷◌, ◌++◌, ltb, ◌==◌, if◌then◌else◌,
  Bytes, Outcome, done, panic, blocked, ◌>>=◌, lookup, insert,
}
use duck_duck_xor.Bloom.{
  Inbox, FrequencyBucket, below_100, below_1000, below_10000, below_100000, init_freq_buckets, u64,
}

-- map[string]int, and a pair on a reducer's channel.
abbrev pub Frequencies : Type 0
Frequencies = List (Bytes × ℕ)

-- `m[key]`: zero for a missing key.
unfoldable pub frequency_of : Bytes → Frequencies → ℕ
frequency_of key m = elim (lookup key m) [ none ↦ 0 | some n ↦ n ]

-- `m[key] += n`.
unfoldable pub add_frequency : Bytes → ℕ → Frequencies → Frequencies
unfolding frequency_of
add_frequency key n m = insert key (frequency_of key m + n) m

-- frequencyWorker for one document: the tokens of the document are counted in a new map.
unfoldable pub count_tokens : List Bytes → Frequencies → Frequencies
unfolding add_frequency
count_tokens [] m = m
count_tokens (token ∷ doc) m = count_tokens doc (add_frequency token 1 m)

-- frequencyWorker over the documents that arrive.
unfoldable pub frequency_worker : List (List Bytes) → List Frequencies
unfolding count_tokens
frequency_worker [] = []
frequency_worker (doc ∷ docs) = count_tokens doc [] ∷ frequency_worker docs

module _ (fnv32a : Bytes → ℕ) where
  -- The loop of shuffler over the pairs of one map: what goes to which reducer. A remainder by
  -- zero reducers panics.
  unfoldable pub shuffle_pairs : ℕ → Frequencies → Outcome (List (ℕ × (Bytes × ℕ)))
  shuffle_pairs num_reducers [] = done []
  shuffle_pairs num_reducers ((key, val) ∷ doc) = do
    let hash_value = fnv32a key % num_reducers
    sent ← (if num_reducers == 0 then panic else done (hash_value, (key, val)))
    rest ← shuffle_pairs num_reducers doc
    done (sent ∷ rest)

  -- shuffler over the maps that arrive.
  unfoldable pub shuffler : ℕ → List Frequencies → Outcome (List (ℕ × (Bytes × ℕ)))
  unfolding shuffle_pairs
  shuffler num_reducers [] = done []
  shuffler num_reducers (doc ∷ docs) = do
    sent ← shuffle_pairs num_reducers doc
    rest ← shuffler num_reducers docs
    done (sent ++ rest)

-- `reduceMap[r]`: the pairs that reach one reducer.
unfoldable pub channel : ℕ → List (ℕ × (Bytes × ℕ)) → Frequencies
channel r [] = []
channel r ((hash_value, pair) ∷ sent) =
    if hash_value == r then pair ∷ channel r sent else channel r sent

-- The loop of reducer.
unfoldable pub reduce_pairs : Frequencies → Frequencies → Frequencies
unfolding add_frequency
reduce_pairs [] sub_set = sub_set
reduce_pairs ((key, tf) ∷ input) sub_set = reduce_pairs input (add_frequency key tf sub_set)

-- bucketVals.
pub record BucketVals : Type 0 where
  pub lt_hundred : ℕ
  pub lt_one_k : ℕ
  pub lt_ten_k : ℕ
  pub lt_hundred_k : ℕ

abbrev pub no_vals : BucketVals
no_vals = record { lt_hundred = 0; lt_one_k = 0; lt_ten_k = 0; lt_hundred_k = 0 }

-- The switch of calculateBucketSizes.
unfoldable pub count_size : ℕ → BucketVals → BucketVals
count_size size b =
    if ltb size 100
    then record b { lt_hundred = b.lt_hundred + 1 }
    else if ltb 100 size && ltb size 1000
    then record b { lt_one_k = b.lt_one_k + 1 }
    else if ltb 1000 size && ltb size 10000
    then record b { lt_ten_k = b.lt_ten_k + 1 }
    else if ltb 10000 size && ltb size 100000
    then record b { lt_hundred_k = b.lt_hundred_k + 1 }
    else b

-- calculateBucketSizes, with what has been counted so far.
unfoldable pub calculate_bucket_sizes : Frequencies → BucketVals → BucketVals
unfolding count_size
calculate_bucket_sizes [] b = b
calculate_bucket_sizes ((word, size) ∷ m) b = calculate_bucket_sizes m (count_size size b)

-- reducer: its counts, and the sizes that it sends.
unfoldable pub reducer : Frequencies → Frequencies × BucketVals
unfolding reduce_pairs calculate_bucket_sizes
reducer input =
    let sub_set = reduce_pairs input [] in (sub_set, calculate_bucket_sizes sub_set no_vals)

-- The sums of bloomFilterInitializer with one more message.
unfoldable pub add_vals : BucketVals → BucketVals → BucketVals
add_vals b a = record {
  lt_hundred = u64 (b.lt_hundred + a.lt_hundred);
  lt_one_k = u64 (b.lt_one_k + a.lt_one_k);
  lt_ten_k = u64 (b.lt_ten_k + a.lt_ten_k);
  lt_hundred_k = u64 (b.lt_hundred_k + a.lt_hundred_k);
}

-- The loop of bloomFilterInitializer: it takes one message for each reducer, and spins if they do
-- not come.
unfoldable pub sum_sizes : ℕ → List BucketVals → BucketVals → Outcome BucketVals
unfolding add_vals
sum_sizes zero vals b = done b
sum_sizes (suc sem) [] b = blocked
sum_sizes (suc sem) (a ∷ vals) b = sum_sizes sem vals (add_vals b a)

-- bloomFilterInitializer: the sums go to the bloom master.
unfoldable pub bloom_filter_initializer : ℕ → List BucketVals → Inbox → Outcome (Option Inbox)
unfolding sum_sizes
bloom_filter_initializer num_reducers vals bloom = do
  b ← sum_sizes num_reducers vals no_vals
  done (
      init_freq_buckets
        ((below_100, b.lt_hundred)
          ∷ (below_1000, b.lt_one_k)
          ∷ (below_10000, b.lt_ten_k)
          ∷ (below_100000, b.lt_hundred_k)
          ∷ [])
        bloom)
