-- ===== src/TfCalc/Network/Sizes.antt =====
-- The sums of bloomFilterInitializer.
use duck_duck_xor.Base.{ℕ, ◌+◌, ◌≡◌, refl, ap, ◌∙◌}
use duck_duck_xor.Base.{List, [], ◌∷◌, arith}
use duck_duck_xor.Base.{sum_by, sum_by-replace, sum_by-append}
use duck_duck_xor.Base.{Bytes}
use duck_duck_xor.Bloom.{u64}
use duck_duck_xor.TfCalc.{add_frequency, BucketVals, no_vals, add_vals, calculate_bucket_sizes}
use duck_duck_xor.TfCalc.Network.{
  Reducer, reducing, sending_sizes, reducer_done, sub_set, reducer_runs, Network, start_network,
  Step, launch_shuffler, launch_reducer, count_doc, close_term_freq, send_map, send_pair, end_map,
  leave, take_token, check_tokens, quit_reducing, send_sizes, close_bloom_size_chan, Reach, start,
  later,
}

-- One of the four sizes of a message, for the words that a reducer has counted.
unfoldable pub size_of : (BucketVals → ℕ) → Reducer → ℕ
unfolding calculate_bucket_sizes
size_of f x = f (calculate_bucket_sizes (sub_set x) no_vals)

-- The same of the reducers that have sent it.
unfoldable sent_size : (BucketVals → ℕ) → Reducer → ℕ
sent_size f (reducing m) = 0
sent_size f (sending_sizes m) = 0
sent_size f (reducer_done m) = size_of f (reducer_done m)

-- A size that is added up.
pub record IsSize (f : BucketVals → ℕ) : Type 0 where
  pub none_yet : f no_vals ≡ 0
  pub adds : (b a : BucketVals) → f (add_vals b a) ≡ u64 (f b + f a)

all_sent :
    (f : BucketVals → ℕ) (xs : List Reducer)
    → sum_by reducer_runs xs ≡ 0
    → sum_by (sent_size f) xs ≡ sum_by (size_of f) xs
unfolding sum_by reducer_runs sent_size size_of
all_sent f [] h = refl
all_sent f (reducing m ∷ xs) h = absurd (omega arith)
all_sent f (sending_sizes m ∷ xs) h = absurd (omega arith)
all_sent f (reducer_done m ∷ xs) h = omega (arith, all_sent f xs (omega (arith, h)))

module _ (fnv32a : Bytes → ℕ) (n : ℕ) (f : BucketVals → ℕ) (is_size : IsSize f) where
  abbrev IsSummed : Network → Type 0
  IsSummed s = f s.sizes ≡ u64 (sum_by (sent_size f) s.reducers)

  Step-IsSummed : (s s' : Network) → Step fnv32a n s s' → IsSummed s → IsSummed s'
  unfolding sum_by sent_size size_of
  Step-IsSummed _ _ (launch_reducer s e more) is =
      omega (arith, is, sum_by-append (sent_size f) s.reducers (reducing [] ∷ []))
  Step-IsSummed _ _ (send_pair s left right key tf doc before after m e e' at) is = omega (
    arith,
    is,
    sum_by-replace (sent_size f) before (reducing m) (reducing (add_frequency key tf m)) after e',
  )
  Step-IsSummed _ _ (quit_reducing s before after m e q) is =
      omega (arith, is, sum_by-replace (sent_size f) before (reducing m) (sending_sizes m) after e)
  Step-IsSummed _ _ (send_sizes s before after m k e c open_) is = omega (
    arith,
    is,
    is_size.adds s.sizes (calculate_bucket_sizes m no_vals),
    sum_by-replace (sent_size f) before (sending_sizes m) (reducer_done m) after e,
  )
  Step-IsSummed _ _ (launch_shuffler s k e) is = is
  Step-IsSummed _ _ (count_doc s before after doc docs e d) is = is
  Step-IsSummed _ _ (close_term_freq s before after e d) is = is
  Step-IsSummed _ _ (send_map s before after m left right e e' open_) is = is
  Step-IsSummed _ _ (end_map s left right e) is = is
  Step-IsSummed _ _ (leave s left right e shut) is = is
  Step-IsSummed _ _ (take_token s left right k e t) is = is
  Step-IsSummed _ _ (check_tokens s left right e) is = is
  Step-IsSummed _ _ (close_bloom_size_chan s c open_) is = is

  Reach-IsSummed :
      (workers : ℕ) (docs : List (List Bytes)) (s : Network)
      → Reach fnv32a n workers docs s
      → IsSummed s
  unfolding start_network sum_by
  Reach-IsSummed workers docs _ start = is_size.none_yet
  Reach-IsSummed workers docs _ (later {s} {s'} r step) =
      Step-IsSummed s s' step (Reach-IsSummed workers docs s r)

  pub Reach-sums :
      {workers : ℕ} {docs : List (List Bytes)} {s : Network}
      → Reach fnv32a n workers docs s
      → sum_by reducer_runs s.reducers ≡ 0
      → f s.sizes ≡ u64 (sum_by (size_of f) s.reducers)
  Reach-sums {workers} {docs} {s} r ended =
      Reach-IsSummed workers docs s r ∙ ap u64 (all_sent f s.reducers ended)
