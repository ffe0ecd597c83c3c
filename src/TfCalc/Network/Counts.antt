-- ===== src/TfCalc/Network/Counts.antt =====
-- What the goroutines of a calculator hold of a word, whatever the order of their steps.
use duck_duck_xor.Base.{ℕ, zero, suc, ◌+◌, ◌%◌, ◌≡◌, refl, ap, ◌∙◌}
use duck_duck_xor.Base.{true, List, [], ◌∷◌, ◌++◌, arith}
use duck_duck_xor.Base.{◌==◌, if◌then◌else◌}
use duck_duck_xor.Base.{sum_by, sum_by-replace, length, replicate}
use duck_duck_xor.Base.{Bytes, bytes_eq, bytes_eq_iff}
use duck_duck_xor.TfCalc.{Frequencies, frequency_of, add_frequency, count_tokens}
use duck_duck_xor.TfCalc.Reduce.{
  count_in, weight, nothing, frequency_of-add, weight-count_tokens, none_yet,
}
use duck_duck_xor.TfCalc.Network.{
  Mapper, counting, sending_map, mapper_done, Shuffler, waiting, sending_pairs, leaving, checking,
  shuffler_done, Reducer, reducing, sending_sizes, reducer_done, sub_set, Network, start_network,
  Step, launch_shuffler, launch_reducer, count_doc, close_term_freq, send_map, send_pair, end_map,
  leave, take_token, check_tokens, quit_reducing, send_sizes, close_bloom_size_chan, Reach, start,
  later, mapper_runs, shuffler_runs,
}

-- What a goroutine still has to pass on of a word.
unfoldable pub mapper_weight : Bytes → Mapper → ℕ
mapper_weight w counting = 0
mapper_weight w (sending_map m) = weight w m
mapper_weight w mapper_done = 0

unfoldable pub shuffler_weight : Bytes → Shuffler → ℕ
shuffler_weight w waiting = 0
shuffler_weight w (sending_pairs m) = weight w m
shuffler_weight w leaving = 0
shuffler_weight w checking = 0
shuffler_weight w shuffler_done = 0

-- All that is on its way to the reducers.
unfoldable pub on_its_way : Bytes → Network → ℕ
unfolding mapper_weight shuffler_weight count_in
on_its_way w s =
    count_in w s.doc_in
    + sum_by (mapper_weight w) s.mappers
    + sum_by (shuffler_weight w) s.shufflers

pub mappers_empty :
    (w : Bytes) (xs : List Mapper) → sum_by mapper_runs xs ≡ 0 → sum_by (mapper_weight w) xs ≡ 0
unfolding sum_by mapper_runs mapper_weight
mappers_empty w [] h = refl
mappers_empty w (counting ∷ xs) h = absurd (omega arith)
mappers_empty w (sending_map m ∷ xs) h = absurd (omega arith)
mappers_empty w (mapper_done ∷ xs) h = omega (arith, mappers_empty w xs (omega (arith, h)))

pub shufflers_empty :
    (w : Bytes) (xs : List Shuffler)
    → sum_by shuffler_runs xs ≡ 0
    → sum_by (shuffler_weight w) xs ≡ 0
unfolding sum_by shuffler_runs shuffler_weight
shufflers_empty w [] h = refl
shufflers_empty w (waiting ∷ xs) h = absurd (omega arith)
shufflers_empty w (sending_pairs m ∷ xs) h = absurd (omega arith)
shufflers_empty w (leaving ∷ xs) h = absurd (omega arith)
shufflers_empty w (checking ∷ xs) h = absurd (omega arith)
shufflers_empty w (shuffler_done ∷ xs) h = omega (arith, shufflers_empty w xs (omega (arith, h)))

-- What the reducer of a number has counted.
unfoldable pub holds : Bytes → ℕ → List Reducer → ℕ
unfolding frequency_of
holds w r [] = 0
holds w zero (x ∷ xs) = frequency_of w (sub_set x)
holds w (suc r) (x ∷ xs) = holds w r xs

holds-replace :
    (w : Bytes) (r : ℕ) (before : List Reducer) (x y : Reducer) (after : List Reducer)
    → holds w r (before ++ x ∷ after)
        + (if length before == r then frequency_of w (sub_set y) else 0)
      ≡ holds w r (before ++ y ∷ after)
        + (if length before == r then frequency_of w (sub_set x) else 0)
unfolding holds
holds-replace w zero [] x y after = omega arith
holds-replace w (suc r) [] x y after = ground arith
holds-replace w zero (z ∷ before) x y after = ground arith
holds-replace w (suc r) (z ∷ before) x y after = ground (arith, holds-replace w r before x y after)

holds-same :
    (w : Bytes) (r : ℕ) {xs : List Reducer} (before : List Reducer) (x y : Reducer)
    (after : List Reducer)
    → xs ≡ before ++ x ∷ after
    → sub_set x ≡ sub_set y
    → holds w r (before ++ y ∷ after) ≡ holds w r xs
holds-same w r before x y after e same =
    ground (arith, holds-replace w r before x y after, ap (holds w r) e, ap (frequency_of w) same)

holds-launch :
    (w : Bytes) (r : ℕ) (xs : List Reducer) → holds w r (xs ++ reducing [] ∷ []) ≡ holds w r xs
unfolding holds
holds-launch w zero [] = none_yet w
holds-launch w (suc r) [] = refl
holds-launch w zero (x ∷ xs) = refl
holds-launch w (suc r) (x ∷ xs) = holds-launch w r xs

-- A pair that a reducer takes is no longer on its way.
send_pair-holds :
    (w : Bytes) (r : ℕ) {xs : List Reducer} (before after : List Reducer) (m : Frequencies)
    (key : Bytes) (tf : ℕ)
    → xs ≡ before ++ reducing m ∷ after
    → holds w r (before ++ reducing (add_frequency key tf m) ∷ after)
      ≡ holds w r xs + (if length before == r then (if bytes_eq key w then tf else 0) else 0)
send_pair-holds w r before after m key tf e = ground (
  arith,
  holds-replace w r before (reducing m) (reducing (add_frequency key tf m)) after,
  ap (holds w r) e,
  frequency_of-add w key tf m,
)

send_pair-way :
    (w : Bytes) {xs : List Shuffler} (left right : List Shuffler) (key : Bytes) (tf : ℕ)
    (doc : Frequencies)
    → xs ≡ left ++ sending_pairs ((key, tf) ∷ doc) ∷ right
    → sum_by (shuffler_weight w) xs
      ≡ sum_by (shuffler_weight w) (left ++ sending_pairs doc ∷ right)
        + (if bytes_eq key w then tf else 0)
unfolding shuffler_weight weight
send_pair-way w left right key tf doc e =
    omega (arith, sum_by-replace (shuffler_weight w) left _ (sending_pairs doc) right e)

module _ (fnv32a : Bytes → ℕ) (n : ℕ) (docs : List (List Bytes)) where
  -- Of every word the reducer of its hash holds all but what is on its way, and no other holds any.
  pub record IsCounted (s : Network) : Type 0 where
    pub all_there :
        (w : Bytes) (r : ℕ)
        → holds w r s.reducers + (if fnv32a w % n == r then on_its_way w s else 0)
          ≡ (if fnv32a w % n == r then count_in w docs else 0)

  -- A step that leaves a word where it is.
  kept :
      (s : Network) {s' : Network}
      → ((w : Bytes) (r : ℕ) → holds w r s'.reducers ≡ holds w r s.reducers)
      → ((w : Bytes) → on_its_way w s' ≡ on_its_way w s)
      → IsCounted s
      → IsCounted s'
  kept s same way is = record {
    all_there = λ w r. ground (arith, same w r, way w, is.all_there w r);
  }

  hashes_here :
      (w key : Bytes) {k : ℕ} → k ≡ fnv32a key % n → bytes_eq key w ≡ true → k ≡ fnv32a w % n
  hashes_here w key at same = at ∙ ap (λ b. fnv32a b % n) ((bytes_eq_iff key w).0 same)

  Step-IsCounted : {s s' : Network} → Step fnv32a n s s' → IsCounted s → IsCounted s'
  unfolding on_its_way mapper_weight shuffler_weight sum_by count_in
  Step-IsCounted (launch_shuffler s k e) is = kept s (λ w r. refl) (λ w. omega arith) is
  Step-IsCounted (launch_reducer s e more) is =
      kept s (λ w r. holds-launch w r s.reducers) (λ w. refl) is
  Step-IsCounted (count_doc s before after doc more e d) is =
      kept s (λ w r. refl)
        (λ w. omega (
          arith,
          sum_by-replace (mapper_weight w) before counting (sending_map (count_tokens doc [])) after
              e,
          ap (count_in w) d,
          weight-count_tokens w doc [],
          nothing w,
        ))
        is
  Step-IsCounted (close_term_freq s before after e d) is =
      kept s (λ w r. refl)
        (λ w. omega (arith, sum_by-replace (mapper_weight w) before counting mapper_done after e))
        is
  Step-IsCounted (send_map s before after m left right e e' open_) is =
      kept s (λ w r. refl)
        (λ w. omega (
          arith,
          sum_by-replace (mapper_weight w) before (sending_map m) counting after e,
          sum_by-replace (shuffler_weight w) left waiting (sending_pairs m) right e',
        ))
        is
  Step-IsCounted (send_pair s left right key tf doc before after m e e' at) is = record {
    all_there = λ w r. ground (
      arith,
      send_pair-holds w r before after m key tf e',
      send_pair-way w left right key tf doc e,
      hashes_here w key at,
      is.all_there w r,
    );
  }
  Step-IsCounted (end_map s left right e) is =
      kept s (λ w r. refl)
        (λ w. omega (
          arith,
          sum_by-replace (shuffler_weight w) left (sending_pairs []) waiting right e,
          nothing w,
        ))
        is
  Step-IsCounted (leave s left right e shut) is =
      kept s (λ w r. refl)
        (λ w. omega (arith, sum_by-replace (shuffler_weight w) left waiting leaving right e)) is
  Step-IsCounted (take_token s left right k e t) is =
      kept s (λ w r. refl)
        (λ w. omega (arith, sum_by-replace (shuffler_weight w) left leaving checking right e)) is
  Step-IsCounted (check_tokens s left right e) is =
      kept s (λ w r. refl)
        (λ w. omega (arith, sum_by-replace (shuffler_weight w) left checking shuffler_done right e))
        is
  Step-IsCounted (quit_reducing s before after m e q) is =
      kept s (λ w r. holds-same w r before (reducing m) (sending_sizes m) after e refl) (λ w. refl)
        is
  Step-IsCounted (send_sizes s before after m k e c open_) is =
      kept s (λ w r. holds-same w r before (sending_sizes m) (reducer_done m) after e refl)
        (λ w. refl) is
  Step-IsCounted (close_bloom_size_chan s c open_) is = kept s (λ w r. refl) (λ w. refl) is

  start-IsCounted : (workers : ℕ) → IsCounted (start_network workers n docs)
  unfolding start_network on_its_way holds sum_by mapper_weight
  start-IsCounted workers = record { all_there = λ w r. ground (arith, none_sent w workers) }
    where
      none_sent : (w : Bytes) (k : ℕ) → sum_by (mapper_weight w) (replicate k counting) ≡ 0
      none_sent w zero = refl
      none_sent w (suc k) = omega (arith, none_sent w k)

  -- In every state that any number of mappers, shufflers and reducers can reach in any order of their
  -- steps, what the reducer of a word's hash has counted and what is on its way are together as often
  -- as the word stands in all documents, and no other reducer has counted it.
  pub Reach-IsCounted : {workers : ℕ} {s : Network} → Reach fnv32a n workers docs s → IsCounted s
  Reach-IsCounted {workers} start = start-IsCounted workers
  Reach-IsCounted (later r step) = Step-IsCounted step (Reach-IsCounted r)
