-- ===== src/TfCalc/Network/Measure.antt =====
-- Every step of a calculator's goroutines makes what is left to do smaller.
use duck_duck_xor.Base.{ℕ, suc, ◌+◌, ◌-◌, ◌*◌, ◌≤◌, ◌<◌, ap}
use duck_duck_xor.Base.{List, [], ◌∷◌, arith}
use duck_duck_xor.Base.{if◌then◌else◌}
use duck_duck_xor.Base.{
  sum_by, sum_by-replace, sum_by-append, length-replace, length, length-append,
}
use duck_duck_xor.Base.{Bytes}
use duck_duck_xor.Base.{insert}
use duck_duck_xor.TfCalc.{Frequencies, frequency_of, add_frequency, count_tokens}
use duck_duck_xor.TfCalc.Network.{
  Mapper, counting, sending_map, mapper_done, Shuffler, waiting, sending_pairs, leaving, checking,
  shuffler_done, Reducer, reducing, sending_sizes, reducer_done, Network, Step, launch_shuffler,
  launch_reducer, count_doc, close_term_freq, send_map, send_pair, end_map, leave, take_token,
  check_tokens, quit_reducing, send_sizes, close_bloom_size_chan,
}

unfoldable doc_left : List Bytes → ℕ
doc_left doc = 3 + length doc

unfoldable mapper_left : Mapper → ℕ
mapper_left counting = 1
mapper_left (sending_map m) = 3 + length m
mapper_left mapper_done = 0

unfoldable shuffler_left : Shuffler → ℕ
shuffler_left waiting = 4
shuffler_left (sending_pairs m) = 5 + length m
shuffler_left leaving = 3
shuffler_left checking = 2
shuffler_left shuffler_done = 0

unfoldable reducer_left : Reducer → ℕ
reducer_left (reducing m) = 2
reducer_left (sending_sizes m) = 1
reducer_left (reducer_done m) = 0

unfoldable pub steps_left : ℕ → Network → ℕ
unfolding doc_left mapper_left shuffler_left reducer_left
steps_left n s =
    sum_by doc_left s.doc_in
    + sum_by mapper_left s.mappers
    + (5 * s.unlaunched + sum_by shuffler_left s.shufflers)
    + (3 * (n - length s.reducers) + sum_by reducer_left s.reducers)
    + (if s.bloom_size_chan_closed then 0 else 1)

length-insert : (key : Bytes) (v : ℕ) (m : Frequencies) → length (insert key v m) ≤ suc (length m)
unfolding insert
length-insert key v [] = omega arith
length-insert key v ((k, u) ∷ m) = ground (arith, length-insert key v m)

length-count_tokens :
    (doc : List Bytes) (m : Frequencies) → length (count_tokens doc m) ≤ length doc + length m
unfolding count_tokens add_frequency
length-count_tokens [] m = omega arith
length-count_tokens (token ∷ doc) m = omega (
  arith,
  length-count_tokens doc (add_frequency token 1 m),
  length-insert token (frequency_of token m + 1) m,
)

module _ (fnv32a : Bytes → ℕ) (n : ℕ) where
  pub Step-steps_left : (s s' : Network) → Step fnv32a n s s' → steps_left n s' < steps_left n s
  unfolding steps_left doc_left mapper_left shuffler_left reducer_left sum_by
  Step-steps_left _ _ (launch_shuffler s k e) = omega (arith, e)
  Step-steps_left _ _ (launch_reducer s e more) = omega (
    arith,
    more,
    length-append s.reducers (reducing [] ∷ []),
    sum_by-append reducer_left s.reducers (reducing [] ∷ []),
  )
  Step-steps_left _ _ (count_doc s before after doc docs e d) = omega (
    arith,
    ap (sum_by doc_left) d,
    length-count_tokens doc [],
    sum_by-replace mapper_left before counting (sending_map (count_tokens doc [])) after e,
  )
  Step-steps_left _ _ (close_term_freq s before after e d) =
      omega (arith, sum_by-replace mapper_left before counting mapper_done after e)
  Step-steps_left _ _ (send_map s before after m left right e e' open_) = omega (
    arith,
    sum_by-replace mapper_left before (sending_map m) counting after e,
    sum_by-replace shuffler_left left waiting (sending_pairs m) right e',
  )
  Step-steps_left _ _ (send_pair s left right key tf doc before after m e e' at) =
      let y = reducing (add_frequency key tf m) in
      omega (
        arith,
        sum_by-replace shuffler_left left (sending_pairs ((key, tf) ∷ doc)) (sending_pairs doc)
            right e,
        length-replace before (reducing m) y after e',
        sum_by-replace reducer_left before (reducing m) y after e',
      )
  Step-steps_left _ _ (end_map s left right e) =
      omega (arith, sum_by-replace shuffler_left left (sending_pairs []) waiting right e)
  Step-steps_left _ _ (leave s left right e shut) =
      omega (arith, sum_by-replace shuffler_left left waiting leaving right e)
  Step-steps_left _ _ (take_token s left right k e t) =
      omega (arith, sum_by-replace shuffler_left left leaving checking right e)
  Step-steps_left _ _ (check_tokens s left right e) =
      omega (arith, sum_by-replace shuffler_left left checking shuffler_done right e)
  Step-steps_left _ _ (quit_reducing s before after m e q) = omega (
    arith,
    length-replace before (reducing m) (sending_sizes m) after e,
    sum_by-replace reducer_left before (reducing m) (sending_sizes m) after e,
  )
  Step-steps_left _ _ (send_sizes s before after m k e c open_) = omega (
    arith,
    length-replace before (sending_sizes m) (reducer_done m) after e,
    sum_by-replace reducer_left before (sending_sizes m) (reducer_done m) after e,
  )
  Step-steps_left _ _ (close_bloom_size_chan s c open_) = ground arith
