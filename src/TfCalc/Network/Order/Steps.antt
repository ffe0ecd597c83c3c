-- ===== src/TfCalc/Network/Order/Steps.antt =====
-- Every step keeps the order in which the channels close.
use duck_duck_xor.Base.{ℕ, refl}
use duck_duck_xor.Base.{List, [], ◌∷◌, arith}
use duck_duck_xor.Base.{◌==◌}
use duck_duck_xor.Base.{
  sum_by, sum_by-replace, sum_by-member, sum_by-append, length-replace, length-append,
}
use duck_duck_xor.Base.{Bytes}
use duck_duck_xor.TfCalc.{add_frequency, count_tokens}
use duck_duck_xor.TfCalc.Network.{
  counting, sending_map, waiting, sending_pairs, leaving, checking, reducing, sending_sizes,
  reducer_done, Network, start_network, Step, launch_shuffler, launch_reducer, count_doc,
  close_term_freq, send_map, send_pair, end_map, leave, take_token, check_tokens, quit_reducing,
  send_sizes, close_bloom_size_chan, Reach, start, later, mapper_runs, reducer_runs,
}
use duck_duck_xor.TfCalc.Network.Order.{
  has_token, has_left, is_sending, is_checking, has_stopped, MappersOf, ShufflersOf, ReducersOf,
  moved, last_token, last_mapper, closed_for_good,
}

module _ (fnv32a : Bytes → ℕ) (n : ℕ) where
  Step-MapperOrder : {s s' : Network} → Step fnv32a n s s' → MappersOf s → MappersOf s'
  unfolding mapper_runs
  Step-MapperOrder (count_doc s before after doc docs e d) is = record {
    one_close = λ h. omega (
      arith,
      is.one_close h,
      sum_by-replace mapper_runs before counting (sending_map (count_tokens doc [])) after e,
    );
    all_mapped = λ h.
        absurd
          (omega (arith, (is.all_mapped h).0, sum_by-member mapper_runs before counting after e));
  }
  Step-MapperOrder (close_term_freq s before after e d) is = record {
    one_close = λ h. absurd (ground arith);
    all_mapped = λ h. (last_mapper is before after e, d);
  }
  Step-MapperOrder (send_map s before after m left right e e' open_) is = record {
    one_close = λ h.
        omega (
          arith,
          is.one_close h,
          sum_by-replace mapper_runs before (sending_map m) counting after e,
        );
    all_mapped = λ h. absurd (ground arith);
  }
  Step-MapperOrder (launch_shuffler s k e) is = is
  Step-MapperOrder (launch_reducer s e more) is = is
  Step-MapperOrder (send_pair s left right key tf doc before after m e e' at) is = is
  Step-MapperOrder (end_map s left right e) is = is
  Step-MapperOrder (leave s left right e shut) is = is
  Step-MapperOrder (take_token s left right k e t) is = is
  Step-MapperOrder (check_tokens s left right e) is = is
  Step-MapperOrder (quit_reducing s before after m e q) is = is
  Step-MapperOrder (send_sizes s before after m k e c open_) is = is
  Step-MapperOrder (close_bloom_size_chan s c open_) is = is

  Step-ReducerOrder : {s s' : Network} → Step fnv32a n s s' → ReducersOf n s → ReducersOf n s'
  unfolding has_stopped reducer_runs sum_by
  Step-ReducerOrder (launch_reducer s e more) is = record {
    few_reducers = omega (arith, more, length-append s.reducers (reducing [] ∷ []));
    stopped_late = λ h.
        is.stopped_late (omega (arith, h, sum_by-append has_stopped s.reducers (reducing [] ∷ [])));
    awaited = omega (
      arith,
      is.awaited,
      length-append s.reducers (reducing [] ∷ []),
      sum_by-append reducer_runs s.reducers (reducing [] ∷ []),
    );
    closed_late = is.closed_late;
  }
  Step-ReducerOrder (send_pair s left right key tf doc before after m e e' at) is =
      let y = reducing (add_frequency key tf m) in
      record {
        few_reducers =
            omega (arith, is.few_reducers, length-replace before (reducing m) y after e');
        stopped_late = λ h.
            is.stopped_late
              (omega (arith, h, sum_by-replace has_stopped before (reducing m) y after e'));
        awaited = omega (
          arith,
          is.awaited,
          length-replace before (reducing m) y after e',
          sum_by-replace reducer_runs before (reducing m) y after e',
        );
        closed_late = is.closed_late;
      }
  Step-ReducerOrder (quit_reducing s before after m e q) is = record {
    few_reducers =
        omega
          (arith, is.few_reducers, length-replace before (reducing m) (sending_sizes m) after e);
    stopped_late = λ h. q;
    awaited = omega (
      arith,
      is.awaited,
      length-replace before (reducing m) (sending_sizes m) after e,
      sum_by-replace reducer_runs before (reducing m) (sending_sizes m) after e,
    );
    closed_late = is.closed_late;
  }
  Step-ReducerOrder (send_sizes s before after m k e c open_) is = record {
    few_reducers =
        omega (
          arith,
          is.few_reducers,
          length-replace before (sending_sizes m) (reducer_done m) after e,
        );
    stopped_late = λ h. is.stopped_late (
        omega
          (arith, h, sum_by-replace has_stopped before (sending_sizes m) (reducer_done m) after e));
    awaited = omega (
      arith,
      is.awaited,
      c,
      length-replace before (sending_sizes m) (reducer_done m) after e,
      sum_by-replace reducer_runs before (sending_sizes m) (reducer_done m) after e,
    );
    closed_late = λ h. absurd (ground arith);
  }
  Step-ReducerOrder (close_bloom_size_chan s c open_) is = record {
    few_reducers = is.few_reducers;
    stopped_late = is.stopped_late;
    awaited = is.awaited;
    closed_late = λ h. c;
  }
  Step-ReducerOrder (check_tokens s left right e) is = record {
    few_reducers = is.few_reducers;
    stopped_late = λ h. closed_for_good (is.stopped_late h) (s.shuffler_chan == 0);
    awaited = is.awaited;
    closed_late = is.closed_late;
  }
  Step-ReducerOrder (launch_shuffler s k e) is = is
  Step-ReducerOrder (count_doc s before after doc docs e d) is = is
  Step-ReducerOrder (close_term_freq s before after e d) is = is
  Step-ReducerOrder (send_map s before after m left right e e' open_) is = is
  Step-ReducerOrder (end_map s left right e) is = is
  Step-ReducerOrder (leave s left right e shut) is = is
  Step-ReducerOrder (take_token s left right k e t) is = is

  Step-ShufflerOrder : {s s' : Network} → Step fnv32a n s s' → ShufflersOf n s → ShufflersOf n s'
  unfolding has_token has_left is_sending is_checking sum_by
  Step-ShufflerOrder (launch_shuffler s k e) is = record {
    all_launched = omega (arith, e, is.all_launched);
    all_tokens = omega (arith, is.all_tokens);
    left_late = λ h. is.left_late (omega (arith, h));
    all_shuffled = λ h. ((is.all_shuffled h).0, omega (arith, (is.all_shuffled h).1));
    quit_in_time = λ h some_. omega arith;
  }
  Step-ShufflerOrder (close_term_freq s before after e d) is = record {
    all_launched = is.all_launched;
    all_tokens = is.all_tokens;
    left_late = λ h. refl;
    all_shuffled = λ h. (refl, (is.all_shuffled h).1);
    quit_in_time = is.quit_in_time;
  }
  Step-ShufflerOrder (send_map s before after m left right e e' open_) is =
      moved is left waiting (sending_pairs m) right e' (omega arith) (λ h. absurd (omega arith))
        (λ q. absurd (ground (arith, (is.all_shuffled q).0, open_))) (omega arith)
  Step-ShufflerOrder (send_pair s left right key tf doc before after m e e' at) is =
      moved is left (sending_pairs ((key, tf) ∷ doc)) (sending_pairs doc) right e (omega arith)
        (λ h. absurd (omega arith)) (λ q. omega arith) (omega arith)
  Step-ShufflerOrder (end_map s left right e) is =
      moved is left (sending_pairs []) waiting right e (omega arith) (λ h. absurd (omega arith))
        (λ q. omega arith) (omega arith)
  Step-ShufflerOrder (leave s left right e shut) is =
      moved is left waiting leaving right e (omega arith) (λ h. shut) (λ q. omega arith)
        (omega arith)
  Step-ShufflerOrder (take_token s left right k e t) is =
      moved is left leaving checking right e (omega (arith, t))
        (λ h. is.left_late (omega (arith, sum_by-member has_left left leaving right e)))
        (λ q. omega arith) (omega arith)
  Step-ShufflerOrder (check_tokens s left right e) is = last_token is left right e
  Step-ShufflerOrder (launch_reducer s e more) is = is
  Step-ShufflerOrder (count_doc s before after doc docs e d) is = is
  Step-ShufflerOrder (quit_reducing s before after m e q) is = is
  Step-ShufflerOrder (send_sizes s before after m k e c open_) is = is
  Step-ShufflerOrder (close_bloom_size_chan s c open_) is = is

  -- Those who start, for one mapper.
  start-MapperOrder : (docs : List (List Bytes)) → MappersOf (start_network 1 n docs)
  unfolding start_network mapper_runs sum_by
  start-MapperOrder docs = record { one_close = λ h. refl; all_mapped = λ h. absurd (ground arith) }

  start-ShufflerOrder :
      (workers : ℕ) (docs : List (List Bytes)) → ShufflersOf n (start_network workers n docs)
  unfolding start_network sum_by
  start-ShufflerOrder workers docs = record {
    all_launched = omega arith;
    all_tokens = refl;
    left_late = λ h. absurd (omega arith);
    all_shuffled = λ h. absurd (ground arith);
    quit_in_time = λ h some_. absurd (omega arith);
  }

  start-ReducerOrder :
      (workers : ℕ) (docs : List (List Bytes)) → ReducersOf n (start_network workers n docs)
  unfolding start_network sum_by
  start-ReducerOrder workers docs = record {
    few_reducers = omega arith;
    stopped_late = λ h. absurd (omega arith);
    awaited = omega arith;
    closed_late = λ h. absurd (ground arith);
  }

  pub Reach-MapperOrder :
      {docs : List (List Bytes)} {s : Network} → Reach fnv32a n 1 docs s → MappersOf s
  Reach-MapperOrder {docs} start = start-MapperOrder docs
  Reach-MapperOrder (later r step) = Step-MapperOrder step (Reach-MapperOrder r)

  pub Reach-ShufflerOrder :
      {workers : ℕ} {docs : List (List Bytes)} {s : Network}
      → Reach fnv32a n workers docs s
      → ShufflersOf n s
  Reach-ShufflerOrder {workers} {docs} start = start-ShufflerOrder workers docs
  Reach-ShufflerOrder (later r step) = Step-ShufflerOrder step (Reach-ShufflerOrder r)

  pub Reach-ReducerOrder :
      {workers : ℕ} {docs : List (List Bytes)} {s : Network}
      → Reach fnv32a n workers docs s
      → ReducersOf n s
  Reach-ReducerOrder {workers} {docs} start = start-ReducerOrder workers docs
  Reach-ReducerOrder (later r step) = Step-ReducerOrder step (Reach-ReducerOrder r)
