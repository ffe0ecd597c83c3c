-- ===== src/TfCalc/Network/Progress.antt =====
-- A calculator with one mapper: no state of its runs panics, and none is stuck before the end.
use duck_duck_xor.Base.{ℕ, ◌-◌, ◌%◌, ◌<◌, ◌≡◌, ◌⊎◌, inl, inr}
use duck_duck_xor.Base.{true, false, List, [], ◌∷◌, ◌++◌, arith}
use duck_duck_xor.Base.{Bool-cases, Nat-cases}
use duck_duck_xor.Base.{sum_by, sum_by-member, sum_by-find, split_at, List-cases, length}
use duck_duck_xor.Base.{Bytes}
use native.Mathlib.Nat.{mod-lt}
use duck_duck_xor.TfCalc.{Frequencies}
use duck_duck_xor.TfCalc.Network.{
  Mapper, counting, sending_map, mapper_done, Shuffler, waiting, sending_pairs, leaving, checking,
  shuffler_done, Reducer, reducing, sending_sizes, reducer_done, Network, Step, launch_shuffler,
  launch_reducer, count_doc, close_term_freq, send_map, send_pair, end_map, leave, take_token,
  check_tokens, quit_reducing, send_sizes, close_bloom_size_chan, Panics, closed_term_freq,
  closed_bloom_size_chan, mapper_runs, shuffler_runs, reducer_runs, IsFinished,
}
use duck_duck_xor.TfCalc.Network.Order.{
  MappersOf, ShufflersOf, ReducersOf, has_token, is_sending, has_stopped, running-has_token,
}

pub no_panic : {n : ℕ} {s : Network} → MappersOf s → ReducersOf n s → ¬ Panics s
unfolding mapper_runs reducer_runs
no_panic ms rs (closed_term_freq before after m e shut) = absurd (
    omega (arith, (ms.all_mapped shut).0, sum_by-member mapper_runs before (sending_map m) after e))
no_panic ms rs (closed_bloom_size_chan before after m e shut) = absurd (
    omega (
      arith,
      rs.closed_late shut,
      rs.few_reducers,
      rs.awaited,
      sum_by-member reducer_runs before (sending_sizes m) after e,
    ))

module _ (fnv32a : Bytes → ℕ) (n : ℕ) where
  abbrev CanStep : Network → Type 0
  CanStep s = (s' : Network) × Step fnv32a n s s'

  -- A live mapper can step, if a shuffler waits.
  mapper-steps :
      (s : Network) (left right : List Shuffler)
      → s.shufflers ≡ left ++ waiting ∷ right
      → s.term_freq_closed ≡ false
      → 0 < sum_by mapper_runs s.mappers
      → CanStep s
  unfolding mapper_runs
  mapper-steps s left right e' open_ live =
      let (before, x, after, e, runs) = sum_by-find mapper_runs s.mappers live in
      by x before after e runs
    where
      by :
          (x : Mapper) (before after : List Mapper)
          → s.mappers ≡ before ++ x ∷ after
          → 0 < mapper_runs x
          → CanStep s
      by counting before after e runs = elim (List-cases s.doc_in) [
        | inl none_ ↦ (_, close_term_freq s before after e none_)
        | inr (doc, docs, d) ↦ (_, count_doc s before after doc docs e d)
      ]
      by (sending_map m) before after e runs = (_, send_map s before after m left right e e' open_)
      by mapper_done before after e runs = absurd (omega arith)

  -- A pair finds its reducer at its select.
  pair-steps :
      (s : Network) (left right : List Shuffler) (key : Bytes) (tf : ℕ) (doc : Frequencies)
      → 0 < n
      → ShufflersOf n s
      → ReducersOf n s
      → length s.reducers ≡ n
      → s.shufflers ≡ left ++ sending_pairs ((key, tf) ∷ doc) ∷ right
      → CanStep s
  unfolding has_stopped is_sending
  pair-steps s left right key tf doc some_ sh rs all_there e =
      let (before, x, after, e', at) =
        split_at s.reducers (fnv32a key % n) (rw all_there (mod-lt (fnv32a key) some_)) in
      by x before after e' at
    where
      busy : 0 < sum_by has_stopped s.reducers → ⊥
      busy stopped = omega (
        arith,
        (sh.all_shuffled (rs.stopped_late stopped)).1,
        sum_by-member is_sending left (sending_pairs ((key, tf) ∷ doc)) right e,
      )

      by :
          (x : Reducer) (before after : List Reducer)
          → s.reducers ≡ before ++ x ∷ after
          → length before ≡ fnv32a key % n
          → CanStep s
      by (reducing m) before after e' at =
          (_, send_pair s left right key tf doc before after m e e' at)
      by (sending_sizes m) before after e' at =
          absurd (busy (omega (arith, sum_by-member has_stopped before (sending_sizes m) after e')))
      by (reducer_done m) before after e' at =
          absurd (busy (omega (arith, sum_by-member has_stopped before (reducer_done m) after e')))

  -- A shuffler that has not ended can step, when all goroutines are launched.
  shuffler-steps :
      (s : Network)
      → 0 < n
      → MappersOf s
      → ShufflersOf n s
      → ReducersOf n s
      → length s.reducers ≡ n
      → 0 < sum_by shuffler_runs s.shufflers
      → CanStep s
  unfolding shuffler_runs has_token
  shuffler-steps s some_ ms sh rs all_there running =
      let (left, x, right, e, runs) = sum_by-find shuffler_runs s.shufflers running in
      by x left right e runs
    where
      by :
          (x : Shuffler) (left right : List Shuffler)
          → s.shufflers ≡ left ++ x ∷ right
          → 0 < shuffler_runs x
          → CanStep s
      by waiting left right e runs = elim (Bool-cases s.term_freq_closed) [
        | inl shut ↦ (_, leave s left right e shut)
        | inr open_ ↦ mapper-steps s left right e open_ (omega (arith, ms.one_close open_))
      ]
      by (sending_pairs []) left right e runs = (_, end_map s left right e)
      by (sending_pairs ((key, tf) ∷ doc)) left right e runs =
          pair-steps s left right key tf doc some_ sh rs all_there e
      by leaving left right e runs =
          let token = sum_by-member has_token left leaving right e in
          (_, take_token s left right (s.shuffler_chan - 1) e (omega (arith, token, sh.all_tokens)))
      by checking left right e runs = (_, check_tokens s left right e)
      by shuffler_done left right e runs = absurd (omega arith)

  -- When all shufflers have ended, so have the mappers, and reducerQuit is closed.
  shuffled :
      (s : Network)
      → 0 < n
      → ShufflersOf n s
      → s.unlaunched ≡ 0
      → sum_by shuffler_runs s.shufflers ≡ 0
      → s.reducer_quit_closed ≡ true
  shuffled s some_ sh launched ended = elim (Bool-cases s.reducer_quit_closed) [
    | inl shut ↦ shut
    | inr open_ ↦ absurd (
        omega (
          arith,
          sh.quit_in_time open_ (omega (arith, some_, launched, sh.all_launched)),
          running-has_token s.shufflers,
          ended,
        ))
  ]

  -- A reducer that has not ended can step, when the shufflers have.
  reducer-steps :
      (s : Network)
      → ReducersOf n s
      → s.reducer_quit_closed ≡ true
      → length s.reducers ≡ n
      → 0 < sum_by reducer_runs s.reducers
      → CanStep s
  unfolding reducer_runs
  reducer-steps s rs quit all_there running =
      let (before, x, after, e, runs) = sum_by-find reducer_runs s.reducers running in
      by x before after e runs
    where
      still_open : s.bloom_size_chan_closed ≡ false
      still_open = elim (Bool-cases s.bloom_size_chan_closed) [
        | inl shut ↦ absurd (omega (arith, rs.closed_late shut, rs.awaited, all_there, running))
        | inr open_ ↦ open_
      ]

      by :
          (x : Reducer) (before after : List Reducer)
          → s.reducers ≡ before ++ x ∷ after
          → 0 < reducer_runs x
          → CanStep s
      by (reducing m) before after e runs = (_, quit_reducing s before after m e quit)
      by (sending_sizes m) before after e runs = (
        _,
        send_sizes s before after m (s.sem - 1) e (omega (arith, rs.awaited, all_there, running))
            still_open,
      )
      by (reducer_done m) before after e runs = absurd (omega arith)

  -- A state of a run is not stuck before the end.
  pub progress :
      (s : Network)
      → 0 < n
      → MappersOf s
      → ShufflersOf n s
      → ReducersOf n s
      → CanStep s ⊎ IsFinished n s
  progress s some_ ms sh rs = elim (Nat-cases s.unlaunched) [
    | inr more ↦ inl (_, launch_shuffler s (s.unlaunched - 1) (omega (arith, more)))
    | inl launched ↦ elim (Nat-cases (n - length s.reducers)) [
      | inr more ↦ inl (_, launch_reducer s launched (omega (arith, more)))
      | inl full ↦ rest launched (omega (arith, full, rs.few_reducers))
    ]
  ]
    where
      rest : s.unlaunched ≡ 0 → length s.reducers ≡ n → CanStep s ⊎ IsFinished n s
      rest launched all_there = elim (Nat-cases (sum_by shuffler_runs s.shufflers)) [
        | inr running ↦ inl (shuffler-steps s some_ ms sh rs all_there running)
        | inl ended ↦
            let quit = shuffled s some_ sh launched ended in
            elim (Nat-cases (sum_by reducer_runs s.reducers)) [
              | inr running ↦ inl (reducer-steps s rs quit all_there running)
              | inl none_ ↦ elim (Bool-cases s.bloom_size_chan_closed) [
                | inr open_ ↦
                    inl (
                      _,
                      close_bloom_size_chan s (omega (arith, rs.awaited, all_there, none_)) open_,
                    )
                | inl shut ↦
                    let mapped = ms.all_mapped (sh.all_shuffled quit).0 in
                    inr (record {
                      no_docs = mapped.1;
                      no_mapper = mapped.0;
                      launched_shufflers = launched;
                      no_shuffler = ended;
                      launched_reducers = all_there;
                      no_reducer = none_;
                      bloom_ended = shut;
                    })
              ]
            ]
      ]
