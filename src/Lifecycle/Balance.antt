-- ===== src/Lifecycle/Balance.antt =====
-- The WaitGroups against the goroutines that still run.
use duck_duck_xor.Base.{ℕ, zero, suc, ◌+◌, ◌≡◌, refl, inl, inr}
use duck_duck_xor.Base.{Bool, true, false, List, [], ◌∷◌, arith}
use duck_duck_xor.Base.{◌==◌, if◌then◌else◌, Bool-cases}
use duck_duck_xor.Base.{u32}
use duck_duck_xor.Lifecycle.{
  Part, corpus_reader, doc_preprocessor, bloom_master, key_manager, tf_calc, doc_streamer,
  index_generator, part_number, Group, main_wg, wg, same_group, Goroutine, go_partition_streams,
  go_x_filter_uploader, go_bloom_worker, go_freq_bloom_saver, go_query_handler, go_request_handler,
  go_frequency_worker, go_shuffler, go_reducer, go_doc_encrypter, go_doc_uploader, go_chan_splitter,
  go_x_set_worker, go_bloom_streamer, go_t_set_janitor, Process, dones, add, add_to_wg, launch,
  times, once,
}
use duck_duck_xor.Lifecycle.Index.{
  start_corpus_reader, start_doc_preprocessor, start_key_manager, start_first_time,
  start_bloom_master, init_mappers, init_shufflers, init_reducers, start_tf_calc,
  start_doc_streamer, start_t_set_worker, start_index_generator, start, start_each,
}

-- How often a group stands in a list of calls of Done.
unfoldable pub count : Group → List Group → ℕ
count h [] = 0
count h (g ∷ gs) = (if same_group g h then 1 else 0) + count h gs

-- How often the goroutines will call Done of a group.
unfoldable pub total : Group → List Goroutine → ℕ
unfolding count
total h [] = 0
total h (g ∷ gs) = count h (dones g) + total h gs

-- `d` for mainWg, and 0 for the others.
abbrev pub debt : ℕ → Group → ℕ
debt d h = if same_group main_wg h then d else 0

-- Each WaitGroup counts the calls of Done that are to come, but mainWg counts `d` too few.
abbrev pub IsBalanced : ℕ → Process → Type 0
IsBalanced d p = (h : Group) → total h p.goroutines ≡ p.groups h + debt d h

module _ (d : ℕ) where
  times-IsBalanced :
      (n : ℕ) (body : Process → Process) (p : Process)
      → ((q : Process) → IsBalanced d q → IsBalanced d (body q))
      → IsBalanced d p
      → IsBalanced d (times n body p)
  unfolding times
  times-IsBalanced zero body p keeps b = b
  times-IsBalanced (suc n) body p keeps b = times-IsBalanced n body (body p) keeps (keeps p b)

  once-IsBalanced :
      (part : Part) (rest : Process → Process) (p : Process)
      → ((q : Process) → IsBalanced d q → IsBalanced d (rest q))
      → IsBalanced d p
      → IsBalanced d (once part rest p)
  unfolding once total
  once-IsBalanced part rest p keeps b =
      let count : ℕ = u32 (p.started part + 1) in
      let p' : Process = record p {
        started = λ q. if part_number part == part_number q then count else p.started q;
      } in
      elim (Bool-cases (count == 1)) [
        | inl first ↦ (rw (once, first) (keeps p' b))
        | inr again ↦ (rw (once, again) b)
      ]

  -- A goroutine that is counted by the group of its component.
  local-IsBalanced :
      (part : Part) (g : Goroutine) (p : Process)
      → dones g ≡ wg part ∷ []
      → IsBalanced d p
      → IsBalanced d (launch g (add (wg part) 1 p))
  unfolding total count add
  local-IsBalanced part g p e b h = rw e (ground (arith, b h))

  -- A goroutine that is counted by mainWg too.
  shared-IsBalanced :
      (part : Part) (g : Goroutine) (p : Process)
      → dones g ≡ wg part ∷ main_wg ∷ []
      → IsBalanced d p
      → IsBalanced d (launch g (add_to_wg (wg part) 1 p))
  unfolding total count add add_to_wg
  shared-IsBalanced part g p e b h = rw e (ground (arith, b h))

  start_first_time-IsBalanced :
      (n : ℕ) (p : Process) → IsBalanced d p → IsBalanced d (start_first_time n p)
  unfolding start_first_time dones
  start_first_time-IsBalanced n p b = shared-IsBalanced bloom_master go_freq_bloom_saver _ refl (
      times-IsBalanced n _ _ (λ q. local-IsBalanced bloom_master go_bloom_worker q refl)
        (shared-IsBalanced bloom_master go_x_filter_uploader p refl b))

  start_t_set_worker-IsBalanced :
      (p : Process) → IsBalanced d p → IsBalanced d (start_t_set_worker p)
  unfolding start_t_set_worker dones total count add add_to_wg
  start_t_set_worker-IsBalanced p b h = ground (arith, b h)

  start_tf_calc-IsBalanced :
      (n : ℕ) (p : Process) → IsBalanced d p → IsBalanced d (start_tf_calc n p)
  unfolding start_tf_calc init_mappers init_shufflers init_reducers dones
  start_tf_calc-IsBalanced n p b =
      once-IsBalanced tf_calc _ p
        (λ q b' h.
          let b1 : IsBalanced d (init_mappers n q) =
            times-IsBalanced n _ q (λ r. shared-IsBalanced tf_calc go_frequency_worker r refl) b' in
          let b2 : IsBalanced d (init_shufflers 26 (init_mappers n q)) =
            times-IsBalanced 26 _ _ (λ r. shared-IsBalanced tf_calc go_shuffler r refl) b1 in
          let b3 : IsBalanced d (init_reducers 26 (init_shufflers 26 (init_mappers n q))) =
            times-IsBalanced 26 _ _ (λ r. shared-IsBalanced tf_calc go_reducer r refl) b2 in
          unfold total count add add_to_wg in ground (arith, b3 h))
        b

  start_index_generator-IsBalanced :
      (n : ℕ) (p : Process) → IsBalanced d p → IsBalanced d (start_index_generator n p)
  unfolding start_index_generator dones
  start_index_generator-IsBalanced n p b =
      once-IsBalanced index_generator _ p
        (λ q b'. shared-IsBalanced index_generator go_t_set_janitor _ refl (
          shared-IsBalanced index_generator go_bloom_streamer _ refl (
            times-IsBalanced n _ _ start_t_set_worker-IsBalanced (
              times-IsBalanced n _ _ (λ r. shared-IsBalanced index_generator go_x_set_worker r refl)
                (shared-IsBalanced index_generator go_chan_splitter q refl b')))))
        b

  -- What the start of a component adds to the WaitGroups is what its goroutines will count down.
  pub start-IsBalanced :
      (first : Bool) (n : ℕ) (part : Part) (p : Process)
      → IsBalanced d p
      → IsBalanced d (start first n part p)
  unfolding start start_corpus_reader start_doc_preprocessor start_bloom_master start_key_manager
      start_doc_streamer dones
  start-IsBalanced first n corpus_reader p b =
      once-IsBalanced corpus_reader _ p (λ q b' h. unfold total count add in ground (arith, b' h)) b
  start-IsBalanced first n doc_preprocessor p b =
      once-IsBalanced doc_preprocessor _ p
        (λ q. local-IsBalanced doc_preprocessor go_partition_streams q refl) b
  start-IsBalanced first n key_manager p b =
      once-IsBalanced key_manager _ p (λ q. local-IsBalanced key_manager go_request_handler q refl)
        b
  start-IsBalanced true n bloom_master p b =
      once-IsBalanced bloom_master _ p
        (λ q b'.
          local-IsBalanced bloom_master go_query_handler _ refl
            (start_first_time-IsBalanced n q b'))
        b
  start-IsBalanced false n bloom_master p b =
      once-IsBalanced bloom_master _ p (λ q. local-IsBalanced bloom_master go_query_handler q refl)
        b
  start-IsBalanced first n tf_calc p b = start_tf_calc-IsBalanced n p b
  start-IsBalanced first n doc_streamer p b =
      once-IsBalanced doc_streamer _ p
        (λ q b'.
          local-IsBalanced doc_streamer go_doc_uploader _ refl (
            times-IsBalanced n _ q (λ r. local-IsBalanced doc_streamer go_doc_encrypter r refl) b'))
        b
  start-IsBalanced first n index_generator p b = start_index_generator-IsBalanced n p b

  pub start_each-IsBalanced :
      (first : Bool) (n : ℕ) (parts : List Part) (p : Process)
      → IsBalanced d p
      → IsBalanced d (start_each first n parts p)
  unfolding start_each
  start_each-IsBalanced first n [] p b = b
  start_each-IsBalanced first n (part ∷ parts) p b =
      start_each-IsBalanced first n parts _ (start-IsBalanced first n part p b)
