-- ===== src/Lifecycle.antt =====
-- The goroutines of the client and the WaitGroups that count them: the Start functions of the
-- components, AddToWg and WgDone, and Index of client_proxy/index.go.
pub mod Index
pub mod Balance
pub mod Wait
pub mod Guards
use duck_duck_xor.Base.{
  ℕ, zero, suc, ◌+◌, ◌-◌, Bool, List, [], ◌∷◌, ◌++◌, ◌==◌, if◌then◌else◌, u32, Outcome, done, panic,
  ◌>>=◌,
}

-- The components of client_proxy that have goroutines.
pub data Part : Type 0 where
  corpus_reader doc_preprocessor bloom_master key_manager tf_calc doc_streamer index_generator :
      Part

unfoldable pub part_number : Part → ℕ
part_number corpus_reader = 0
part_number doc_preprocessor = 1
part_number bloom_master = 2
part_number key_manager = 3
part_number tf_calc = 4
part_number doc_streamer = 5
part_number index_generator = 6

-- The WaitGroups: mainWg, which the components share, janitorWG, and the wg of each component.
pub data Group : Type 0 where
  main_wg janitor_wg : Group
  wg : Part → Group

unfoldable pub group_number : Group → ℕ
unfolding part_number
group_number main_wg = 0
group_number janitor_wg = 1
group_number (wg p) = suc (suc (part_number p))

abbrev pub same_group : Group → Group → Bool
same_group a b = group_number a == group_number b

-- The functions that are started by a `go` statement and that call Done when they end.
pub data Goroutine : Type 0 where
  go_directory_walker go_document_reader go_partition_streams go_x_filter_uploader : Goroutine
  go_bloom_worker go_freq_bloom_saver go_query_handler go_request_handler : Goroutine
  go_frequency_worker go_shuffler go_reducer go_populate_bloom_filters : Goroutine
  go_bloom_filter_initializer go_doc_encrypter go_doc_uploader go_chan_splitter : Goroutine
  go_x_set_worker go_t_set_worker go_bloom_streamer go_t_set_janitor : Goroutine
  go_key_word_summer : Goroutine

-- What WgDone counts down, in this order.
abbrev pub wg_done : Group → List Group
wg_done local = local ∷ main_wg ∷ []

-- The calls of Done with which each function ends, in this order.
unfoldable pub dones : Goroutine → List Group
dones go_directory_walker = wg corpus_reader ∷ []
dones go_document_reader = wg corpus_reader ∷ []
dones go_partition_streams = wg doc_preprocessor ∷ []
dones go_x_filter_uploader = wg_done (wg bloom_master)
dones go_bloom_worker = wg bloom_master ∷ []
dones go_freq_bloom_saver = wg_done (wg bloom_master)
dones go_query_handler = wg bloom_master ∷ []
dones go_request_handler = wg key_manager ∷ []
dones go_frequency_worker = wg_done (wg tf_calc)
dones go_shuffler = wg_done (wg tf_calc)
dones go_reducer = wg_done (wg tf_calc)
dones go_populate_bloom_filters = wg_done (wg tf_calc)
dones go_bloom_filter_initializer = wg_done (wg tf_calc)
dones go_doc_encrypter = wg doc_streamer ∷ []
dones go_doc_uploader = wg doc_streamer ∷ []
dones go_chan_splitter = wg_done (wg index_generator)
dones go_x_set_worker = wg_done (wg index_generator)
dones go_t_set_worker = wg_done janitor_wg ++ wg_done (wg index_generator)
dones go_bloom_streamer = wg_done (wg index_generator)
dones go_t_set_janitor = wg_done (wg index_generator)
dones go_key_word_summer = main_wg ∷ []

-- The counters `started` of the components, the WaitGroups, and the goroutines that run.
pub record Process : Type 0 where
  pub started : Part → ℕ
  pub groups : Group → ℕ
  pub goroutines : List Goroutine

abbrev pub new_process : Process
new_process = record { started = λ p. 0; groups = λ g. 0; goroutines = [] }

-- WaitGroup.Add.
unfoldable pub add : Group → ℕ → Process → Process
add g n p = record p { groups = λ h. if same_group g h then p.groups h + n else p.groups h }

-- AddToWg.
unfoldable pub add_to_wg : Group → ℕ → Process → Process
unfolding add
add_to_wg local n p = add main_wg n (add local n p)

-- The `go` statement.
abbrev pub launch : Goroutine → Process → Process
launch g p = record p { goroutines = g ∷ p.goroutines }

-- A counted loop.
unfoldable pub times : ℕ → (Process → Process) → Process → Process
times zero body p = p
times (suc n) body p = times n body (body p)

-- `atomic.AddInt32(&started, 1) != 1`: the rest runs if the new value is 1.
unfoldable pub once : Part → (Process → Process) → Process → Process
once part rest p =
    let count = u32 (p.started part + 1) in
    let p' = record p {
      started = λ q. if part_number part == part_number q then count else p.started q;
    } in
    if count == 1 then rest p' else p'

-- WaitGroup.Done: it panics below zero.
unfoldable pub done_one : Group → Process → Outcome Process
done_one g p =
    if p.groups g == 0
    then panic
    else done (record p { groups = λ h. if same_group g h then p.groups h - 1 else p.groups h })

-- The end of a function that has been started.
unfoldable pub run_dones : List Group → Process → Outcome Process
unfolding done_one
run_dones [] p = done p
run_dones (g ∷ gs) p = do p' ← done_one g p; run_dones gs p'
