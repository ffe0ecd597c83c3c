-- ===== src/Lifecycle/Index.antt =====
-- The Start functions of the client's components, and Index, which calls them.
use duck_duck_xor.Base.{ℕ}
use duck_duck_xor.Base.{Bool, List, [], ◌∷◌}
use duck_duck_xor.Base.{if◌then◌else◌}
use duck_duck_xor.Lifecycle.{
  Part, corpus_reader, doc_preprocessor, bloom_master, key_manager, tf_calc, doc_streamer,
  index_generator, janitor_wg, wg, go_directory_walker, go_document_reader, go_partition_streams,
  go_x_filter_uploader, go_bloom_worker, go_freq_bloom_saver, go_query_handler, go_request_handler,
  go_frequency_worker, go_shuffler, go_reducer, go_populate_bloom_filters,
  go_bloom_filter_initializer, go_doc_encrypter, go_doc_uploader, go_chan_splitter, go_x_set_worker,
  go_t_set_worker, go_bloom_streamer, go_t_set_janitor, go_key_word_summer, Process, new_process,
  add, add_to_wg, launch, times, once,
}

-- CorpusReader.Start.
unfoldable pub start_corpus_reader : Process → Process
start_corpus_reader =
    once corpus_reader
      (λ p. launch go_document_reader (launch go_directory_walker (add (wg corpus_reader) 2 p)))

-- DocPreprocessor.Start.
unfoldable pub start_doc_preprocessor : Process → Process
start_doc_preprocessor =
    once doc_preprocessor (λ p. launch go_partition_streams (add (wg doc_preprocessor) 1 p))

-- KeyManager.Start.
unfoldable pub start_key_manager : Process → Process
start_key_manager = once key_manager (λ p. launch go_request_handler (add (wg key_manager) 1 p))

-- The goroutines of bloomMaster.Start for a first time.
unfoldable pub start_first_time : ℕ → Process → Process
start_first_time num_workers p =
    let p1 = launch go_x_filter_uploader (add_to_wg (wg bloom_master) 1 p) in
    let p2 = times num_workers (λ q. launch go_bloom_worker (add (wg bloom_master) 1 q)) p1 in
    launch go_freq_bloom_saver (add_to_wg (wg bloom_master) 1 p2)

-- bloomMaster.Start, if the filters of a later time are loaded without an error.
unfoldable pub start_bloom_master : Bool → ℕ → Process → Process
start_bloom_master is_first_time num_workers = once bloom_master (λ p.
    launch go_query_handler
      (add (wg bloom_master) 1 (if is_first_time then start_first_time num_workers p else p)))

-- initMappers.
unfoldable pub init_mappers : ℕ → Process → Process
init_mappers num_workers =
    times num_workers (λ p. launch go_frequency_worker (add_to_wg (wg tf_calc) 1 p))

-- initShufflers.
unfoldable pub init_shufflers : ℕ → Process → Process
init_shufflers num_reducers =
    times num_reducers (λ p. launch go_shuffler (add_to_wg (wg tf_calc) 1 p))

-- initReducers.
unfoldable pub init_reducers : ℕ → Process → Process
init_reducers num_reducers =
    times num_reducers (λ p. launch go_reducer (add_to_wg (wg tf_calc) 1 p))

-- TermFrequencyCalculator.Start, with its 26 reducers.
unfoldable pub start_tf_calc : ℕ → Process → Process
unfolding init_mappers init_shufflers init_reducers
start_tf_calc num_workers = once tf_calc (λ p.
    let p' = init_reducers 26 (init_shufflers 26 (init_mappers num_workers p)) in
    launch go_bloom_filter_initializer
      (launch go_populate_bloom_filters (add_to_wg (wg tf_calc) 2 p')))

-- EncryptedDocStreamer.Start.
unfoldable pub start_doc_streamer : ℕ → Process → Process
start_doc_streamer num_workers = once doc_streamer (λ p. launch go_doc_uploader (
    add (wg doc_streamer) 1
      (times num_workers (λ q. launch go_doc_encrypter (add (wg doc_streamer) 1 q)) p)))

-- One round of the second loop of EncryptedIndexGenerator.Start.
unfoldable pub start_t_set_worker : Process → Process
start_t_set_worker p =
    launch go_t_set_worker (add_to_wg janitor_wg 1 (add_to_wg (wg index_generator) 1 p))

-- EncryptedIndexGenerator.Start; chanSplitter starts a goroutine too.
unfoldable pub start_index_generator : ℕ → Process → Process
start_index_generator num_workers = once index_generator (λ p.
    let p1 = launch go_chan_splitter (add_to_wg (wg index_generator) 1 p) in
    let p2 =
      times num_workers (λ q. launch go_x_set_worker (add_to_wg (wg index_generator) 1 q)) p1 in
    let p3 = times num_workers start_t_set_worker p2 in
    let p4 = launch go_bloom_streamer (add_to_wg (wg index_generator) 1 p3) in
    launch go_t_set_janitor (add_to_wg (wg index_generator) 1 p4))

-- Start of a component.
unfoldable pub start : Bool → ℕ → Part → Process → Process
start is_first_time num_workers corpus_reader p = start_corpus_reader p
start is_first_time num_workers doc_preprocessor p = start_doc_preprocessor p
start is_first_time num_workers bloom_master p = start_bloom_master is_first_time num_workers p
start is_first_time num_workers key_manager p = start_key_manager p
start is_first_time num_workers tf_calc p = start_tf_calc num_workers p
start is_first_time num_workers doc_streamer p = start_doc_streamer num_workers p
start is_first_time num_workers index_generator p = start_index_generator num_workers p

-- The starts of a sequence of components.
unfoldable pub start_each : Bool → ℕ → List Part → Process → Process
start_each is_first_time num_workers [] p = p
start_each is_first_time num_workers (part ∷ parts) p =
    start_each is_first_time num_workers parts (start is_first_time num_workers part p)

-- Index up to its Wait: the components in order, and totalKeyWordSummer behind the key manager.
unfoldable pub index : Bool → ℕ → Process
unfolding start_each
index is_first_time num_workers =
    let p =
      launch go_key_word_summer
        (start_each is_first_time num_workers (key_manager ∷ []) new_process) in
    start_each is_first_time num_workers
      (corpus_reader ∷ doc_preprocessor ∷ bloom_master ∷ tf_calc ∷ doc_streamer ∷ index_generator
        ∷ [])
      p
