-- ===== src/TfCalc/Network.antt =====
-- client_proxy/tf_calc.go: the goroutines of a started calculator and the channels between them. Every
-- goroutine is in a list of its kind, and a step is one of its operations. On an unbuffered channel
-- the sender and the receiver step together. The quit channel is left out, since only Stop closes it
-- and Stop returns at once from a calculator that has been started; so is populateBloomFilters, which
-- uses none of these channels.
pub mod Counts
pub mod Order
pub mod Sizes
pub mod Measure
pub mod Progress
pub mod Ends
pub mod Mappers
use duck_duck_xor.Base.{
  ℕ, suc, ◌+◌, ◌%◌, ◌<◌, ◌≡◌, Bool, true, false, List, [], ◌∷◌, ◌++◌, ◌==◌, if◌then◌else◌, sum_by,
  length, replicate, Bytes,
}
use duck_duck_xor.TfCalc.{
  Frequencies, frequency_of, add_frequency, count_tokens, BucketVals, no_vals, add_vals,
  calculate_bucket_sizes,
}

-- frequencyWorker: at its select, sending the map of a document, and after its loop.
pub data Mapper : Type 0 where
  counting : Mapper
  sending_map : Frequencies → Mapper
  mapper_done : Mapper

-- shuffler: at its select, in the loop over a map with the pairs that are left, behind its loop, with
-- its token taken, and done.
pub data Shuffler : Type 0 where
  waiting : Shuffler
  sending_pairs : Frequencies → Shuffler
  leaving : Shuffler
  checking : Shuffler
  shuffler_done : Shuffler

-- reducer: at its select, sending the sizes of its buckets, and done.
pub data Reducer : Type 0 where
  reducing : Frequencies → Reducer
  sending_sizes : Frequencies → Reducer
  reducer_done : Frequencies → Reducer

abbrev pub sub_set : Reducer → Frequencies
sub_set (reducing m) = m
sub_set (sending_sizes m) = m
sub_set (reducer_done m) = m

-- TermFrequencyCalculator: the documents that docIn still brings before it is closed, whether TermFreq
-- and reducerQuit are closed, how many tokens shufflerChan holds, and the goroutines; of
-- bloomFilterInitializer its sem, its sums and, as the closed bloomSizeChan, whether it has ended.
-- Start has as many shufflers still to launch as `unlaunched` says; bloomFilterInitializer, which it
-- launches last, is there from the beginning.
pub record Network : Type 0 where
  pub doc_in : List (List Bytes)
  pub term_freq_closed : Bool
  pub shuffler_chan : ℕ
  pub reducer_quit_closed : Bool
  pub mappers : List Mapper
  pub unlaunched : ℕ
  pub shufflers : List Shuffler
  pub reducers : List Reducer
  pub sem : ℕ
  pub sizes : BucketVals
  pub bloom_size_chan_closed : Bool

-- Start after initMappers.
unfoldable pub start_network : (num_workers num_reducers : ℕ) → List (List Bytes) → Network
start_network num_workers num_reducers docs = record {
  doc_in = docs;
  term_freq_closed = false;
  shuffler_chan = 0;
  reducer_quit_closed = false;
  mappers = replicate num_workers counting;
  unlaunched = num_reducers;
  shufflers = [];
  reducers = [];
  sem = num_reducers;
  sizes = no_vals;
  bloom_size_chan_closed = false;
}

module _ (fnv32a : Bytes → ℕ) (num_reducers : ℕ) where
  pub data Step : Network → Network → Type 0 where
    -- initShufflers: a token, and the shuffler behind it.
    launch_shuffler :
        (s : Network) (k : ℕ)
        → s.unlaunched ≡ suc k
        → Step s (record s {
          unlaunched = k;
          shuffler_chan = s.shuffler_chan + 1;
          shufflers = waiting ∷ s.shufflers;
        })
    -- initReducers.
    launch_reducer :
        (s : Network)
        → s.unlaunched ≡ 0
        → length s.reducers < num_reducers
        → Step s (record s { reducers = s.reducers ++ reducing [] ∷ [] })
    -- frequencyWorker counts the tokens of a document.
    count_doc :
        (s : Network) (before after : List Mapper) (doc : List Bytes) (docs : List (List Bytes))
        → s.mappers ≡ before ++ counting ∷ after
        → s.doc_in ≡ doc ∷ docs
        → Step s (record s {
          doc_in = docs;
          mappers = before ++ sending_map (count_tokens doc []) ∷ after;
        })
    -- frequencyWorker finds docIn closed, and closes TermFreq if no other has.
    close_term_freq :
        (s : Network) (before after : List Mapper)
        → s.mappers ≡ before ++ counting ∷ after
        → s.doc_in ≡ []
        → Step s (record s { term_freq_closed = true; mappers = before ++ mapper_done ∷ after })
    -- A map goes from frequencyWorker to shuffler.
    send_map :
        (s : Network) (before after : List Mapper) (m : Frequencies) (left right : List Shuffler)
        → s.mappers ≡ before ++ sending_map m ∷ after
        → s.shufflers ≡ left ++ waiting ∷ right
        → s.term_freq_closed ≡ false
        → Step s (record s {
          mappers = before ++ counting ∷ after;
          shufflers = left ++ sending_pairs m ∷ right;
        })
    -- A pair goes from shuffler to the reducer of its hash.
    send_pair :
        (s : Network) (left right : List Shuffler) (key : Bytes) (tf : ℕ) (doc : Frequencies)
        (before after : List Reducer) (m : Frequencies)
        → s.shufflers ≡ left ++ sending_pairs ((key, tf) ∷ doc) ∷ right
        → s.reducers ≡ before ++ reducing m ∷ after
        → length before ≡ fnv32a key % num_reducers
        → Step s (record s {
          shufflers = left ++ sending_pairs doc ∷ right;
          reducers = before ++ reducing (add_frequency key tf m) ∷ after;
        })
    -- shuffler is back at its select.
    end_map :
        (s : Network) (left right : List Shuffler)
        → s.shufflers ≡ left ++ sending_pairs [] ∷ right
        → Step s (record s { shufflers = left ++ waiting ∷ right })
    -- shuffler finds TermFreq closed.
    leave :
        (s : Network) (left right : List Shuffler)
        → s.shufflers ≡ left ++ waiting ∷ right
        → s.term_freq_closed ≡ true
        → Step s (record s { shufflers = left ++ leaving ∷ right })
    -- shuffler takes a token.
    take_token :
        (s : Network) (left right : List Shuffler) (k : ℕ)
        → s.shufflers ≡ left ++ leaving ∷ right
        → s.shuffler_chan ≡ suc k
        → Step s (record s { shuffler_chan = k; shufflers = left ++ checking ∷ right })
    -- shuffler closes reducerQuit if there is no token, and no other has.
    check_tokens :
        (s : Network) (left right : List Shuffler)
        → s.shufflers ≡ left ++ checking ∷ right
        → Step s (record s {
          reducer_quit_closed = if s.shuffler_chan == 0 then true else s.reducer_quit_closed;
          shufflers = left ++ shuffler_done ∷ right;
        })
    -- reducer finds reducerQuit closed.
    quit_reducing :
        (s : Network) (before after : List Reducer) (m : Frequencies)
        → s.reducers ≡ before ++ reducing m ∷ after
        → s.reducer_quit_closed ≡ true
        → Step s (record s { reducers = before ++ sending_sizes m ∷ after })
    -- The sizes of its buckets go from reducer to bloomFilterInitializer.
    send_sizes :
        (s : Network) (before after : List Reducer) (m : Frequencies) (k : ℕ)
        → s.reducers ≡ before ++ sending_sizes m ∷ after
        → s.sem ≡ suc k
        → s.bloom_size_chan_closed ≡ false
        → Step s (record s {
          reducers = before ++ reducer_done m ∷ after;
          sem = k;
          sizes = add_vals s.sizes (calculate_bucket_sizes m no_vals);
        })
    -- bloomFilterInitializer ends its loop.
    close_bloom_size_chan :
        (s : Network)
        → s.sem ≡ 0
        → s.bloom_size_chan_closed ≡ false
        → Step s (record s { bloom_size_chan_closed = true })

  -- The states of the runs.
  pub data Reach (num_workers : ℕ) (docs : List (List Bytes)) : Network → Type 0 where
    start : Reach num_workers docs (start_network num_workers num_reducers docs)
    later : {s s' : Network} → Reach num_workers docs s → Step s s' → Reach num_workers docs s'

-- A send on a closed channel.
pub data Panics (s : Network) : Type 0 where
  closed_term_freq :
      (before after : List Mapper) (m : Frequencies)
      → s.mappers ≡ before ++ sending_map m ∷ after
      → s.term_freq_closed ≡ true
      → Panics s
  closed_bloom_size_chan :
      (before after : List Reducer) (m : Frequencies)
      → s.reducers ≡ before ++ sending_sizes m ∷ after
      → s.bloom_size_chan_closed ≡ true
      → Panics s

-- How many goroutines one of each kind counts as, while it has not ended.
unfoldable pub mapper_runs : Mapper → ℕ
mapper_runs counting = 1
mapper_runs (sending_map m) = 1
mapper_runs mapper_done = 0

unfoldable pub shuffler_runs : Shuffler → ℕ
shuffler_runs waiting = 1
shuffler_runs (sending_pairs m) = 1
shuffler_runs leaving = 1
shuffler_runs checking = 1
shuffler_runs shuffler_done = 0

unfoldable pub reducer_runs : Reducer → ℕ
reducer_runs (reducing m) = 1
reducer_runs (sending_sizes m) = 1
reducer_runs (reducer_done m) = 0

-- Start has launched all of these goroutines, and all have ended.
pub record IsFinished (num_reducers : ℕ) (s : Network) : Type 0 where
  pub no_docs : s.doc_in ≡ []
  pub no_mapper : sum_by mapper_runs s.mappers ≡ 0
  pub launched_shufflers : s.unlaunched ≡ 0
  pub no_shuffler : sum_by shuffler_runs s.shufflers ≡ 0
  pub launched_reducers : length s.reducers ≡ num_reducers
  pub no_reducer : sum_by reducer_runs s.reducers ≡ 0
  pub bloom_ended : s.bloom_size_chan_closed ≡ true
