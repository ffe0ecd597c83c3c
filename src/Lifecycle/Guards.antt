-- ===== src/Lifecycle/Guards.antt =====
-- The guards of Start and Stop: `atomic.AddInt32(&flag, 1) != 1` and what stands behind it.
pub mod Calls
use duck_duck_xor.Base.{
  ℕ, ◌+◌, Bool, false, List, [], ◌∷◌, ◌==◌, if◌then◌else◌, u32, Outcome, done, ◌>>=◌,
}
use duck_duck_xor.Bloom.{close_chan}
use duck_duck_xor.Lifecycle.{
  Part, corpus_reader, doc_preprocessor, bloom_master, key_manager, tf_calc, doc_streamer,
  index_generator,
}

-- The components of both programs.
pub data Service : Type 0 where
  client : Part → Service
  document_database index_searcher : Service

-- The two counters of a component, whether its quit channel is closed, and how often the rest of its
-- Start has run, which launches the goroutines.
pub record Flags : Type 0 where
  pub started : ℕ
  pub shutdown : ℕ
  pub quit : Bool
  pub launched : ℕ

abbrev pub new_flags : Flags
new_flags = record { started = 0; shutdown = 0; quit = false; launched = 0 }

-- Start.
unfoldable pub start_flags : Flags → Flags
start_flags f =
    let count = u32 (f.started + 1) in
    record f { started = count; launched = if count == 1 then f.launched + 1 else f.launched }

-- A Stop that counts on `shutdown`, up to its Wait.
unfoldable pub stop_once : Flags → Outcome Flags
unfolding close_chan
stop_once f =
    let count = u32 (f.shutdown + 1) in
    let close_quit : Outcome Flags =
      (close_chan f.quit >>= λ closed. done (record f { shutdown = count; quit = closed })) in
    if count == 1 then close_quit else done (record f { shutdown = count })

-- A Stop that counts on `started`, as Start does.
unfoldable pub stop_on_started : Flags → Outcome Flags
unfolding close_chan
stop_on_started f =
    let count = u32 (f.started + 1) in
    let close_quit : Outcome Flags =
      (close_chan f.quit >>= λ closed. done (record f { started = count; quit = closed })) in
    if count == 1 then close_quit else done (record f { started = count })

-- CorpusReader.Stop.
abbrev pub stop_corpus_reader : Flags → Outcome Flags
stop_corpus_reader = stop_on_started

-- DocPreprocessor.Stop.
abbrev pub stop_doc_preprocessor : Flags → Outcome Flags
stop_doc_preprocessor = stop_once

-- bloomMaster.Stop.
abbrev pub stop_bloom_master : Flags → Outcome Flags
stop_bloom_master = stop_once

-- KeyManager.Stop.
abbrev pub stop_key_manager : Flags → Outcome Flags
stop_key_manager = stop_once

-- TermFrequencyCalculator.Stop.
abbrev pub stop_tf_calc : Flags → Outcome Flags
stop_tf_calc = stop_on_started

-- EncryptedDocStreamer.Stop.
abbrev pub stop_doc_streamer : Flags → Outcome Flags
stop_doc_streamer = stop_once

-- EncryptedIndexGenerator.Stop.
abbrev pub stop_index_generator : Flags → Outcome Flags
stop_index_generator = stop_once

-- documentDatabase.Stop.
abbrev pub stop_document_database : Flags → Outcome Flags
stop_document_database = stop_once

-- encryptedIndexSearcher.Stop.
abbrev pub stop_index_searcher : Flags → Outcome Flags
stop_index_searcher = stop_once

-- Stop of a component.
unfoldable pub stop : Service → Flags → Outcome Flags
stop (client corpus_reader) f = stop_corpus_reader f
stop (client doc_preprocessor) f = stop_doc_preprocessor f
stop (client bloom_master) f = stop_bloom_master f
stop (client key_manager) f = stop_key_manager f
stop (client tf_calc) f = stop_tf_calc f
stop (client doc_streamer) f = stop_doc_streamer f
stop (client index_generator) f = stop_index_generator f
stop document_database f = stop_document_database f
stop index_searcher f = stop_index_searcher f

pub data Call : Type 0 where
  call_start call_stop : Call

-- A sequence of calls on one component.
unfoldable pub run_calls : Service → List Call → Flags → Outcome Flags
run_calls part [] f = done f
run_calls part (call_start ∷ cs) f = run_calls part cs (start_flags f)
run_calls part (call_stop ∷ cs) f = do f' ← stop part f; run_calls part cs f'
