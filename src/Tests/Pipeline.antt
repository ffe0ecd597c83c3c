-- ===== src/Tests/Pipeline.antt =====
-- The index and the documents from the client to the store.
use duck_duck_xor.Base.{ℕ, ◌≡◌, refl}
use duck_duck_xor.Base.{Option, some, List, [], ◌∷◌, ◌++◌, map, arith}
use duck_duck_xor.Base.{Bytes, bytes_eq, be32}
use duck_duck_xor.Base.{done, lookup, insert, Inevitably, true, false}
use duck_duck_xor.Bolt.Toy.{empty, toy_bolt}
use duck_duck_xor.Crypto.Toy.{stretch, digest}
use duck_duck_xor.Keys.{s_tag_key, key_at}
use duck_duck_xor.Preprocess.{InvIndexDocument}
use duck_duck_xor.EncIndex.Counter.{new_word_index_counter, read_then_increment}
use duck_duck_xor.EncIndex.Tuple.{TsetFragment}
use duck_duck_xor.EncIndex.TsetWorker.{State, t_set_worker, t_set_janitor}
use duck_duck_xor.EncIndex.TsetWorker.Places.{AllStored}
use duck_duck_xor.EncIndex.TsetWorker.Reference.{reference_slot, reference_places}
use duck_duck_xor.Client.{encrypt_query}
use duck_duck_xor.Pipeline.Query.{encrypt_query-AllStored}
use duck_duck_xor.Searcher.{t_set_bucket_key, t_set_writer}
use duck_duck_xor.Searcher.Writer.{IsTset}
use duck_duck_xor.Server.{message, eof, upload_t_set}
use duck_duck_xor.CorpusReader.{Visit, document_reader, directory_walker}
use duck_duck_xor.CorpusReader.Network
use duck_duck_xor.CorpusReader.Network.{start_walk}
use duck_duck_xor.CorpusReader.Network.Files.{all_readable}
use duck_duck_xor.ErrorHandler.{new_error_handler, collect_stop_funcs}
use duck_duck_xor.EncIndex.TsetWorker.Places.{places, document_places, all_calls}
use duck_duck_xor.EncIndex.TsetWorker.Janitor.{end_place}
use duck_duck_xor.EncIndex.Counter.History.{run, occurrences}
use duck_duck_xor.Pipeline.Index.{AllApart, AllHeld, index_places, taken, same_slot, index-AllHeld}
use duck_duck_xor.Pipeline.Documents.{AllEncrypt}
use duck_duck_xor.Pipeline.Walk.{Streams, start_walk-Streams}
use duck_duck_xor.Tests.Data.{
  key7, keys7, keys7-KeysFit, odd, odd-Invertible, both_words, one_word, duck, xor, secret, ascii,
}

abbrev two_docs : List InvIndexDocument
two_docs = both_words ∷ []

empty-IsTset : IsTset toy_bolt empty
empty-IsTset = record {
  root_free = refl;
  no_values = λ k. refl;
  no_buckets = λ b l. refl;
  one_byte = λ b h. absurd (ground arith);
}

apart : AllApart odd (index_places odd (key_at keys7 s_tag_key) two_docs)
unfolding index_places places document_places all_calls run taken same_slot bytes_eq stretch digest
    key_at end_place be32 occurrences read_then_increment insert lookup new_word_index_counter
apart = (refl, (refl, (refl, (refl, tt))))

index-AllHeld_example :
    (s : State) × (last : List TsetFragment) × (t_set_worker odd 2 keys7 new_word_index_counter
        two_docs
      ≡ done s)
    × (t_set_janitor odd 2 keys7 s.counter ≡ done last)
    × (upload_t_set (map message s.sent ++ eof ∷ []) [] ≡ done s.sent)
    × (upload_t_set (map message last ++ eof ∷ []) s.sent ≡ done (s.sent ++ last))
    × IsTset toy_bolt (t_set_writer toy_bolt (s.sent ++ last) empty)
    × AllHeld odd
        (λ b l.
          toy_bolt.get (t_set_writer toy_bolt (s.sent ++ last) empty) (t_set_bucket_key ∷ b ∷ []) l)
        (index_places odd (key_at keys7 s_tag_key) two_docs)
index-AllHeld_example =
    index-AllHeld odd toy_bolt 2 keys7 two_docs empty keys7-KeysFit (odd-Invertible _) empty-IsTset
      apart

-- Documents of one word each, with the first word twice.
abbrev single_docs : List InvIndexDocument
single_docs =
    one_word
    ∷ record { words = xor ∷ []; doc_id = 3 }
    ∷ record { words = duck ∷ []; doc_id = 4 }
    ∷ []

encrypt_query-AllStored_example :
    (s : State) × (t_set_worker odd 2 keys7 new_word_index_counter single_docs ≡ done s)
    × AllStored odd (reference_places odd (key_at keys7 s_tag_key) [] single_docs) s.sent
    × ((seen : List InvIndexDocument) (doc_id : ℕ) (word : Bytes)
        → encrypt_query odd keys7 word
          ≡ done (reference_slot odd (key_at keys7 s_tag_key) seen doc_id word).stag)
encrypt_query-AllStored_example =
    encrypt_query-AllStored odd 2 keys7 key7 single_docs keys7-KeysFit refl (odd-Invertible _)
      (omega arith, (omega arith, (omega arith, tt)))

-- Two files, whose contents are their paths.
abbrev paths : List Bytes
paths = duck ∷ xor ∷ []

abbrev open_file : Bytes → Option Bytes
open_file path = some path

encrypted : AllEncrypt secret 0 (document_reader open_file 0 paths)
unfolding document_reader
encrypted = (
  record { text = _; encrypts = refl; sound = refl },
  (record { text = _; encrypts = refl; sound = refl }, tt),
)

-- A directory with the two files.
abbrev visits : List Visit
visits =
    record { path = b'.' ∷ []; info = some true }
    ∷ record { path = duck; info = some false }
    ∷ record { path = xor; info = some false }
    ∷ []

start_walk-Streams_example :
    Inevitably
      (Network.Step {F = ℕ} open_file (λ path. path))
      Network.Panics
      (λ s.
        (s.received ≡ document_reader open_file 0 paths)
        × Streams ascii secret toy_bolt empty s.received)
      (start_walk (collect_stop_funcs (1 ∷ 2 ∷ []) new_error_handler) visits)
unfolding all_readable directory_walker
start_walk-Streams_example =
    start_walk-Streams ascii secret toy_bolt empty open_file (λ path. path) (1 ∷ 2 ∷ []) visits
      paths (record { root_free = refl; no_buckets = λ k. refl }) refl refl (omega arith)
      (omega arith, (omega arith, tt)) encrypted
