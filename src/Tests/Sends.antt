-- ===== src/Tests/Sends.antt =====
-- The batches of X-Set workers on their way to the bloom master.
use duck_duck_xor.Base.{◌≡◌, refl}
use duck_duck_xor.Base.{some, List, [], ◌∷◌, arith}
use duck_duck_xor.Base.{Inevitably}
use duck_duck_xor.Base.{Bytes}
use duck_duck_xor.Base.{done}
use duck_duck_xor.Crypto.Toy.{toy}
use duck_duck_xor.Keys.{key_at}
use duck_duck_xor.Bloom.Toy.{toy_bloom}
use duck_duck_xor.EncIndex.XsetWorker.{x_set_worker}
use duck_duck_xor.EncIndex.XsetWorker.Sends.{Sends, start_sends, Step, Panics}
use duck_duck_xor.EncIndex.Streams.{chan_splitter}
use duck_duck_xor.Bloom.{x_set_size_init}
use duck_duck_xor.Pipeline.XSet.{running}
use duck_duck_xor.Pipeline.Sends.{Uploads, start_sends-Uploads}
use duck_duck_xor.Indexer.{count_key_words, total_key_word_summer}
use duck_duck_xor.Tests.Data.{keys7, toy_curve, both_words, one_word}

abbrev two_batches : List (List Bytes)
two_batches = ((1 ∷ []) ∷ (2 ∷ []) ∷ []) ∷ ((3 ∷ []) ∷ []) ∷ []

start_sends-Uploads_example :
    (batches : List (List Bytes)) × (x_set_worker toy toy_curve keys7
        (chan_splitter (both_words ∷ one_word ∷ [])).0
      ≡ done batches)
    × (total_key_word_summer (both_words ∷ one_word ∷ []) (running [])
        ≡ some (running (x_set_size_init 3 ∷ [])))
    × Inevitably Step Panics
        (Uploads toy_bloom (count_key_words 0 (both_words ∷ one_word ∷ [])) batches)
        (start_sends (batches ∷ []))
unfolding count_key_words key_at
start_sends-Uploads_example =
    start_sends-Uploads toy toy_curve toy_bloom keys7 both_words (one_word ∷ []) refl refl
      (omega arith) (omega arith, (omega arith, tt))
