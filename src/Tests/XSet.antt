-- ===== src/Tests/XSet.antt =====
-- The X-Set with a document without words.
use duck_duck_xor.Base.{◌≡◌, refl}
use duck_duck_xor.Base.{List, [], ◌∷◌, ◌++◌, replicate, arith}
use duck_duck_xor.Base.{Bytes}
use duck_duck_xor.Base.{done, panic}
use duck_duck_xor.Crypto.Toy.{toy}
use mathlib.Core.List.Perm
use duck_duck_xor.Keys.{key_at, x_ind_key, x_tag_key}
use duck_duck_xor.Bloom.{Master, x_set_add, new_bloom_master, bloom_worker}
use duck_duck_xor.Bloom.Toy.{toy_bloom}
use duck_duck_xor.EncIndex.XsetWorker.{x_set_worker}
use duck_duck_xor.Indexer.{count_key_words}
use duck_duck_xor.Indexer.XSet.{messages}
use duck_duck_xor.Pipeline.Wordless.{x_set-wordless_panics}
use duck_duck_xor.EncIndex.XsetWorker.Tags.{batches_of}
use duck_duck_xor.Tests.Data.{keys7, toy_curve, both_words, one_word, wordless}

abbrev fresh : Master Bytes
fresh = new_bloom_master toy_bloom

-- The batches of the two documents with words.
abbrev worded_batches : List (List Bytes)
worded_batches =
    batches_of toy toy_curve (key_at keys7 x_ind_key) (key_at keys7 x_tag_key) (replicate 4 0)
      (both_words ∷ one_word ∷ [])

x_set-wordless_panics_example :
    (x_set_worker toy toy_curve keys7 ((both_words ∷ one_word ∷ []) ++ wordless ∷ [])
      ≡ done (worded_batches ++ [] ∷ []))
    × (bloom_worker toy_bloom
          (messages toy toy_curve toy_bloom
              (count_key_words 0 ((both_words ∷ one_word ∷ []) ++ wordless ∷ []))
              worded_batches
            ++ (x_set_add [] ∷ []))
          fresh
        ≡ panic)
unfolding new_bloom_master count_key_words key_at
x_set-wordless_panics_example =
    x_set-wordless_panics toy toy_curve toy_bloom keys7 both_words (one_word ∷ []) wordless fresh
      worded_batches [] refl refl refl refl refl (omega arith) (omega arith, (omega arith, tt)) refl
      (Perm.refl worded_batches)
