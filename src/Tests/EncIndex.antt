-- ===== src/Tests/EncIndex.antt =====
-- The t-set worker, the janitor and the X-Set worker on two documents.
use duck_duck_xor.Base.{◌≡◌, ◌≢◌, refl, some, arith, bytes_eq, lookup}
use duck_duck_xor.Base.{List, [], ◌∷◌}
use duck_duck_xor.Base.{replicate}
use duck_duck_xor.Base.{done}
use duck_duck_xor.Crypto.Toy.{toy}
use duck_duck_xor.Keys.{dh_blind_key, s_tag_key, x_ind_key, x_tag_key, key_at}
use duck_duck_xor.EncIndex.Counter.{WordIndexCounter, new_word_index_counter, read_then_increment}
use duck_duck_xor.EncIndex.Counter.History.{Call, run, occurrences}
use duck_duck_xor.EncIndex.Counter.Workers.{
  Interleaves, all_done, next, occurrences_each, count_of, Interleaves-counts,
}
use duck_duck_xor.EncIndex.TsetWorker.{State, t_set_worker}
use duck_duck_xor.EncIndex.TsetWorker.Places.{AllStored, places, all_calls}
use duck_duck_xor.EncIndex.TsetWorker.Document.{t_set_worker-AllStored}
use duck_duck_xor.EncIndex.XsetWorker.{x_set_worker}
use duck_duck_xor.EncIndex.XsetWorker.Tags.{batches_of, x_set_worker-batches_of}
use duck_duck_xor.Tests.Data.{
  keys7, keys7-KeysFit, odd, odd-Invertible, toy_curve, duck, xor, both_words, one_word,
}

t_set_worker-AllStored_example :
    (s : State) × (t_set_worker odd 2 keys7 new_word_index_counter (both_words ∷ one_word ∷ [])
      ≡ done s)
    × AllStored odd (places odd (key_at keys7 s_tag_key) [] (both_words ∷ one_word ∷ [])) s.sent
    × (s.counter ≡ run (all_calls (both_words ∷ one_word ∷ [])) new_word_index_counter)
t_set_worker-AllStored_example =
    t_set_worker-AllStored odd 2 keys7 (both_words ∷ one_word ∷ []) keys7-KeysFit
      (odd-Invertible (key_at keys7 dh_blind_key))

abbrev counted : WordIndexCounter
counted = (duck, record { count = 2; last_id = 2 }) ∷ (xor, record { count = 1; last_id = 1 }) ∷ []

x_set_worker-batches_of_example :
    x_set_worker toy toy_curve keys7 (both_words ∷ one_word ∷ [])
    ≡ done (
        batches_of toy toy_curve
          (key_at keys7 x_ind_key)
          (key_at keys7 x_tag_key)
          (replicate 4 0)
          (both_words ∷ one_word ∷ []))
x_set_worker-batches_of_example =
    x_set_worker-batches_of toy toy_curve keys7 (both_words ∷ one_word ∷ []) (unfold key_at in refl)
      (unfold key_at in refl)

-- Two workers, whose calls on a word are made in turn.
abbrev of_first : List Call
of_first = (duck, 1) ∷ []

abbrev of_second : List Call
of_second = (duck, 2) ∷ (xor, 2) ∷ []

in_turn : Interleaves (of_first ∷ of_second ∷ []) ((duck, 2) ∷ (duck, 1) ∷ (xor, 2) ∷ [])
in_turn =
    next (of_first ∷ []) [] (duck, 2) ((xor, 2) ∷ []) _
      (next [] (((xor, 2) ∷ []) ∷ []) (duck, 1) [] _ (next ([] ∷ []) [] (xor, 2) [] _ (all_done 2)))

Interleaves-counts_example :
    ((read_then_increment duck 2 new_word_index_counter).0
      ≢ (read_then_increment duck 1 (run ((duck, 2) ∷ []) new_word_index_counter)).0)
    × (count_of (lookup duck (run ((duck, 2) ∷ (duck, 1) ∷ (xor, 2) ∷ []) new_word_index_counter))
        ≡ some 2)
unfolding run occurrences_each occurrences bytes_eq
Interleaves-counts_example =
    Interleaves-counts (of_first ∷ of_second ∷ []) [] [] ((xor, 2) ∷ []) duck 2 1 in_turn
      (omega arith)
