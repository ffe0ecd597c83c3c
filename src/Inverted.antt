-- ===== src/Inverted.antt =====
-- client_proxy/inverted_index.go: the calculator of the last document of every word, which no other
-- component starts. Its shuffler sends pairs as that of client_proxy/tf_calc.go does.
pub mod Last
pub mod Top
pub mod Reduce
use duck_duck_xor.Base.{
  ℕ, ◌+◌, List, [], ◌∷◌, ◌++◌, ltb, ◌==◌, if◌then◌else◌, Bytes, u32, Outcome, done, blocked, ◌>>=◌,
  insert,
}
use duck_duck_xor.Preprocess.{InvIndexDocument}
use duck_duck_xor.TfCalc.{Frequencies, frequency_of, shuffle_pairs}

-- What the workers of a calculator have sent on finalIndexEntries.
pub record Calculator : Type 0 where
  pub final_index_entries : List Frequencies

-- NewInvertedIndexCalculator. It does not make finalCounterEntries.
abbrev pub new_inverted_index_calculator : Calculator
new_inverted_index_calculator = record { final_index_entries = [] }

-- A send on finalCounterEntries, which is nil, and from which nothing receives: it waits for ever.
unfoldable pub send_counter : ℕ → Calculator → Outcome Calculator
send_counter counter i = blocked

-- maxInt.
unfoldable pub max_int : ℕ → ℕ → ℕ
max_int a b = if ltb b a then a else b

-- The loop over the words of a document, with the count of them.
unfoldable pub index_words : ℕ → List Bytes → Frequencies × ℕ → Frequencies × ℕ
unfolding max_int frequency_of
index_words current_id [] s = s
index_words current_id (token ∷ words) (last, counter) =
    index_words current_id words
      (insert token (max_int (frequency_of token last) current_id) last, counter + 1)

-- The loop over the documents.
unfoldable pub index_documents : List InvIndexDocument → Frequencies × ℕ → Frequencies × ℕ
unfolding index_words
index_documents [] s = s
index_documents (doc ∷ docs) s = index_documents docs (index_words doc.doc_id doc.words s)

-- finalIndexEntriesWorker over the documents that arrive.
unfoldable pub final_index_entries_worker : List InvIndexDocument → Calculator → Outcome Calculator
unfolding index_documents send_counter
final_index_entries_worker docs i = do
  let (last, counter) = index_documents docs ([], 0)
  i' ← send_counter counter i
  done (record { final_index_entries = i'.final_index_entries ++ last ∷ [] })

-- The workers that initMappers starts, each over the documents that it gets. They share no map, so one
-- runs behind the other here.
unfoldable pub run_workers : List (List InvIndexDocument) → Calculator → Outcome Calculator
unfolding final_index_entries_worker
run_workers [] i = done i
run_workers (docs ∷ rest) i = do i' ← final_index_entries_worker docs i; run_workers rest i'

-- finalIndexShuffler over the maps that arrive.
unfoldable pub final_index_shuffler :
    (fnv32a : Bytes → ℕ) → ℕ → List Frequencies → Outcome (List (ℕ × (Bytes × ℕ)))
unfolding shuffle_pairs
final_index_shuffler fnv32a num_reducers [] = done []
final_index_shuffler fnv32a num_reducers (a ∷ entries) = do
  sent ← shuffle_pairs fnv32a num_reducers a
  rest ← final_index_shuffler fnv32a num_reducers entries
  done (sent ++ rest)

-- The loop of reducer: the map and the count of the words that are new to it.
unfoldable pub reduce_last : Frequencies → Frequencies × ℕ → Frequencies × ℕ
unfolding max_int frequency_of
reduce_last [] s = s
reduce_last ((key, tf) ∷ input) (sub_set, count) = reduce_last input (
  insert key (max_int (u32 (frequency_of key sub_set)) (u32 tf)) sub_set,
  if frequency_of key sub_set == 0 then count + 1 else count,
)
