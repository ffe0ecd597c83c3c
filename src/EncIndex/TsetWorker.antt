-- ===== src/EncIndex/TsetWorker.antt =====
-- tSetWorker and tSetJanitor of client_proxy/encrypted_index.go, with one worker. What is sent is
-- kept in order. Errors of the stream are not modelled.
pub mod Word
pub mod Places
pub mod Janitor
pub mod Document
pub mod Reference
use duck_duck_xor.Base.{
  ℕ, ◌+◌, Bool, true, false, List, [], ◌∷◌, ◌++◌, Bytes, u32, Outcome, done, ◌>>=◌,
}
use duck_duck_xor.Crypto.{Primitives, Prf, new_prf, reset}
use duck_duck_xor.Preprocess.{InvIndexDocument}
use duck_duck_xor.Tset.{permute_doc_id}
use duck_duck_xor.Keys.{KeyMap, key_at, x_ind_key, dh_blind_key, w_trap_key, s_tag_key}
use duck_duck_xor.EncIndex.Counter.{IndexDocPair, WordIndexCounter, read_then_increment}
use duck_duck_xor.EncIndex.Tuple.{
  TsetFragment, compute_blinding_value, compute_xind, compute_blinded_xind, calc_tset_tuple,
}

-- The four hashes of a worker.
pub record Prfs : Type 0 where
  pub x_ind : Prf
  pub blind : Prf
  pub w_trap : Prf
  pub s_tag : Prf

-- A worker, the counter that it shares, and the fragments sent so far.
pub record State : Type 0 where
  pub prfs : Prfs
  pub counter : WordIndexCounter
  pub sent : List TsetFragment

-- The hashes that both goroutines set up from the key map.
unfoldable pub new_prfs : Primitives → KeyMap → Outcome Prfs
new_prfs c keys = do
  x_ind ← new_prf c (key_at keys x_ind_key)
  blind ← new_prf c (key_at keys dh_blind_key)
  w_trap ← new_prf c (key_at keys w_trap_key)
  s_tag ← new_prf c (key_at keys s_tag_key)
  done (record { x_ind = x_ind; blind = blind; w_trap = w_trap; s_tag = s_tag })

unfoldable pub reset_prfs : Prfs → Prfs
reset_prfs p = record {
  x_ind = reset p.x_ind;
  blind = reset p.blind;
  w_trap = reset p.w_trap;
  s_tag = reset p.s_tag;
}

module _ (c : Primitives) (order : ℕ) where
  -- The shared part of both loops: the tuple of a word and a document, and the hashes after it.
  unfoldable pub make_tuple : Prfs → Bytes → ℕ → ℕ → ℕ → Bool → Outcome (Prfs × TsetFragment)
  make_tuple p word blind_counter tuple_index doc_id is_last = do
    let z = compute_blinding_value c p.blind word blind_counter
    let xind = compute_xind c p.x_ind doc_id
    y ← compute_blinded_xind z.1 xind.1 order
    let e_id = permute_doc_id word p.w_trap doc_id
    shard ← calc_tset_tuple c p.s_tag word tuple_index e_id y is_last
    done (record p { x_ind = xind.0; blind = z.0; s_tag = shard.0 }, shard.1)

  -- The body of the loop over the words of a document in tSetWorker.
  unfoldable pub process_word : ℕ → State → Bytes → Outcome State
  process_word doc_id s word = do
    let read = read_then_increment word doc_id s.counter
    let doc_counter = u32 (read.0 + 1)
    made ← make_tuple s.prfs word read.0 doc_counter doc_id false
    done (record { prfs = made.0; counter = read.1; sent = s.sent ++ made.1 ∷ [] })

  unfoldable pub process_words : ℕ → List Bytes → State → Outcome State
  process_words doc_id [] s = done s
  process_words doc_id (word ∷ words) s = do
    s' ← process_word doc_id s word
    process_words doc_id words s'

  -- One document received by tSetWorker: its words, and then the resets.
  unfoldable pub process_document : InvIndexDocument → State → Outcome State
  process_document d s = do
    s' ← process_words d.doc_id d.words s
    done (record s' { prfs = reset_prfs s'.prfs })

  unfoldable pub process_documents : List InvIndexDocument → State → Outcome State
  process_documents [] s = done s
  process_documents (d ∷ ds) s = do s' ← process_document d s; process_documents ds s'

  -- tSetWorker, from its start to the close of its channel.
  unfoldable pub t_set_worker : KeyMap → WordIndexCounter → List InvIndexDocument → Outcome State
  t_set_worker keys counter documents = do
    prfs ← new_prfs c keys
    process_documents documents (record { prfs = prfs; counter = counter; sent = [] })

  -- The loop of tSetJanitor over the counter: one last tuple for each word, at the index behind
  -- its documents, with the resets after each word.
  unfoldable pub janitor_words : Prfs → List (Bytes × IndexDocPair) → Outcome (List TsetFragment)
  janitor_words p [] = done []
  janitor_words p ((word, pair) ∷ rest) = do
    made ← make_tuple p word pair.count (u32 (pair.count + 1)) pair.last_id true
    sent ← janitor_words (reset_prfs made.0) rest
    done (made.1 ∷ sent)

  -- tSetJanitor.
  unfoldable pub t_set_janitor : KeyMap → WordIndexCounter → Outcome (List TsetFragment)
  t_set_janitor keys counter = do prfs ← new_prfs c keys; janitor_words prfs counter
