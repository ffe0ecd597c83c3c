-- ===== src/Pipeline/Query.antt =====
-- A query of the client against the slots that its index was stored in.
use duck_duck_xor.Base.{ℕ, ◌≡◌, ap}
use duck_duck_xor.Base.{some, List, [], arith}
use duck_duck_xor.Base.{length}
use duck_duck_xor.Base.{Bytes}
use duck_duck_xor.Base.{done}
use duck_duck_xor.Crypto.{Primitives}
use duck_duck_xor.Keys.{KeyMap, dh_blind_key, s_tag_key, key_at}
use duck_duck_xor.Preprocess.{InvIndexDocument}
use duck_duck_xor.EncIndex.Counter.{new_word_index_counter}
use duck_duck_xor.EncIndex.TsetWorker.{State, t_set_worker}
use duck_duck_xor.EncIndex.TsetWorker.Word.{Invertible}
use duck_duck_xor.EncIndex.TsetWorker.Places.{AllStored}
use duck_duck_xor.EncIndex.TsetWorker.Document.{KeysFit}
use duck_duck_xor.EncIndex.TsetWorker.Reference.{
  AllSingle, reference_slot, reference_places, t_set_worker-reference,
}
use duck_duck_xor.Client.{encrypt_query}
use duck_duck_xor.Client.Search.{encrypt_query-reference_slot}

-- With keys of 32 bytes, one of them for the stags, and blinding values that have inverses, for
-- documents of at most one word each: tSetWorker returns, and its fragments stand in the slots of the
-- protocol, where the stag of a document's word is F(K_t, w) and a word's documents are numbered from 1
-- in their order; and for every word the query of the client is the stag of the word's slots.
pub encrypt_query-AllStored :
    (c : Primitives) (order : ℕ) (keys : KeyMap) (k : Bytes) (ds : List InvIndexDocument)
    → KeysFit keys
    → keys s_tag_key ≡ some k
    → Invertible c order (key_at keys dh_blind_key)
    → AllSingle ds
    → (s : State) × (t_set_worker c order keys new_word_index_counter ds ≡ done s)
      × AllStored c (reference_places c (key_at keys s_tag_key) [] ds) s.sent
      × ((seen : List InvIndexDocument) (doc_id : ℕ) (word : Bytes)
          → encrypt_query c keys word
            ≡ done (reference_slot c (key_at keys s_tag_key) seen doc_id word).stag)
unfolding key_at
encrypt_query-AllStored c order keys k ds fit has inv single =
    let (s, e, stored) = t_set_worker-reference c order keys ds fit inv single in
    let same : key_at keys s_tag_key ≡ k = rw (key_at, has) in
    let size : length k ≡ 32 = omega (arith, fit.s_tag, ap length same) in
    (
      s,
      e,
      stored,
      λ seen doc_id word. encrypt_query-reference_slot c keys k word seen doc_id has size,
    )
