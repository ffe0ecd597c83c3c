-- ===== src/Indexer/XSet.antt =====
-- The way of the xtags from the documents to the filter that is uploaded.
use duck_duck_xor.Base.{ℕ, ◌+◌, ◌^◌, ◌<◌, ◌≡◌, refl, ap, ◌∙◌}
use duck_duck_xor.Base.{false, List, [], ◌∷◌, ◌++◌, map, arith}
use duck_duck_xor.Base.{length, replicate}
use duck_duck_xor.Base.{Bytes}
use duck_duck_xor.Base.{done}
use mathlib.Core.Path.{subst}
use duck_duck_xor.Crypto.{Primitives}
use duck_duck_xor.Preprocess.{InvIndexDocument}
use duck_duck_xor.Keys.{KeyMap, key_at, x_ind_key, x_tag_key}
use duck_duck_xor.EncIndex.XsetWorker.{Curve, x_set_worker}
use duck_duck_xor.EncIndex.XsetWorker.Tags.{
  batches_of, document_xtags, length-document_xtags, x_set_worker-batches_of,
}
use duck_duck_xor.Bloom.{
  BloomLib, Master, Message, x_set_size_init, x_set_add, bloom_worker, x_filter_uploader,
}
use duck_duck_xor.Bloom.XSet.{total, NoneEmpty, AllTestEach, bloom_worker-uploads}
use duck_duck_xor.Indexer.{count_key_words}

-- Every document has a word.
abbrev pub AllWorded : List InvIndexDocument → Type 0
AllWorded [] = Unit {0}
AllWorded (d ∷ ds) = (0 < length d.words) × AllWorded ds

module _ (c : Primitives) (E : Curve) where
  -- The announced size is the number of xtags that the X-Set workers make.
  pub count_key_words-total :
      (k l before : Bytes) (count : ℕ) (ds : List InvIndexDocument)
      → count_key_words count ds ≡ count + total (batches_of c E k l before ds)
  unfolding count_key_words batches_of total
  count_key_words-total k l before count [] = omega arith
  count_key_words-total k l before count (d ∷ ds) = omega (
    arith,
    length-document_xtags c E k l d.doc_id before [] d.words,
    count_key_words-total k l [] (count + length d.words) ds,
  )

  pub batches_of-NoneEmpty :
      (k l before : Bytes) (ds : List InvIndexDocument)
      → AllWorded ds
      → NoneEmpty (batches_of c E k l before ds)
  unfolding batches_of
  batches_of-NoneEmpty k l before [] h = tt
  batches_of-NoneEmpty k l before (d ∷ ds) h = (
    omega (arith, length-document_xtags c E k l d.doc_id before [] d.words),
    batches_of-NoneEmpty k l [] ds h.1,
  )

  -- Once xtags have been made, the documents behind are hashed from an empty buffer.
  pub batches_of-append :
      (k l before : Bytes) (d : InvIndexDocument) (ds : List InvIndexDocument)
      (e : InvIndexDocument)
      → batches_of c E k l before ((d ∷ ds) ++ e ∷ [])
        ≡ batches_of c E k l before (d ∷ ds) ++ document_xtags c E k l e.doc_id [] [] e.words ∷ []
  unfolding batches_of
  batches_of-append k l before d [] e = refl
  batches_of-append k l before d (d' ∷ ds) e =
      ap (λ r. document_xtags c E k l d.doc_id before [] d.words ∷ r)
        (batches_of-append k l [] d' ds e)

pub count_key_words-append :
    (count : ℕ) (ds : List InvIndexDocument) (e : InvIndexDocument)
    → count_key_words count (ds ++ e ∷ []) ≡ count_key_words count ds + length e.words
unfolding count_key_words
count_key_words-append count [] e = refl
count_key_words-append count (d ∷ ds) e = count_key_words-append (count + length d.words) ds e

module _ (c : Primitives) (E : Curve) (B : BloomLib) where
  open B use {Filter, gob_encode}

  abbrev pub messages : ℕ → List (List Bytes) → List Message
  messages size batches = x_set_size_init size ∷ map x_set_add batches

  -- For documents of which all but perhaps the first have a word, with fewer than 2 ^ 32 words in
  -- all, and keys of 32 bytes: the size that totalKeyWordSummer announces and the batches of
  -- xSetWorker take a new bloom master to its end, where the uploader sends a filter that has
  -- every xtag.
  pub x_set-uploads :
      (keys : KeyMap) (d : InvIndexDocument) (ds : List InvIndexDocument) (b : Master Filter)
      → length (key_at keys x_ind_key) ≡ 32
      → length (key_at keys x_tag_key) ≡ 32
      → b.x_set_ready ≡ false
      → b.x_filter_finished ≡ false
      → b.x_num_added ≡ 0
      → count_key_words 0 (d ∷ ds) < 2 ^ 32
      → AllWorded ds
      → (batches : List (List Bytes)) × (b' : Master Filter) × (f : Filter) × (x_set_worker c E keys
            (d ∷ ds)
          ≡ done batches)
        × (bloom_worker B (messages (count_key_words 0 (d ∷ ds)) batches) b ≡ done b')
        × (x_filter_uploader B b' ≡ done (gob_encode f))
        × AllTestEach B f batches
  unfolding batches_of
  x_set-uploads keys d ds b m n ready fin zero_added small h =
      let k = key_at keys x_ind_key in
      let l = key_at keys x_tag_key in
      let zeros : Bytes = replicate 4 0 in
      let batches = batches_of c E k l zeros (d ∷ ds) in
      let size : count_key_words 0 (d ∷ ds) ≡ total batches =
        omega (arith, count_key_words-total c E k l zeros 0 (d ∷ ds)) in
      let (b', f, returns, uploads, all) =
        bloom_worker-uploads B b (document_xtags c E k l d.doc_id zeros [] d.words)
          (batches_of c E k l [] ds) ready fin zero_added (subst (λ t. t < 2 ^ 32) size small)
          (batches_of-NoneEmpty c E k l [] ds h) in
      (
        batches,
        b',
        f,
        x_set_worker-batches_of c E keys (d ∷ ds) m n,
        ap (λ t. bloom_worker B (messages t batches) b) size ∙ returns,
        uploads,
        all,
      )
