-- ===== src/EncIndex/XsetWorker/Tags.antt =====
-- The xtags of the documents.
use duck_duck_xor.Base.{ℕ, suc, ◌≡◌, refl, ap, ◌∙◌, inr}
use duck_duck_xor.Base.{List, [], ◌∷◌, ◌++◌}
use duck_duck_xor.Base.{length, replicate}
use duck_duck_xor.Base.{Bytes, be32}
use duck_duck_xor.Base.{done}
use mathlib.Core.Path.{ap₂}
use duck_duck_xor.Crypto.{Primitives, new_prf}
use duck_duck_xor.Preprocess.{InvIndexDocument}
use duck_duck_xor.Keys.{KeyMap, key_at, x_ind_key, x_tag_key}
use duck_duck_xor.EncIndex.XsetWorker.{
  Curve, XState, make_xtag, xtag_words, xtag_document, xtag_documents, x_set_worker,
}

-- The xtags of the words of a document, when `ind` and `tag` have been written to the two hashes
-- before: each word writes the identifier once more to the one, and itself to the other.
unfoldable pub document_xtags :
    (c : Primitives) (E : Curve) (ind_key tag_key : Bytes)
    → ℕ
    → Bytes
    → Bytes
    → List Bytes
    → List Bytes
document_xtags c E ind_key tag_key doc_id ind tag [] = []
document_xtags c E ind_key tag_key doc_id ind tag (word ∷ words) =
    make_xtag c E (c.mac ind_key (ind ++ be32 doc_id)) (c.mac tag_key (tag ++ word))
    ∷ document_xtags c E ind_key tag_key doc_id (ind ++ be32 doc_id) (tag ++ word) words

-- The batches: only the first document finds zero bytes before its identifier. A first document
-- without words leaves none to the next.
unfoldable pub batches_of :
    (c : Primitives) (E : Curve) (ind_key tag_key : Bytes)
    → Bytes
    → List InvIndexDocument
    → List (List Bytes)
batches_of c E ind_key tag_key before [] = []
batches_of c E ind_key tag_key before (d ∷ ds) =
    document_xtags c E ind_key tag_key d.doc_id before [] d.words
    ∷ batches_of c E ind_key tag_key [] ds

module _ (c : Primitives) (E : Curve) where
  abbrev hashing : Bytes → Bytes → Bytes → Bytes → Bytes → XState
  hashing ind_key tag_key ind tag buf = record {
    x_ind_prf = record { key = ind_key; written = ind };
    x_tag_prf = record { key = tag_key; written = tag };
    ind_buf = buf;
  }

  xtag_words-document_xtags :
      (k l : Bytes) (doc_id : ℕ) (words : List Bytes) (ind tag : Bytes)
      → (xtag_words c E doc_id words (hashing k l ind tag [])).0
        ≡ document_xtags c E k l doc_id ind tag words
  unfolding xtag_words document_xtags
  xtag_words-document_xtags k l doc_id [] ind tag = refl
  xtag_words-document_xtags k l doc_id (w ∷ words) ind tag =
      ap (λ r. make_xtag c E (c.mac k (ind ++ be32 doc_id)) (c.mac l (tag ++ w)) ∷ r)
        (xtag_words-document_xtags k l doc_id words (ind ++ be32 doc_id) (tag ++ w))

  -- A first word takes what stands in the buffer along.
  xtag_words-drains :
      (k l : Bytes) (doc_id : ℕ) (words : List Bytes) (tag buf : Bytes)
      → (xtag_words c E doc_id words (hashing k l [] tag buf)).0
        ≡ document_xtags c E k l doc_id buf tag words
  unfolding xtag_words document_xtags
  xtag_words-drains k l doc_id [] tag buf = refl
  xtag_words-drains k l doc_id (w ∷ words) tag buf =
      ap (λ r. make_xtag c E (c.mac k (buf ++ be32 doc_id)) (c.mac l (tag ++ w)) ∷ r)
        (xtag_words-document_xtags k l doc_id words (buf ++ be32 doc_id) (tag ++ w))

  xtag_words-keys :
      (k l : Bytes) (doc_id : ℕ) (words : List Bytes) (ind tag buf : Bytes)
      → let s = (xtag_words c E doc_id words (hashing k l ind tag buf)).1 in
        (s.x_ind_prf.key ≡ k) × (s.x_tag_prf.key ≡ l)
  unfolding xtag_words
  xtag_words-keys k l doc_id [] ind tag buf = (refl, refl)
  xtag_words-keys k l doc_id (w ∷ words) ind tag buf =
      xtag_words-keys k l doc_id words (ind ++ (buf ++ be32 doc_id)) (tag ++ w) []

  xtag_document-resets :
      (k l buf : Bytes) (d : InvIndexDocument)
      → (xtag_document c E d (hashing k l [] [] buf)).1 ≡ hashing k l [] [] []
  unfolding xtag_document
  xtag_document-resets k l buf d =
      let (e, f) = xtag_words-keys k l d.doc_id d.words [] [] buf in
      λ i. hashing (e i) (f i) [] [] []

  xtag_documents-batches_of :
      (k l buf : Bytes) (ds : List InvIndexDocument)
      → xtag_documents c E ds (hashing k l [] [] buf) ≡ batches_of c E k l buf ds
  unfolding xtag_documents batches_of xtag_document
  xtag_documents-batches_of k l buf [] = refl
  xtag_documents-batches_of k l buf (d ∷ ds) =
      ap₂ (λ xs s. xs ∷ xtag_documents c E ds s) (xtag_words-drains k l d.doc_id d.words [] buf)
        (xtag_document-resets k l buf d)
      ∙ ap (λ r. document_xtags c E k l d.doc_id buf [] d.words ∷ r)
          (xtag_documents-batches_of k l [] ds)

  -- With keys of 32 bytes xSetWorker returns one batch for each document, in order, with one xtag
  -- for each word. The first document's identifiers stand behind four zero bytes, and from the
  -- second word of a document on both hashes go over all that the document wrote before.
  pub x_set_worker-batches_of :
      (keys : KeyMap) (ds : List InvIndexDocument)
      → length (key_at keys x_ind_key) ≡ 32
      → length (key_at keys x_tag_key) ≡ 32
      → x_set_worker c E keys ds
        ≡ done (batches_of c E (key_at keys x_ind_key) (key_at keys x_tag_key) (replicate 4 0) ds)
  unfolding x_set_worker new_prf
  x_set_worker-batches_of keys ds m n =
      rw
        (
          c.valid_key_sizes (key_at keys x_ind_key) (inr m),
          c.valid_key_sizes (key_at keys x_tag_key) (inr n),
        )
        (ap done (
          xtag_documents-batches_of (key_at keys x_ind_key) (key_at keys x_tag_key) (replicate 4 0)
            ds))

  pub length-document_xtags :
      (k l : Bytes) (doc_id : ℕ) (ind tag : Bytes) (words : List Bytes)
      → length (document_xtags c E k l doc_id ind tag words) ≡ length words
  unfolding document_xtags
  length-document_xtags k l doc_id ind tag [] = refl
  length-document_xtags k l doc_id ind tag (w ∷ words) =
      ap suc (length-document_xtags k l doc_id (ind ++ be32 doc_id) (tag ++ w) words)
