-- ===== src/DocDb/Store.antt =====
-- The document database against a map from identifiers to documents.
use duck_duck_xor.Base.{ℕ, ◌-◌, ◌^◌, ◌<◌, ◌≡◌, refl, sym, ap, ◌∙◌}
use duck_duck_xor.Base.{Option, some, List, [], ◌∷◌, arith}
use duck_duck_xor.Base.{◌==◌, if◌then◌else◌}
use duck_duck_xor.Base.{length}
use duck_duck_xor.Base.{Bytes, bytes_eq}
use mathlib.Core.Path.{subst}
use duck_duck_xor.Bolt.{Bolt}
use duck_duck_xor.Bolt.Root.{IsRoot, writes}
use duck_duck_xor.DocDb.{
  doc_bucket_key, CipherDoc, le32, doc_reply, write_request, write_handler, view_doc, read_request,
}

-- The keys of two uint32 identifiers are the same only if the identifiers are.
le32-eq : (i j : ℕ) → i < 2 ^ 32 → j < 2 ^ 32 → bytes_eq (le32 i) (le32 j) ≡ (i == j)
unfolding le32 bytes_eq
le32-eq i j h k = ground arith

-- The document last written under an identifier, or the given one.
unfoldable pub latest : List CipherDoc → ℕ → Option Bytes → Option Bytes
latest [] id old = old
latest (doc ∷ docs) id old =
    latest docs id (if doc.doc_id == id then some doc.encrypted_doc else old)

-- Identifiers are uint32, and bolt takes the documents.
abbrev pub AllFit : List CipherDoc → Type 0
AllFit [] = Unit {0}
AllFit (doc ∷ docs) = (doc.doc_id < 2 ^ 32) × (length doc.encrypted_doc < 2 ^ 31 - 2) × AllFit docs

module _ (D : Bolt) where
  open D use {Db, bucket, get, create, put}

  -- The shape of a store of documents.
  abbrev pub IsDocs : Db → Type 0
  IsDocs = IsRoot D doc_bucket_key

  -- One document: the store keeps its shape, and the document stands under its key.
  write_request-gets :
      (doc : CipherDoc) (db : Db)
      → length doc.encrypted_doc < 2 ^ 31 - 2
      → IsDocs db
      → IsDocs (write_request D doc db)
        × ((k : Bytes)
            → get (write_request D doc db) (doc_bucket_key ∷ []) k ≡ (
                if bytes_eq (le32 doc.doc_id) k
                then some doc.encrypted_doc
                else get db (doc_bucket_key ∷ []) k))
  write_request-gets doc db small shape =
      let w =
        writes D doc_bucket_key (le32 doc.doc_id) doc.encrypted_doc db (omega arith, omega arith)
          (unfold le32 in (omega arith, omega arith)) small shape in
      let same : write_request D doc db ≡ w.after =
        unfold write_request in ground (arith, w.creates, w.puts) in
      subst
        (λ d.
          IsDocs d
          × ((k : Bytes)
              → get d (doc_bucket_key ∷ []) k ≡ (
                  if bytes_eq (le32 doc.doc_id) k
                  then some doc.encrypted_doc
                  else get db (doc_bucket_key ∷ []) k)))
        (sym same) (w.shape, w.gets)

  -- In a store where the bucket of the documents holds no buckets, and for identifiers below 2 ^
  -- 32 and documents below 2 ^ 31 - 2 bytes: after any sequence of writes the bucket gives for
  -- each identifier the document last written under it, or what it gave before.
  pub write_handler-latest :
      (docs : List CipherDoc) (db : Db) (id : ℕ)
      → AllFit docs
      → id < 2 ^ 32
      → IsDocs db
      → get (write_handler D docs db) (doc_bucket_key ∷ []) (le32 id)
        ≡ latest docs id (get db (doc_bucket_key ∷ []) (le32 id))
  unfolding write_handler latest
  write_handler-latest [] db id fit h shape = refl
  write_handler-latest (doc ∷ docs) db id fit h shape =
      let (shape', gets) = write_request-gets doc db fit.1 shape in
      write_handler-latest docs (write_request D doc db) id fit.2 h shape'
      ∙ ap (latest docs id) (
          gets (le32 id)
          ∙ ap (λ t. if t then some doc.encrypted_doc else get db (doc_bucket_key ∷ []) (le32 id))
              (le32-eq doc.doc_id id fit.0 h))

  -- Every request for a document is answered by an empty document, whatever is stored: the bucket
  -- is asked for by a call that a read-only transaction refuses, and the refusal is dropped.
  pub read_request-empty :
      (id : ℕ) (db : Db)
      → read_request D id db ≡ doc_reply (record { doc_id = id; encrypted_doc = [] })
  unfolding read_request view_doc
  read_request-empty id db = ground (arith, D.create_read_only db [] doc_bucket_key)
