-- ===== src/Pipeline/Documents.antt =====
-- The documents: partitionStreams, docEncrypter and docUploader on the client, UploadCipherDocs and
-- writeHandler on the server.
use duck_duck_xor.Base.{ℕ, suc, ◌+◌, ◌-◌, ◌^◌, ◌≤◌, ◌<◌, ◌≡◌, refl, sym, ap, ◌∙◌}
use duck_duck_xor.Base.{
  true, false, Option, some, List, [], ◌∷◌, ◌++◌, map, append_assoc, append-nil, arith,
}
use duck_duck_xor.Base.{◌==◌, if◌then◌else◌}
use duck_duck_xor.Base.{length, drop, length-drop}
use duck_duck_xor.Base.{Bytes, u32}
use duck_duck_xor.Base.{done}
use mathlib.Core.Path.{subst}
use duck_duck_xor.Bolt.{Bolt}
use duck_duck_xor.Keys.Setup.{SecretKey, or_nil}
use duck_duck_xor.Preprocess.{Unicode, Document, read_rest, partition_document}
use duck_duck_xor.CorpusReader.{document_reader}
use duck_duck_xor.DocEncrypter.{
  encrypt_document, doc_aborts, NoneAborts, doc_encrypter, doc_uploader,
}
use duck_duck_xor.DocDb.{CipherDoc, doc_bucket_key, le32, write_handler}
use duck_duck_xor.DocDb.Store.{latest, AllFit, IsDocs, write_handler-latest}
use duck_duck_xor.Server.{message, eof, upload_cipher_docs}

-- What the client sends for its documents, encrypted by one worker from the n-th nonce on.
unfoldable pub sent_docs : Unicode → SecretKey → ℕ → List Document → List CipherDoc
sent_docs u doc_key n docs =
    doc_uploader
      (doc_encrypter doc_key n (map (λ d. (partition_document u d).doc_encrypt_out) docs))

-- The cipher text of a document without its first byte, under a nonce, and a file without errors.
pub record Encrypts (doc_key : SecretKey) (n : ℕ) (d : Document) : Type 0 where
  pub text : Bytes
  pub encrypts : doc_key.encrypt n (drop 1 d.content) ≡ some text
  pub sound : d.faulty ≡ false

-- Every document is encrypted without an error.
abbrev pub AllEncrypt : SecretKey → ℕ → List Document → Type 0
AllEncrypt doc_key n [] = Unit {0}
AllEncrypt doc_key n (d ∷ ds) = Encrypts doc_key n d × AllEncrypt doc_key (suc n) ds

-- No document has the identifier.
abbrev pub Absent : ℕ → List Document → Type 0
Absent id [] = Unit {0}
Absent id (d ∷ ds) = ((d.doc_id == id) ≡ false) × Absent id ds

-- Distinct uint32 identifiers, and documents that bolt takes when they are encrypted.
abbrev pub AllSmall : List Document → Type 0
AllSmall [] = Unit {0}
AllSmall (d ∷ ds) =
    (d.doc_id < 2 ^ 32) × (length d.content < 2 ^ 31 - 42) × Absent d.doc_id ds × AllSmall ds

-- What the store gives for each document decrypts under the key to the document without its first byte.
abbrev pub AllRead : SecretKey → (ℕ → Option Bytes) → List Document → Type 0
AllRead doc_key g [] = Unit {0}
AllRead doc_key g (d ∷ ds) =
    ((text : Bytes) × (g d.doc_id ≡ some text) × (doc_key.decrypt text ≡ some (drop 1 d.content)))
    × AllRead doc_key g ds

-- bolt takes the files of the paths when they are encrypted.
abbrev pub AllShort : (Bytes → Option Bytes) → List Bytes → Type 0
AllShort open_file [] = Unit {0}
AllShort open_file (path ∷ paths) =
    (length (or_nil (open_file path)) < 2 ^ 31 - 42) × AllShort open_file paths

document_reader-Absent :
    (open_file : Bytes → Option Bytes) (n id : ℕ) (paths : List Bytes)
    → id ≤ n
    → n + length paths < 2 ^ 32
    → Absent id (document_reader open_file n paths)
unfolding document_reader
document_reader-Absent open_file n id [] le fit = tt
document_reader-Absent open_file n id (path ∷ paths) le fit = (
  ground (arith, le, fit),
  document_reader-Absent open_file (u32 (n + 1)) id paths (omega (arith, le, fit))
      (omega (arith, fit)),
)

-- The identifiers of fewer than 2 ^ 32 files are distinct.
document_reader-AllSmall :
    (open_file : Bytes → Option Bytes) (n : ℕ) (paths : List Bytes)
    → n + length paths < 2 ^ 32
    → AllShort open_file paths
    → AllSmall (document_reader open_file n paths)
unfolding document_reader
document_reader-AllSmall open_file n [] fit short = tt
document_reader-AllSmall open_file n (path ∷ paths) fit short = (
  omega arith,
  short.0,
  document_reader-Absent open_file (u32 (n + 1)) (u32 (n + 1)) paths (omega arith)
      (omega (arith, fit)),
  document_reader-AllSmall open_file (u32 (n + 1)) paths (omega (arith, fit)) short.1,
)

upload_docs :
    (ts queued : List CipherDoc)
    → upload_cipher_docs (map message ts ++ eof ∷ []) queued ≡ done (queued ++ ts)
unfolding upload_cipher_docs
upload_docs [] queued = ap done (sym (append-nil queued))
upload_docs (t ∷ ts) queued =
    upload_docs ts (queued ++ t ∷ []) ∙ ap done (append_assoc queued (t ∷ []) ts)

module _ (u : Unicode) (doc_key : SecretKey) where
  -- The document that is sent first.
  sent_doc :
      (n : ℕ) (d : Document) (ds : List Document) (e : Encrypts doc_key n d)
      → sent_docs u doc_key n (d ∷ ds)
        ≡ record { doc_id = d.doc_id; encrypted_doc = e.text } ∷ sent_docs u doc_key (suc n) ds
  unfolding sent_docs doc_encrypter doc_uploader encrypt_document partition_document read_rest
  sent_doc n d ds e = rw e.encrypts

  -- None of the documents that partitionStreams hands on makes the encrypter abort.
  pub handed-NoneAborts :
      (n : ℕ) (ds : List Document)
      → AllEncrypt doc_key n ds
      → NoneAborts doc_key n (map (λ d. (partition_document u d).doc_encrypt_out) ds)
  unfolding doc_aborts partition_document read_rest
  handed-NoneAborts n [] h = tt
  handed-NoneAborts n (d ∷ ds) (e, h) = (rw (e.sound, e.encrypts), handed-NoneAborts (suc n) ds h)

  -- Documents with other identifiers leave a document alone.
  latest_kept :
      (id n : ℕ) (ds : List Document) (old : Option Bytes)
      → AllEncrypt doc_key n ds
      → Absent id ds
      → latest (sent_docs u doc_key n ds) id old ≡ old
  unfolding latest
  latest_kept id n [] old h free = unfold sent_docs doc_encrypter doc_uploader in refl
  latest_kept id n (d ∷ ds) old h free =
      rw (sent_doc n d ds h.0, latest, free.0) (latest_kept id (suc n) ds old h.1 free.1)

  sent-AllFit :
      (n : ℕ) (ds : List Document)
      → AllEncrypt doc_key n ds
      → AllSmall ds
      → AllFit (sent_docs u doc_key n ds)
  sent-AllFit n [] h small = unfold sent_docs doc_encrypter doc_uploader in tt
  sent-AllFit n (d ∷ ds) h (fit, short, free, small) = subst AllFit (sym (sent_doc n d ds h.0)) (
    fit,
    omega (arith, short, doc_key.encrypt-length n _ _ h.0.encrypts, length-drop 1 d.content),
    sent-AllFit (suc n) ds h.1 small,
  )

  read_back :
      (n : ℕ) (ds : List Document) (g old : ℕ → Option Bytes)
      → AllEncrypt doc_key n ds
      → AllSmall ds
      → ((id : ℕ) → id < 2 ^ 32 → g id ≡ latest (sent_docs u doc_key n ds) id (old id))
      → AllRead doc_key g ds
  unfolding latest
  read_back n [] g old h small e = tt
  read_back n (d ∷ ds) g old h (fit, short, free, small) e =
      let self : (d.doc_id == d.doc_id) ≡ true = ground arith in
      (
        (
          h.0.text,
          e d.doc_id fit
              ∙ (rw (sent_doc n d ds h.0, latest, self)
                  (latest_kept d.doc_id (suc n) ds (some h.0.text) h.1 free)),
          doc_key.decrypt-encrypt n _ _ h.0.encrypts,
        ),
        read_back (suc n) ds g (λ id. if d.doc_id == id then some h.0.text else old id) h.1 small
            (λ id k. e id k ∙ (rw (sent_doc n d ds h.0, latest))),
      )

  -- The documents of the client, from their encryption to the store.
  upload-AllRead :
      (D : Bolt) (n : ℕ) (ds : List Document) (db : D.Db)
      → IsDocs D db
      → AllSmall ds
      → AllEncrypt doc_key n ds
      → (upload_cipher_docs (map message (sent_docs u doc_key n ds) ++ eof ∷ []) []
          ≡ done (sent_docs u doc_key n ds))
        × AllRead doc_key
            (λ id.
              D.get (write_handler D (sent_docs u doc_key n ds) db) (doc_bucket_key ∷ []) (le32 id))
            ds
  upload-AllRead D n ds db shape small h = (
    upload_docs _ [],
    read_back n ds _ (λ id. D.get db (doc_bucket_key ∷ []) (le32 id)) h small
        (λ id k.
          write_handler-latest D (sent_docs u doc_key n ds) db id (sent-AllFit n ds h small) k
            shape),
  )

  -- In a store where the bucket of the documents holds no buckets, for fewer than 2 ^ 32 files with
  -- contents below 2 ^ 31 - 42 bytes, and encryption without an error: the server acknowledges the
  -- stream of the documents that one worker encrypts and queues them in order, and what its store
  -- then gives for each identifier decrypts under the key of the encryption to the file without its
  -- first byte.
  pub document_reader-AllRead :
      (D : Bolt) (open_file : Bytes → Option Bytes) (n : ℕ) (paths : List Bytes) (db : D.Db)
      → IsDocs D db
      → length paths < 2 ^ 32
      → AllShort open_file paths
      → AllEncrypt doc_key n (document_reader open_file 0 paths)
      → (sent : List CipherDoc) × (sent_docs u doc_key n (document_reader open_file 0 paths) ≡ sent)
        × (upload_cipher_docs (map message sent ++ eof ∷ []) [] ≡ done sent)
        × AllRead doc_key
            (λ id. D.get (write_handler D sent db) (doc_bucket_key ∷ []) (le32 id))
            (document_reader open_file 0 paths)
  document_reader-AllRead D open_file n paths db shape fit short h =
      let (acknowledged, read) =
        upload-AllRead D n (document_reader open_file 0 paths) db shape
          (document_reader-AllSmall open_file 0 paths (omega (arith, fit)) short) h in
      (_, refl, acknowledged, read)
