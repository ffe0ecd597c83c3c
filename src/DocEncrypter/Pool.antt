-- ===== src/DocEncrypter/Pool.antt =====
-- The goroutines of an EncryptedDocStreamer, client_proxy/doc_encrypter.go: the encrypters that share the
-- channel encryptedDocs, and docUploader. The quit channel, which ends them early, is left out, and the
-- stream to the server takes every document. An error that abort reports is the end of the client: the
-- error handler panics on its first message (ErrorHandler.Stop).
pub mod Uploads
pub mod Close
use duck_duck_xor.Base.{ℕ, suc, ◌<◌, ◌≡◌, Bool, true, false, List, [], ◌∷◌, ◌++◌, length, replicate}
use duck_duck_xor.Keys.Setup.{SecretKey}
use duck_duck_xor.Preprocess.{Document}
use duck_duck_xor.DocDb.{CipherDoc}
use duck_duck_xor.DocEncrypter.{EncryptedDoc, encrypt_document, doc_aborts, doc_uploader}

-- docEncrypter: at its select, at its send, behind its loop, and done.
pub data Encrypter : Type 0 where
  selecting : Encrypter
  sending : EncryptedDoc → Encrypter
  closing : Encrypter
  encrypter_done : Encrypter

-- The documents that docStream still brings before it is closed, how often the cipher has been called,
-- the buffered channel encryptedDocs and its size, whether it is closed, the encrypters, what docUploader
-- has sent, whether it has ended, and whether abort has reported an error.
pub record Streamer : Type 0 where
  pub doc_stream : List Document
  pub nonces : ℕ
  pub encrypted_docs : List EncryptedDoc
  pub capacity : ℕ
  pub closed : Bool
  pub encrypters : List Encrypter
  pub uploaded : List CipherDoc
  pub uploader_done : Bool
  pub reported : Bool

-- NewEncryptedDocStreamer and Start.
unfoldable pub start_streamer : (num_workers : ℕ) → List Document → Streamer
start_streamer num_workers docs = record {
  doc_stream = docs;
  nonces = 0;
  encrypted_docs = [];
  capacity = num_workers;
  closed = false;
  encrypters = replicate num_workers selecting;
  uploaded = [];
  uploader_done = false;
  reported = false;
}

module _ (doc_key : SecretKey) where
  pub data Step : Streamer → Streamer → Type 0 where
    take_doc :
        (s : Streamer) (before after : List Encrypter) (doc : Document) (docs : List Document)
        → s.encrypters ≡ before ++ selecting ∷ after
        → s.doc_stream ≡ doc ∷ docs
        → doc_aborts doc_key s.nonces doc ≡ false
        → Step s (record s {
          doc_stream = docs;
          nonces = suc s.nonces;
          encrypters = before ++ sending (encrypt_document doc_key s.nonces doc) ∷ after;
        })
    -- An error of the file or of Encrypt is reported, and the encrypter goes on to its send.
    abort_doc :
        (s : Streamer) (before after : List Encrypter) (doc : Document) (docs : List Document)
        → s.encrypters ≡ before ++ selecting ∷ after
        → s.doc_stream ≡ doc ∷ docs
        → doc_aborts doc_key s.nonces doc ≡ true
        → Step s (record s {
          doc_stream = docs;
          nonces = suc s.nonces;
          encrypters = before ++ sending (encrypt_document doc_key s.nonces doc) ∷ after;
          reported = true;
        })
    send :
        (s : Streamer) (before after : List Encrypter) (doc : EncryptedDoc)
        → s.encrypters ≡ before ++ sending doc ∷ after
        → s.closed ≡ false
        → length s.encrypted_docs < s.capacity
        → Step s (record s {
          encrypted_docs = s.encrypted_docs ++ doc ∷ [];
          encrypters = before ++ selecting ∷ after;
        })
    end_docs :
        (s : Streamer) (before after : List Encrypter)
        → s.encrypters ≡ before ++ selecting ∷ after
        → s.doc_stream ≡ []
        → Step s (record s { encrypters = before ++ closing ∷ after })
    close_docs :
        (s : Streamer) (before after : List Encrypter)
        → s.encrypters ≡ before ++ closing ∷ after
        → s.closed ≡ false
        → Step s (record s { closed = true; encrypters = before ++ encrypter_done ∷ after })
    upload :
        (s : Streamer) (doc : EncryptedDoc) (docs : List EncryptedDoc)
        → s.encrypted_docs ≡ doc ∷ docs
        → s.uploader_done ≡ false
        → Step s
            (record s { encrypted_docs = docs; uploaded = s.uploaded ++ doc_uploader (doc ∷ []) })
    end_uploader :
        (s : Streamer)
        → s.encrypted_docs ≡ []
        → s.closed ≡ true
        → s.uploader_done ≡ false
        → Step s (record s { uploader_done = true })

-- A send on the closed channel, a second close, or the error handler with a message.
pub data Panics (s : Streamer) : Type 0 where
  closed_send :
      (before after : List Encrypter) (doc : EncryptedDoc)
      → s.encrypters ≡ before ++ sending doc ∷ after
      → s.closed ≡ true
      → Panics s
  closed_twice :
      (before after : List Encrypter)
      → s.encrypters ≡ before ++ closing ∷ after
      → s.closed ≡ true
      → Panics s
  handler_panics : s.reported ≡ true → Panics s

-- An encrypter that has not ended counts as one.
unfoldable pub encrypter_runs : Encrypter → ℕ
encrypter_runs selecting = 1
encrypter_runs (sending doc) = 1
encrypter_runs closing = 1
encrypter_runs encrypter_done = 0
