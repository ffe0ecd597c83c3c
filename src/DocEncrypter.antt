-- ===== src/DocEncrypter.antt =====
-- client_proxy/doc_encrypter.go: encrypting the documents and sending them to the server.
pub mod Pool
use duck_duck_xor.Base.{ℕ, suc, ◌≡◌, Bool, true, false, ◌||◌, none, some, List, [], ◌∷◌, Bytes}
use duck_duck_xor.Keys.Setup.{SecretKey, or_nil}
use duck_duck_xor.Preprocess.{Document, read_rest}
use duck_duck_xor.DocDb.{CipherDoc}

-- encryptedDoc.
pub record EncryptedDoc : Type 0 where
  pub cipher_text : Bytes
  pub doc_id : ℕ

-- `doc.Seek(1, 0)`: the offset 1 from the start of the file.
abbrev pub seek_start : Document → Document
seek_start d = record d { position = 1 }

-- docEncrypter calls abort for a document: for an error of io.Copy or Close, or of Encrypt with the n-th
-- nonce.
unfoldable pub doc_aborts : SecretKey → ℕ → Document → Bool
unfolding read_rest
doc_aborts doc_key n doc =
    let plain = (read_rest (seek_start doc)).0 in
    doc.faulty || (elim (doc_key.encrypt n plain) [ none ↦ true | some text ↦ false ])

-- docEncrypter for one document, with the n-th nonce: what it sends. Behind the abort for an error it
-- goes on, with the nil text for one of Encrypt.
unfoldable pub encrypt_document : SecretKey → ℕ → Document → EncryptedDoc
unfolding read_rest
encrypt_document doc_key n doc =
    let plain = (read_rest (seek_start doc)).0 in
    record { cipher_text = or_nil (doc_key.encrypt n plain); doc_id = doc.doc_id }

-- docEncrypter over the documents that arrive.
unfoldable pub doc_encrypter : SecretKey → ℕ → List Document → List EncryptedDoc
unfolding encrypt_document
doc_encrypter doc_key n [] = []
doc_encrypter doc_key n (doc ∷ docs) =
    encrypt_document doc_key n doc ∷ doc_encrypter doc_key (suc n) docs

-- None of the documents makes docEncrypter call abort.
abbrev pub NoneAborts : SecretKey → ℕ → List Document → Type 0
NoneAborts doc_key n [] = Unit {0}
NoneAborts doc_key n (doc ∷ docs) =
    (doc_aborts doc_key n doc ≡ false) × NoneAborts doc_key (suc n) docs

-- docUploader: what it sends before it closes the stream.
unfoldable pub doc_uploader : List EncryptedDoc → List CipherDoc
doc_uploader [] = []
doc_uploader (doc ∷ docs) =
    record { doc_id = doc.doc_id; encrypted_doc = doc.cipher_text } ∷ doc_uploader docs
