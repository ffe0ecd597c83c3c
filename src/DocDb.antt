-- ===== src/DocDb.antt =====
-- server/doc_db.go: storing and retrieving encrypted documents.
pub mod Store
use duck_duck_xor.Base.{
  ℕ, ◌/◌, ◌%◌, ◌^◌, true, false, Option, none, some, List, [], ◌∷◌, ◌++◌, Bytes,
}
use duck_duck_xor.Bolt.{Bolt}

-- docBucketKey, the bytes of "docs".
abbrev pub doc_bucket_key : Bytes
doc_bucket_key = b'd' ∷ b'o' ∷ b'c' ∷ b's' ∷ []

-- pb.CipherDoc.
pub record CipherDoc : Type 0 where
  pub doc_id : ℕ
  pub encrypted_doc : Bytes

-- binary.LittleEndian.PutUint32.
unfoldable pub le32 : ℕ → Bytes
le32 n = (n % 256) ∷ (n / 2 ^ 8 % 256) ∷ (n / 2 ^ 16 % 256) ∷ (n / 2 ^ 24 % 256) ∷ []

-- What RetrieveDoc returns: a document, or ErrDocDoesNotExist.
pub data Reply : Type 0 where
  doc_reply : CipherDoc → Reply
  doc_does_not_exist : Reply

module _ (D : Bolt) where
  open D use {Db, get, create, put}

  -- One request of writeHandler. The function of the transaction returns nil in every case, so
  -- what was done before an error is committed.
  unfoldable pub write_request : CipherDoc → Db → Db
  unfolding le32
  write_request doc db = elim (create true db [] doc_bucket_key) [
    | none ↦ db
    | some db' ↦ elim (put db' (doc_bucket_key ∷ []) (le32 doc.doc_id) doc.encrypted_doc) [
      | none ↦ db'
      | some db'' ↦ db''
    ]
  ]

  -- writeHandler over the requests that arrive.
  unfoldable pub write_handler : List CipherDoc → Db → Db
  write_handler [] db = db
  write_handler (doc ∷ docs) db = write_handler docs (write_request doc db)

  -- The read-only transaction of readHandler: the buffer afterwards, or the error. The bucket is
  -- asked for by CreateBucketIfNotExists, whose error ends the transaction without one.
  unfoldable pub view_doc : ℕ → Db → Option Bytes
  unfolding le32
  view_doc doc_id db = elim (create false db [] doc_bucket_key) [
    | none ↦ some []
    | some db' ↦ elim (get db' (doc_bucket_key ∷ []) (le32 doc_id)) [
      | none ↦ none
      | some doc ↦ some ([] ++ doc)
    ]
  ]

  -- One request of readHandler, as RetrieveDoc returns it. Reading a buffer into a slice of its own
  -- length has no error, also if both are empty.
  unfoldable pub read_request : ℕ → Db → Reply
  unfolding view_doc
  read_request doc_id db = elim (view_doc doc_id db) [
    | none ↦ doc_does_not_exist
    | some buf ↦ doc_reply (record { doc_id = doc_id; encrypted_doc = buf })
  ]
