-- ===== src/Server.antt =====
-- server/server.go: the calls of the search server. A stream is the list of what Recv returns; a
-- list that ends is a stream on which nothing more arrives.
pub mod Handlers
pub mod Shutdown
use duck_duck_xor.Base.{
  ℕ, Bool, true, false, Option, List, [], ◌∷◌, ◌++◌, if◌then◌else◌, Bytes, Outcome, done, panic,
  blocked,
}
use duck_duck_xor.Crypto.{Primitives}
use duck_duck_xor.Bolt.{Bolt}
use duck_duck_xor.EncIndex.Tuple.{TsetFragment}
use duck_duck_xor.DocDb.{CipherDoc, Reply, doc_reply, doc_does_not_exist, read_request}
use duck_duck_xor.Searcher.{MetaData, TupleData, Response}

-- What Recv returns: a message, io.EOF, or another error with a nil message.
pub data Event {ℓ} (A : Type ℓ) : Type ℓ where
  message : A → Event A
  eof : Event A
  failed : Event A

-- UploadTSet: what PutTsetFragment queues before the stream is acknowledged. A nil fragment is
-- passed over, and the loop goes on behind every error but the end.
unfoldable pub upload_t_set :
    List (Event TsetFragment) → List TsetFragment → Outcome (List TsetFragment)
upload_t_set [] queued = blocked
upload_t_set (message t ∷ es) queued = upload_t_set es (queued ++ t ∷ [])
upload_t_set (eof ∷ es) queued = done queued
upload_t_set (failed ∷ es) queued = upload_t_set es queued

-- UploadCipherDocs: it ends at the first nil document too.
unfoldable pub upload_cipher_docs :
    List (Event CipherDoc) → List CipherDoc → Outcome (List CipherDoc)
upload_cipher_docs [] queued = blocked
upload_cipher_docs (message doc ∷ es) queued = upload_cipher_docs es (queued ++ doc ∷ [])
upload_cipher_docs (eof ∷ es) queued = done queued
upload_cipher_docs (failed ∷ es) queued = done queued

-- KeywordSearch over the responses of a search: the identifiers sent, and whether the search was
-- cancelled. `sends` says for each Send whether it succeeds. A channel that is not closed is waited
-- for.
unfoldable pub keyword_search :
    List Bool → List TupleData → Bool → List (Option Bytes) → Outcome (List (Option Bytes) × Bool)
keyword_search sends [] closed out = if closed then done (out, false) else blocked
keyword_search [] (t ∷ ts) closed out = keyword_search [] ts closed (out ++ t.e_id ∷ [])
keyword_search (false ∷ sends) (t ∷ ts) closed out = done (out, true)
keyword_search (true ∷ sends) (t ∷ ts) closed out =
    keyword_search sends ts closed (out ++ t.e_id ∷ [])

-- What FetchDocuments ends with.
pub data FetchEnd : Type 0 where
  served no_document : FetchEnd

module _ (D : Bolt) where
  -- FetchDocuments: the documents sent, and how the call ends. A request that Recv returns with an
  -- error other than the end is a nil pointer.
  unfoldable pub fetch_documents :
      D.Db → List (Event ℕ) → List CipherDoc → Outcome (List CipherDoc × FetchEnd)
  fetch_documents db [] sent = blocked
  fetch_documents db (eof ∷ es) sent = done (sent, served)
  fetch_documents db (failed ∷ es) sent = panic
  fetch_documents db (message doc_id ∷ es) sent = elim (read_request D doc_id db) [
    | doc_does_not_exist ↦ done (sent, no_document)
    | doc_reply doc ↦ fetch_documents db es (sent ++ doc ∷ [])
  ]
