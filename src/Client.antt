-- ===== src/Client.antt =====
-- client_proxy/client.go: a search on behalf of the user.
pub mod Search
use duck_duck_xor.Base.{
  ℕ, zero, suc, Bool, true, false, Option, none, some, List, [], ◌∷◌, ◌++◌, Bytes, be_uint32,
  replicate, Outcome, done, panic, blocked, ◌>>=◌, deref,
}
use duck_duck_xor.Crypto.{Primitives, new_prf, write, sum}
use duck_duck_xor.Keys.{KeyMap, key_size}
use duck_duck_xor.Keys.Setup.{SecretKey, or_nil, fetch_s_tag_key}
use duck_duck_xor.DocDb.{CipherDoc}
use duck_duck_xor.Server.{Event, message, eof, failed}

-- clientDaemon.encryptQuery: the stag of a word.
unfoldable pub encrypt_query : Primitives → KeyMap → Bytes → Outcome Bytes
unfolding fetch_s_tag_key new_prf
encrypt_query c keys s = do
  stag ← fetch_s_tag_key keys
  hm ← new_prf c stag
  done (sum c (write hm s))

-- requestSearch over what Recv returns: what goes over eDocs, a nil document for an error other than
-- the end, and whether eDocs is closed.
unfoldable pub request_search : List (Event Bytes) → List (Option Bytes) × Bool
request_search [] = ([], false)
request_search (message doc ∷ es) = let rest = request_search es in (some doc ∷ rest.0, rest.1)
request_search (eof ∷ es) = ([], true)
request_search (failed ∷ es) = let rest = request_search es in (none ∷ rest.0, rest.1)

-- decryptDocInfo: the document's number from its identifier.
unfoldable pub decrypt_doc_info : Option Bytes → Outcome ℕ
unfolding be_uint32
decrypt_doc_info e_doc = do encrypted_id ← deref e_doc; be_uint32 encrypted_id

-- The loop of sendFetchRequests on fuel. At the end of eDocs the break leaves the select only, so the
-- loop goes round again, on a channel that stays at its end.
unfoldable pub send_fetch_requests : ℕ → List (Option Bytes) → List ℕ → Outcome (List ℕ)
unfolding decrypt_doc_info
send_fetch_requests zero docs sent = blocked
send_fetch_requests (suc fuel) [] sent = send_fetch_requests fuel [] sent
send_fetch_requests (suc fuel) (doc ∷ docs) sent = do
  doc_id ← decrypt_doc_info doc
  send_fetch_requests fuel docs (sent ++ doc_id ∷ [])

-- clientDaemon.docKey: NewClientDaemon does not set it, and nothing else does, so it stays the array of
-- zeros.
abbrev pub daemon_doc_key : Bytes
daemon_doc_key = replicate key_size 0

-- decryptDoc, with the ciphers of snacl by their keys: a text that does not decrypt is nil.
unfoldable pub decrypt_doc : (Bytes → SecretKey) → CipherDoc → Bytes
decrypt_doc crypto_key doc = or_nil ((crypto_key daemon_doc_key).decrypt doc.encrypted_doc)

-- The goroutine behind the loop, over what Recv returns: what it sends over plainDocs before it closes
-- them. A nil document is dereferenced; behind the close this comes too late for Search, whose loop
-- the close ends.
unfoldable pub receive_docs :
    (Bytes → SecretKey) → List (Event CipherDoc) → List Bytes → Outcome (List Bytes)
unfolding decrypt_doc
receive_docs crypto_key [] plain_docs = blocked
receive_docs crypto_key (message doc ∷ es) plain_docs =
    receive_docs crypto_key es (plain_docs ++ decrypt_doc crypto_key doc ∷ [])
receive_docs crypto_key (eof ∷ es) plain_docs = done plain_docs
receive_docs crypto_key (failed ∷ es) plain_docs = panic

-- Search: it returns with what has come over plainDocs when they are closed. The goroutine that sends
-- them starts behind the loop of sendFetchRequests.
unfoldable pub search_docs :
    (Bytes → SecretKey) → ℕ → List (Event Bytes) → List (Event CipherDoc) → Outcome (List Bytes)
unfolding request_search send_fetch_requests receive_docs
search_docs crypto_key fuel infos docs = do
  sent ← send_fetch_requests fuel (request_search infos).0 []
  receive_docs crypto_key docs []
