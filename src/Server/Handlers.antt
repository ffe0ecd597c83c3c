-- ===== src/Server/Handlers.antt =====
-- The server's calls over whole streams.
use duck_duck_xor.Base.{ℕ, ◌≡◌, sym, ap, ◌∙◌}
use duck_duck_xor.Base.{true, false, Option, List, [], ◌∷◌, ◌++◌, map, append_assoc, append-nil}
use duck_duck_xor.Base.{Bytes}
use duck_duck_xor.Base.{done}
use duck_duck_xor.Bolt.{Bolt}
use duck_duck_xor.EncIndex.Tuple.{TsetFragment}
use duck_duck_xor.DocDb.{CipherDoc}
use duck_duck_xor.DocDb.Store.{read_request-empty}
use duck_duck_xor.Searcher.{TupleData}
use duck_duck_xor.Server.{
  Event, message, eof, failed, upload_t_set, keyword_search, served, fetch_documents,
}

-- The messages up to the end of a stream, past its failures.
unfoldable pub received {ℓ} : {A : Type ℓ} → List (Event A) → List A
received [] = []
received (message a ∷ es) = a ∷ received es
received (eof ∷ es) = []
received (failed ∷ es) = received es

-- The stream has an end.
abbrev pub Ends {ℓ} : {A : Type ℓ} → List (Event A) → Type 0
Ends [] = ⊥
Ends (message a ∷ es) = Ends es
Ends (eof ∷ es) = Unit {0}
Ends (failed ∷ es) = Ends es

pub upload_t_set-from :
    (es : List (Event TsetFragment)) (queued : List TsetFragment)
    → Ends es
    → upload_t_set es queued ≡ done (queued ++ received es)
unfolding upload_t_set received
upload_t_set-from [] queued h = absurd h
upload_t_set-from (message t ∷ es) queued h =
    upload_t_set-from es (queued ++ t ∷ []) h ∙ ap done (append_assoc queued (t ∷ []) (received es))
upload_t_set-from (eof ∷ es) queued h = ap done (sym (append-nil queued))
upload_t_set-from (failed ∷ es) queued h = upload_t_set-from es queued h

-- UploadTSet acknowledges a stream that ends, and has queued its fragments in order, none lost
-- behind a failure of Recv.
pub upload_t_set-received :
    (es : List (Event TsetFragment)) → Ends es → upload_t_set es [] ≡ done (received es)
upload_t_set-received es h = upload_t_set-from es [] h

module _ (D : Bolt) where
  fetch_documents-from :
      (db : D.Db) (ids : List ℕ) (rest : List (Event ℕ)) (sent : List CipherDoc)
      → fetch_documents D db (map message ids ++ eof ∷ rest) sent
        ≡ done (sent ++ map (λ i. record { doc_id = i; encrypted_doc = [] }) ids, served)
  unfolding fetch_documents
  fetch_documents-from db [] rest sent = ap (λ l. done (l, served)) (sym (append-nil sent))
  fetch_documents-from db (i ∷ ids) rest sent =
      let doc : CipherDoc = record { doc_id = i; encrypted_doc = [] } in
      rw (read_request-empty D i db, fetch_documents)
        (fetch_documents-from db ids rest (sent ++ doc ∷ [])
          ∙ ap (λ l. done (l, served)) (append_assoc sent (doc ∷ []) (map _ ids)))

  -- FetchDocuments serves any sequence of requests with no error, and sends an empty document for
  -- each, whatever is stored.
  pub fetch_documents-empty :
      (db : D.Db) (ids : List ℕ) (rest : List (Event ℕ))
      → fetch_documents D db (map message ids ++ eof ∷ rest) []
        ≡ done (map (λ i. record { doc_id = i; encrypted_doc = [] }) ids, served)
  fetch_documents-empty db ids rest = fetch_documents-from db ids rest []

-- KeywordSearch over a search that has answered and closed its channel, if every Send succeeds:
-- each identifier is sent, in order, and the search is not cancelled.
pub keyword_search-sends :
    (ts : List TupleData) (out : List (Option Bytes))
    → keyword_search [] ts true out ≡ done (out ++ map (λ t. t.e_id) ts, false)
unfolding keyword_search
keyword_search-sends [] out = ap (λ l. done (l, false)) (sym (append-nil out))
keyword_search-sends (t ∷ ts) out =
    keyword_search-sends ts (out ++ t.e_id ∷ [])
    ∙ ap (λ l. done (l, false)) (append_assoc out (t.e_id ∷ []) (map (λ u. u.e_id) ts))
