-- ===== src/Tests/Documents.antt =====
-- The document store, the server's handlers and the preprocessor.
use duck_duck_xor.Base.{◌≡◌, refl}
use duck_duck_xor.Base.{false, [], ◌∷◌, ◌++◌, map}
use duck_duck_xor.Base.{drop}
use duck_duck_xor.Base.{Bytes}
use duck_duck_xor.Base.{done}
use duck_duck_xor.Bolt.Toy.{empty, toy_bolt}
use duck_duck_xor.DocDb.{CipherDoc, write_handler}
use duck_duck_xor.DocDb.Store.{IsDocs}
use duck_duck_xor.Server.{message, eof, served, fetch_documents}
use duck_duck_xor.Server.Handlers.{fetch_documents-empty}
use duck_duck_xor.Tests.Data.{ascii}
use duck_duck_xor.Preprocess.{Document, parse_text, partition_document, contains}
use duck_duck_xor.Preprocess.Partition.{AllDistinct, partition_document-copies}

abbrev doc1 : CipherDoc
doc1 = record { doc_id = 1; encrypted_doc = 5 ∷ 6 ∷ [] }

abbrev doc2 : CipherDoc
doc2 = record { doc_id = 2; encrypted_doc = 7 ∷ [] }

empty-IsDocs : IsDocs toy_bolt empty
empty-IsDocs = record { root_free = refl; no_buckets = λ k. refl }

abbrev stored : toy_bolt.Db
stored = write_handler toy_bolt (doc1 ∷ doc2 ∷ []) empty

fetch_documents-empty_example :
    fetch_documents toy_bolt stored (map message (1 ∷ 2 ∷ []) ++ eof ∷ []) []
    ≡ done (map (λ i. record { doc_id = i; encrypted_doc = [] }) (1 ∷ 2 ∷ []), served)
fetch_documents-empty_example = fetch_documents-empty toy_bolt stored (1 ∷ 2 ∷ []) []

abbrev text : Bytes
text = b'D' ∷ b'u' ∷ b'c' ∷ b'k' ∷ b' ' ∷ b'd' ∷ b'u' ∷ b'c' ∷ b'k' ∷ b'!' ∷ []

abbrev document : Document
document = record { content = text; position = 0; doc_id = 1; faulty = false }

partition_document-copies_example :
    (let r = partition_document ascii document in
      (r.tf_out ≡ parse_text ascii (drop 0 text))
      × AllDistinct r.inv_index_out.words
      × ((w : Bytes) → contains w r.inv_index_out.words ≡ contains w r.tf_out))
partition_document-copies_example = partition_document-copies ascii document
