-- ===== src/Tests/Client.antt =====
-- A search on the client.
use duck_duck_xor.Base.{◌≢◌}
use duck_duck_xor.Base.{List, [], ◌∷◌, ◌++◌}
use duck_duck_xor.Base.{replicate}
use duck_duck_xor.Base.{Bytes}
use duck_duck_xor.Base.{done}
use duck_duck_xor.DocDb.{CipherDoc}
use duck_duck_xor.Server.{Event, message, eof}
use duck_duck_xor.Client.{search_docs}
use duck_duck_xor.Client.Search.{search_docs-never_done}
use duck_duck_xor.Tests.Data.{xor, secret}

-- The server answers with one identifier of four bytes, and one document.
abbrev infos : List (Event Bytes)
infos = message (0 ∷ 0 ∷ 0 ∷ 1 ∷ []) ∷ eof ∷ []

abbrev docs : List (Event CipherDoc)
docs = message (record { doc_id = 1; encrypted_doc = replicate 40 0 ++ xor }) ∷ eof ∷ []

search_docs-never_done_example : search_docs (λ key. secret) 100 infos docs ≢ done (xor ∷ [])
search_docs-never_done_example = search_docs-never_done (λ key. secret) 100 infos docs (xor ∷ [])
