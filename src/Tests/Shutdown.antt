-- ===== src/Tests/Shutdown.antt =====
-- The server's components with twelve readers and two requests.
use duck_duck_xor.Base.{Inevitably}
use duck_duck_xor.Server.Shutdown.{
  Step, Panics, IsStopped, start_document_database, start_index_searcher,
}
use duck_duck_xor.Server.Shutdown.Ends.{start_document_database-Inevitably}
use duck_duck_xor.Server.Shutdown.Negative.{start_index_searcher-Inevitably}

start_document_database-Inevitably_example :
    Inevitably Step Panics IsStopped (start_document_database 12 2)
start_document_database-Inevitably_example = start_document_database-Inevitably 12 2

start_index_searcher-Inevitably_example :
    Inevitably Step (λ c. ⊥) Panics (start_index_searcher 12 2)
start_index_searcher-Inevitably_example = start_index_searcher-Inevitably 12 2
