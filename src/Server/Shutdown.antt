-- ===== src/Server/Shutdown.antt =====
-- The goroutines of the server's components and their WaitGroup, from Start to the return of Stop:
-- documentDatabase of server/doc_db.go and encryptedIndexSearcher of server/encrypted_searcher.go. Every
-- request is taken to be handled in the end; how is left out.
pub mod Ends
pub mod Negative
use duck_duck_xor.Base.{
  ℕ, zero, suc, ◌+◌, ◌≡◌, Bool, true, false, List, [], ◌∷◌, ◌++◌, sum_by, replicate,
}
use duck_duck_xor.Searcher.Startup.{num_tset_writers}

-- A handler: before the meta data has come (tSetReader), at its select, with a request, behind its
-- loop, and done.
pub data RequestHandler : Type 0 where
  waiting_meta : RequestHandler
  selecting : RequestHandler
  handling : RequestHandler
  leaving : RequestHandler
  handler_done : RequestHandler

-- Stop: not called, at its Wait, and returned.
pub data Stop : Type 0 where
  not_called : Stop
  at_wait : Stop
  returned : Stop

-- A started component: whether quit is closed, the counter of its WaitGroup, its handlers, how many
-- requests they will still get, whether the meta data has come, and Stop.
pub record Component : Type 0 where
  pub quit : Bool
  pub wait_group : ℕ
  pub handlers : List RequestHandler
  pub requests : ℕ
  pub meta_received : Bool
  pub stop : Stop

-- The loop of Start over readHandler: `wg.Add(1)`, and the goroutine.
unfoldable pub start_read_handlers : ℕ → Component → Component
start_read_handlers zero c = c
start_read_handlers (suc n) c =
    start_read_handlers n
      (record c { wait_group = c.wait_group + 1; handlers = selecting ∷ c.handlers })

abbrev pub new_component : ℕ → Component
new_component requests = record {
  quit = false;
  wait_group = 0;
  handlers = [];
  requests = requests;
  meta_received = false;
  stop = not_called;
}

-- The first Start of a documentDatabase: the readers and one writer.
unfoldable pub start_document_database : (num_readers requests : ℕ) → Component
unfolding start_read_handlers
start_document_database num_readers requests =
    let c = start_read_handlers num_readers (new_component requests) in
    record c { wait_group = c.wait_group + 1; handlers = selecting ∷ c.handlers }

-- The first Start of an encryptedIndexSearcher without an index: writers and readers, and no Add.
unfoldable pub start_index_searcher : (num_readers requests : ℕ) → Component
start_index_searcher num_readers requests = record (new_component requests) {
  handlers = replicate num_readers waiting_meta ++ replicate num_tset_writers selecting;
}

pub data Step : Component → Component → Type 0 where
  -- LoadMetaData closes the channel that tSetReader waits for.
  receive_meta :
      (c : Component) → c.meta_received ≡ false → Step c (record c { meta_received = true })
  begin :
      (c : Component) (before after : List RequestHandler)
      → c.handlers ≡ before ++ waiting_meta ∷ after
      → c.meta_received ≡ true
      → Step c (record c { handlers = before ++ selecting ∷ after })
  -- A handler takes a request, and is back at its select.
  take_request :
      (c : Component) (before after : List RequestHandler) (k : ℕ)
      → c.handlers ≡ before ++ selecting ∷ after
      → c.requests ≡ suc k
      → Step c (record c { handlers = before ++ handling ∷ after; requests = k })
  answer :
      (c : Component) (before after : List RequestHandler)
      → c.handlers ≡ before ++ handling ∷ after
      → Step c (record c { handlers = before ++ selecting ∷ after })
  -- A handler finds quit closed.
  break_out :
      (c : Component) (before after : List RequestHandler)
      → c.handlers ≡ before ++ selecting ∷ after
      → c.quit ≡ true
      → Step c (record c { handlers = before ++ leaving ∷ after })
  -- `wg.Done()` on a positive counter.
  count_done :
      (c : Component) (before after : List RequestHandler) (k : ℕ)
      → c.handlers ≡ before ++ leaving ∷ after
      → c.wait_group ≡ suc k
      → Step c (record c { handlers = before ++ handler_done ∷ after; wait_group = k })
  -- The first Stop closes quit.
  close_quit :
      (c : Component) → c.stop ≡ not_called → Step c (record c { quit = true; stop = at_wait })
  -- `wg.Wait()` returns.
  wait_returns :
      (c : Component) → c.stop ≡ at_wait → c.wait_group ≡ 0 → Step c (record c { stop = returned })

-- `wg.Done()` on a counter of zero.
pub data Panics (c : Component) : Type 0 where
  negative_counter :
      (before after : List RequestHandler)
      → c.handlers ≡ before ++ leaving ∷ after
      → c.wait_group ≡ 0
      → Panics c

-- A handler that has not ended counts as one.
unfoldable pub handler_runs : RequestHandler → ℕ
handler_runs waiting_meta = 1
handler_runs selecting = 1
handler_runs handling = 1
handler_runs leaving = 1
handler_runs handler_done = 0

-- Stop has returned, and all handlers have ended.
pub record IsStopped (c : Component) : Type 0 where
  pub stop_returned : c.stop ≡ returned
  pub all_ended : sum_by handler_runs c.handlers ≡ 0
