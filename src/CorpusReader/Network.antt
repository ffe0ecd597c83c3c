-- ===== src/CorpusReader/Network.antt =====
-- The goroutines of a started CorpusReader, client_proxy/corpus_reader.go: DirectoryWalker and
-- DocumentReader with the channel between them, c.Wg, and the error handler that an unreadable file
-- reaches by abort. The preprocessor receives every document. No goroutine closes c.quit: Stop closes
-- nothing once Start has been called.
pub mod Files
pub mod Reading
pub mod Progress
pub mod Ends
use duck_duck_xor.Base.{
  ℕ, suc, ◌≡◌, Bool, true, false, Option, none, some, List, [], ◌∷◌, ◌++◌, Bytes, panic,
}
use duck_duck_xor.Keys.Setup.{or_nil}
use duck_duck_xor.Preprocess.{Document}
use duck_duck_xor.CorpusReader.{Visit, next_doc_id}
use duck_duck_xor.ErrorHandler.{Handler, abort, handle_errors}

-- DirectoryWalker: in Walk, at its send, behind Walk, behind the close, and done.
pub data Walker : Type 0 where
  walking : Walker
  sending_path : Bytes → Walker
  closing_paths : Walker
  ending_walk : Walker
  walker_done : Walker

-- DocumentReader: at its select, at os.Open, at the abort for its error, at its send, behind its loop,
-- behind the close, and done.
pub data Reader : Type 0 where
  selecting : Reader
  opening : Bytes → Reader
  aborting : Bytes → Reader
  sending_doc : Document → Reader
  closing_docs : Reader
  ending_read : Reader
  reader_done : Reader

-- The visits that Walk still makes, the two goroutines, nextDocId, c.Wg, the error handler, and what
-- has been received from DocOut. A channel is closed when its goroutine is behind the close.
pub record Walk (F E : Type 0) : Type 0 where
  pub visits : List Visit
  pub walker : Walker
  pub reader : Reader
  pub doc_id : ℕ
  pub wait_group : ℕ
  pub handler : Handler F E
  pub received : List Document

-- outPaths is closed.
unfoldable pub paths_closed : Walker → Bool
paths_closed walking = false
paths_closed (sending_path p) = false
paths_closed closing_paths = false
paths_closed ending_walk = true
paths_closed walker_done = true

module _ {F E : Type 0} where
  -- CorpusReader.Start for the first time, with the error handler that is there.
  unfoldable pub start_walk : Handler F E → List Visit → Walk F E
  start_walk handler visits = record {
    visits = visits;
    walker = walking;
    reader = selecting;
    doc_id = 0;
    wait_group = 2;
    handler = handler;
    received = [];
  }

  -- `open_file` is os.Open, as for document_reader, and `error_of` the error that it returns.
  pub data Step (open_file : Bytes → Option Bytes) (error_of : Bytes → E)
      : Walk F E → Walk F E → Type 0 where
    visit_file :
        (s : Walk F E) (v : Visit) (vs : List Visit)
        → s.walker ≡ walking
        → s.visits ≡ v ∷ vs
        → v.info ≡ some false
        → Step open_file error_of s (record s { visits = vs; walker = sending_path v.path })
    visit_dir :
        (s : Walk F E) (v : Visit) (vs : List Visit)
        → s.walker ≡ walking
        → s.visits ≡ v ∷ vs
        → v.info ≡ some true
        → Step open_file error_of s (record s { visits = vs })
    end_visits :
        (s : Walk F E)
        → s.walker ≡ walking
        → s.visits ≡ []
        → Step open_file error_of s (record s { walker = closing_paths })
    close_paths :
        (s : Walk F E)
        → s.walker ≡ closing_paths
        → Step open_file error_of s (record s { walker = ending_walk })
    end_walker :
        (s : Walk F E) (k : ℕ)
        → s.walker ≡ ending_walk
        → s.wait_group ≡ suc k
        → Step open_file error_of s (record s { walker = walker_done; wait_group = k })
    send_path :
        (s : Walk F E) (path : Bytes)
        → s.walker ≡ sending_path path
        → s.reader ≡ selecting
        → Step open_file error_of s (record s { walker = walking; reader = opening path })
    open_path :
        (s : Walk F E) (path content : Bytes)
        → s.reader ≡ opening path
        → open_file path ≡ some content
        → Step open_file error_of s (record s {
          doc_id = next_doc_id s.doc_id;
          reader = sending_doc (record {
            content = content;
            position = 0;
            doc_id = next_doc_id s.doc_id;
            faulty = false;
          });
        })
    open_error :
        (s : Walk F E) (path : Bytes)
        → s.reader ≡ opening path
        → open_file path ≡ none
        → Step open_file error_of s (record s { reader = aborting path })
    -- The abort comes back, and the loop goes on with a nil file.
    report_error :
        (s : Walk F E) (path : Bytes) (handler : Handler F E)
        → s.reader ≡ aborting path
        → abort false (error_of path) s.handler ≡ handler ∷ []
        → Step open_file error_of s (record s {
          handler = handler;
          doc_id = next_doc_id s.doc_id;
          reader = sending_doc (record {
            content = or_nil none;
            position = 0;
            doc_id = next_doc_id s.doc_id;
            faulty = true;
          });
        })
    send_doc :
        (s : Walk F E) (doc : Document)
        → s.reader ≡ sending_doc doc
        → Step open_file error_of s
            (record s { received = s.received ++ doc ∷ []; reader = selecting })
    end_paths :
        (s : Walk F E)
        → s.reader ≡ selecting
        → paths_closed s.walker ≡ true
        → Step open_file error_of s (record s { reader = closing_docs })
    close_docs :
        (s : Walk F E)
        → s.reader ≡ closing_docs
        → Step open_file error_of s (record s { reader = ending_read })
    end_reader :
        (s : Walk F E) (k : ℕ)
        → s.reader ≡ ending_read
        → s.wait_group ≡ suc k
        → Step open_file error_of s (record s { reader = reader_done; wait_group = k })

  -- IsDir of a nil os.FileInfo, the error handler on its next message, or `Done` on a counter of zero.
  pub data Panics (s : Walk F E) : Type 0 where
    nil_info :
        (v : Visit) (vs : List Visit)
        → s.walker ≡ walking
        → s.visits ≡ v ∷ vs
        → v.info ≡ none
        → Panics s
    handler_panics : handle_errors s.handler ≡ panic → Panics s
    negative_walker : s.walker ≡ ending_walk → s.wait_group ≡ 0 → Panics s
    negative_reader : s.reader ≡ ending_read → s.wait_group ≡ 0 → Panics s
