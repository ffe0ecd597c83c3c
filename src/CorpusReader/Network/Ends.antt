-- ===== src/CorpusReader/Network/Ends.antt =====
-- Every run of the corpus reader sends all files, or the client crashes.
use duck_duck_xor.Base.{◌≡◌, refl, sym, ap, ◌∙◌, inl, inr}
use duck_duck_xor.Base.{Bool, true, false, ◌&&◌, Option, List, [], ◌++◌, append-nil, arith}
use duck_duck_xor.Base.{◌==◌}
use duck_duck_xor.Base.{Inevitably, Ends-Inevitably, List-cases, length}
use duck_duck_xor.Base.{Bytes}
use duck_duck_xor.Base.{done}
use duck_duck_xor.Preprocess.{Document}
use duck_duck_xor.CorpusReader.{Visit, document_reader, directory_walker}
use duck_duck_xor.CorpusReader.Network.{
  walker_done, reader_done, Walk, start_walk, Step, Panics, nil_info, handler_panics,
  negative_walker, negative_reader,
}
use duck_duck_xor.ErrorHandler.{new_error_handler, collect_stop_funcs, handle_errors}
use duck_duck_xor.ErrorHandler.Stop.{NilFirst-handle_errors}
use duck_duck_xor.CorpusReader.Network.Files.{files, ahead, all_readable, directory_walker-files}
use duck_duck_xor.CorpusReader.Network.Reading.{
  walker_runs, reader_runs, walker_ok, reader_ok, upcoming, all_ok, IsReading, Step-IsReading,
  start-IsReading,
}
use duck_duck_xor.CorpusReader.Network.Progress.{Step-steps_left, reader-moves}

all_three : (a b c : Bool) → (a && (b && c)) ≡ true → (a ≡ true) × (c ≡ true)
all_three true true c h = (refl, h)
all_three true false c h = absurd (ground arith)
all_three false b c h = absurd (ground arith)

module _ (open_file : Bytes → Option Bytes) {F E : Type 0} (error_of : Bytes → E) where
  -- DirectoryWalker and DocumentReader have ended without an error, Wg is at zero, and the documents of
  -- the paths have been received in order.
  pub record AllSent (paths : List Bytes) (s : Walk F E) : Type 0 where
    pub every_doc : s.received ≡ document_reader open_file 0 paths
    pub walker_ended : s.walker ≡ walker_done
    pub reader_ended : s.reader ≡ reader_done
    pub none_waits : s.wait_group ≡ 0
    pub no_error : s.handler.message ≡ []

  -- With everything readable, nothing is reported, and what the walker has is readable.
  nothing_reported :
      (docs : List Document) (s : Walk F E)
      → IsReading open_file docs true s
      → (s.handler.message ≡ []) × (walker_ok open_file s.walker s.visits ≡ true)
  unfolding all_ok
  nothing_reported docs s is =
      let (free, walks) =
        all_three (length s.handler.message == 0) (reader_ok open_file s.reader)
          (walker_ok open_file s.walker s.visits) is.ok in
      elim (List-cases s.handler.message) [
        | inl empty ↦ (empty, walks)
        | inr (err, more, full) ↦ absurd (ground (arith, free, full))
      ]

  readable-safe :
      (docs : List Document) (s : Walk F E) → IsReading open_file docs true s → ¬ Panics s
  unfolding all_ok walker_ok all_readable walker_runs reader_runs handle_errors
  readable-safe docs s is (nil_info v vs w e i) =
      let walks = (nothing_reported docs s is).1 in
      absurd (ground (arith, (rw (w, walker_ok, e, all_readable, i) at walks)))
  readable-safe docs s is (handler_panics h) =
      absurd (ground (arith, (rw (nothing_reported docs s is).0 at h)))
  readable-safe docs s is (negative_walker w g) = omega (arith, is.counts, ap walker_runs w)
  readable-safe docs s is (negative_reader r g) = omega (arith, is.counts, ap reader_runs r)

  finished :
      (paths : List Bytes) (s : Walk F E)
      → IsReading open_file (document_reader open_file 0 paths) true s
      → s.walker ≡ walker_done
      → s.reader ≡ reader_done
      → AllSent paths s
  unfolding upcoming all_ok walker_runs reader_runs
  finished paths s is walked read = record {
    every_doc =
        sym (append-nil s.received)
        ∙ sym (ap (λ y. s.received ++ upcoming open_file y s.doc_id (ahead s.walker s.visits)) read)
        ∙ is.in_order;
    walker_ended = walked;
    reader_ended = read;
    none_waits = omega (arith, is.counts, ap walker_runs walked, ap reader_runs read);
    no_error = (nothing_reported _ s is).0;
  }

  -- With something unreadable, an error has been reported at the end.
  reported :
      (docs : List Document) (s : Walk F E)
      → IsReading open_file docs false s
      → s.walker ≡ walker_done
      → s.reader ≡ reader_done
      → Panics s
  unfolding all_ok walker_ok reader_ok
  reported docs s is walked read = elim (List-cases s.handler.message) [
    | inl free ↦ absurd (ground (arith, (rw (free, read, walked) at is.ok)))
    | inr (err, more, full) ↦
        handler_panics (NilFirst-handle_errors s.handler err more is.nil_first full)
  ]

  -- If Walk looks up every path and every file opens, whatever stop functions the error handler has:
  -- the walker sends the paths, and every run, whatever the order of its steps, comes without a panic
  -- and without a deadlock to an end of both goroutines where the documents of the paths have been
  -- received in order, with their identifiers, and nothing was reported.
  pub start_walk-AllSent :
      (fs : List F) (visits : List Visit)
      → all_readable open_file visits ≡ true
      → (paths : List Bytes) × (directory_walker visits ≡ done paths)
        × Inevitably
            (Step open_file error_of)
            Panics
            (AllSent paths)
            (start_walk (collect_stop_funcs fs new_error_handler) visits)
  start_walk-AllSent fs visits ok = (
    files visits,
    directory_walker-files open_file visits ok,
    Ends-Inevitably (Step open_file error_of) Panics (AllSent (files visits))
        (record {
          keeps =
              Step-IsReading open_file (document_reader open_file 0 (files visits)) true error_of;
          less = Step-steps_left open_file error_of;
          safe = readable-safe (document_reader open_file 0 (files visits));
          moves = λ s is. elim (reader-moves open_file error_of _ true s s.reader refl is) [
            | inl (inl move) ↦ inl move
            | inl (inr panics) ↦ absurd (readable-safe _ s is panics)
            | inr (walked, read) ↦ inr (finished (files visits) s is walked read)
          ];
        })
        _ (start-IsReading open_file _ true fs visits refl ok),
  )

  -- If Walk cannot look up a path, or a file that it visits does not open, whatever stop functions the
  -- error handler has: every run, whatever the order of its steps, comes to a panic of a goroutine.
  pub start_walk-Panics :
      (fs : List F) (visits : List Visit)
      → all_readable open_file visits ≡ false
      → Inevitably
          (Step open_file error_of)
          (λ s. ⊥)
          Panics
          (start_walk (collect_stop_funcs fs new_error_handler) visits)
  start_walk-Panics fs visits bad =
      Ends-Inevitably (Step open_file error_of) (λ s. ⊥) Panics
        (record {
          keeps =
              Step-IsReading open_file (document_reader open_file 0 (files visits)) false error_of;
          less = Step-steps_left open_file error_of;
          safe = λ s is h. h;
          moves = λ s is. elim (reader-moves open_file error_of _ false s s.reader refl is) [
            | inl go ↦ go
            | inr (walked, read) ↦ inr (reported _ s is walked read)
          ];
        })
        _ (start-IsReading open_file _ false fs visits refl bad)
