-- ===== src/CorpusReader/Network/Reading.antt =====
-- What a running corpus reader keeps: what has been received and what is to come are the documents of
-- the visits, and an unreadable one that has been met is reported.
use duck_duck_xor.Base.{ℕ, ◌+◌, ◌≡◌, refl, sym, ap, ◌∙◌}
use duck_duck_xor.Base.{Bool, true, false, ◌&&◌, Option, List, [], ◌∷◌, ◌++◌, append_assoc, arith}
use duck_duck_xor.Base.{◌==◌}
use duck_duck_xor.Base.{length}
use duck_duck_xor.Base.{Bytes}
use mathlib.Core.Bool.{and-false}
use duck_duck_xor.Preprocess.{Document}
use duck_duck_xor.CorpusReader.{Visit, next_doc_id, document_reader}
use duck_duck_xor.CorpusReader.Network.{
  Walker, walking, sending_path, closing_paths, ending_walk, walker_done, Reader, selecting,
  opening, aborting, sending_doc, closing_docs, ending_read, reader_done, Walk, paths_closed,
  start_walk, Step, visit_file, visit_dir, end_visits, close_paths, end_walker, send_path,
  open_path, open_error, report_error, send_doc, end_paths, close_docs, end_reader,
}
use duck_duck_xor.ErrorHandler.{new_error_handler, collect_stop_funcs}
use duck_duck_xor.ErrorHandler.Stop.{NilFirst, new_error_handler-NilFirst, abort-reports}
use duck_duck_xor.CorpusReader.Network.Files.{files, ahead, closed-ahead, opens, all_readable}

unfoldable pub walker_runs : Walker → ℕ
walker_runs walking = 1
walker_runs (sending_path p) = 1
walker_runs closing_paths = 1
walker_runs ending_walk = 1
walker_runs walker_done = 0

unfoldable pub reader_runs : Reader → ℕ
reader_runs selecting = 1
reader_runs (opening p) = 1
reader_runs (aborting p) = 1
reader_runs (sending_doc d) = 1
reader_runs closing_docs = 1
reader_runs ending_read = 1
reader_runs reader_done = 0

-- The loop of DocumentReader has ended.
unfoldable pub is_over : Reader → Bool
is_over selecting = false
is_over (opening p) = false
is_over (aborting p) = false
is_over (sending_doc d) = false
is_over closing_docs = true
is_over ending_read = true
is_over reader_done = true

module _ (open_file : Bytes → Option Bytes) where
  unfoldable pub walker_ok : Walker → List Visit → Bool
  unfolding all_readable
  walker_ok walking vs = all_readable open_file vs
  walker_ok (sending_path p) vs = opens open_file p && all_readable open_file vs
  walker_ok closing_paths vs = true
  walker_ok ending_walk vs = true
  walker_ok walker_done vs = true

  unfoldable pub reader_ok : Reader → Bool
  reader_ok selecting = true
  reader_ok (opening p) = opens open_file p
  reader_ok (aborting p) = false
  reader_ok (sending_doc d) = true
  reader_ok closing_docs = true
  reader_ok ending_read = true
  reader_ok reader_done = true

  -- What DocumentReader still sends, if these paths arrive.
  unfoldable pub upcoming : Reader → ℕ → List Bytes → List Document
  unfolding document_reader
  upcoming selecting n ps = document_reader open_file n ps
  upcoming (opening p) n ps = document_reader open_file n (p ∷ ps)
  upcoming (aborting p) n ps =
      record { content = []; position = 0; doc_id = next_doc_id n; faulty = true }
      ∷ document_reader open_file (next_doc_id n) ps
  upcoming (sending_doc d) n ps = d ∷ document_reader open_file n ps
  upcoming closing_docs n ps = []
  upcoming ending_read n ps = []
  upcoming reader_done n ps = []

  module _ {F E : Type 0} where
    -- Nothing unreadable has been met or is still to come, and no error is reported.
    unfoldable pub all_ok : Walk F E → Bool
    unfolding walker_ok reader_ok
    all_ok s =
        (length s.handler.message == 0) && (reader_ok s.reader && walker_ok s.walker s.visits)

    -- What the goroutines have from `docs` at the start, of which everything is readable or not.
    pub record IsReading (docs : List Document) (readable : Bool) (s : Walk F E) : Type 0 where
      pub in_order : s.received ++ upcoming s.reader s.doc_id (ahead s.walker s.visits) ≡ docs
      pub counts : s.wait_group ≡ walker_runs s.walker + reader_runs s.reader
      pub over : is_over s.reader ≡ true → paths_closed s.walker ≡ true
      pub nil_first : NilFirst s.handler
      pub ok : all_ok s ≡ readable

    module _ (docs : List Document) (readable : Bool) where
      -- A step of the walker alone.
      moved_walker :
          (s : Walk F E) (x : Walker) (vs : List Visit) (k : ℕ)
          → ahead s.walker s.visits ≡ ahead x vs
          → walker_ok s.walker s.visits ≡ walker_ok x vs
          → k + walker_runs s.walker ≡ s.wait_group + walker_runs x
          → (paths_closed s.walker ≡ true → paths_closed x ≡ true)
          → IsReading docs readable s
          → IsReading docs readable (record s { visits = vs; walker = x; wait_group = k })
      unfolding all_ok
      moved_walker s x vs k same ok runs closed is = record {
        in_order = sym (ap (λ l. s.received ++ upcoming s.reader s.doc_id l) same) ∙ is.in_order;
        counts = omega (arith, is.counts, runs);
        over = λ h. closed (is.over h);
        nil_first = is.nil_first;
        ok =
            sym (ap (λ b. (length s.handler.message == 0) && (reader_ok s.reader && b)) ok) ∙ is.ok;
      }

      -- A step of the reader alone.
      moved_reader :
          (s : Walk F E) (x : Reader) (n k : ℕ) (ds : List Document)
          → ((ps : List Bytes)
              → ps ≡ ahead s.walker s.visits
              → s.received ++ upcoming s.reader s.doc_id ps ≡ ds ++ upcoming x n ps)
          → reader_ok s.reader ≡ reader_ok x
          → k + reader_runs s.reader ≡ s.wait_group + reader_runs x
          → (is_over x ≡ true → paths_closed s.walker ≡ true)
          → IsReading docs readable s
          → IsReading docs readable
              (record s { reader = x; doc_id = n; wait_group = k; received = ds })
      unfolding all_ok
      moved_reader s x n k ds same ok runs over is = record {
        in_order = sym (same _ refl) ∙ is.in_order;
        counts = omega (arith, is.counts, runs);
        over = over;
        nil_first = is.nil_first;
        ok =
            sym (ap (λ b. (length s.handler.message == 0) && (b && walker_ok s.walker s.visits)) ok)
            ∙ is.ok;
      }

      pub Step-IsReading :
          (error_of : Bytes → E) (s s' : Walk F E)
          → Step open_file error_of s s'
          → IsReading docs readable s
          → IsReading docs readable s'
      unfolding all_ok opens walker_ok reader_ok all_readable upcoming ahead files document_reader
          walker_runs reader_runs is_over paths_closed
      Step-IsReading error_of _ _ (visit_file s v vs w e i) is =
          moved_walker s (sending_path v.path) vs s.wait_group (rw (w, e, i)) (rw (w, e, i)) (rw w)
            (λ h. absurd (ground (arith, w, h))) is
      Step-IsReading error_of _ _ (visit_dir s v vs w e i) is =
          moved_walker s s.walker vs s.wait_group (rw (w, e, i)) (rw (w, e, i)) refl (λ h. h) is
      Step-IsReading error_of _ _ (end_visits s w e) is =
          moved_walker s closing_paths s.visits s.wait_group (rw (w, e)) (rw (w, e)) (rw w)
            (λ h. absurd (ground (arith, w, h))) is
      Step-IsReading error_of _ _ (close_paths s w) is =
          moved_walker s ending_walk s.visits s.wait_group (rw w) (rw w) (rw w) (λ h. refl) is
      Step-IsReading error_of _ _ (end_walker s k w g) is =
          moved_walker s walker_done s.visits k (rw w) (rw w) (rw (w, g) (omega arith)) (λ h. refl)
            is
      Step-IsReading error_of _ _ (send_path s p w r) is = record {
        in_order =
            sym (λ i. s.received ++ upcoming (r i) s.doc_id (ahead (w i) s.visits)) ∙ is.in_order;
        counts = omega (arith, is.counts, ap walker_runs w, ap reader_runs r);
        over = λ h. absurd (ground arith);
        nil_first = is.nil_first;
        ok =
            sym (λ i.
              (length s.handler.message == 0) && (reader_ok (r i) && walker_ok (w i) s.visits))
            ∙ is.ok;
      }
      Step-IsReading error_of _ _ (open_path s p c r o) is =
          moved_reader s _ _ s.wait_group s.received (λ ps e. rw (r, o))
            (rw (r, reader_ok, opens, o)) (rw r) (λ h. absurd (ground arith)) is
      Step-IsReading error_of _ _ (open_error s p r o) is =
          moved_reader s (aborting p) s.doc_id s.wait_group s.received (λ ps e. rw (r, o))
            (rw (r, reader_ok, opens, o)) (rw r) (λ h. absurd (ground arith)) is
      Step-IsReading error_of _ _ (report_error s p h r a) is =
          let (funcs, message) = abort-reports (error_of p) s.handler h a in
          let before : all_ok s ≡ false = rw r (and-false _) in
          record {
            in_order =
                sym (ap (λ x. s.received ++ upcoming x s.doc_id (ahead s.walker s.visits)) r)
                ∙ is.in_order;
            counts = omega (arith, is.counts, ap reader_runs r);
            over = λ h. absurd (ground arith);
            nil_first = (is.nil_first.0, funcs ∙ is.nil_first.1);
            ok = rw message (sym before ∙ is.ok);
          }
      Step-IsReading error_of _ _ (send_doc s d r) is =
          moved_reader s selecting s.doc_id s.wait_group (s.received ++ d ∷ [])
            (λ ps e. rw r (sym (append_assoc s.received (d ∷ []) _))) (rw r) (rw r)
            (λ h. absurd (ground arith)) is
      Step-IsReading error_of _ _ (end_paths s r c) is =
          moved_reader s closing_docs s.doc_id s.wait_group s.received
            (λ ps e. rw (r, e ∙ closed-ahead s.walker s.visits c)) (rw r) (rw r) (λ h. c) is
      Step-IsReading error_of _ _ (close_docs s r) is =
          moved_reader s ending_read s.doc_id s.wait_group s.received (λ ps e. rw r) (rw r) (rw r)
            (λ h. is.over (rw r)) is
      Step-IsReading error_of _ _ (end_reader s k r g) is =
          moved_reader s reader_done s.doc_id k s.received (λ ps e. rw r) (rw r)
            (rw (r, g) (omega arith)) (λ h. is.over (rw r)) is

      -- The state behind Start.
      pub start-IsReading :
          (fs : List F) (visits : List Visit)
          → document_reader open_file 0 (files visits) ≡ docs
          → all_readable open_file visits ≡ readable
          → IsReading docs readable (start_walk (collect_stop_funcs fs new_error_handler) visits)
      unfolding start_walk all_ok walker_ok reader_ok upcoming ahead walker_runs reader_runs is_over
      start-IsReading fs visits same ok =
          let (nil_first, empty) = new_error_handler-NilFirst {F = F} {E = E} fs in
          record {
            in_order = same;
            counts = refl;
            over = λ h. absurd (ground arith);
            nil_first = nil_first;
            ok = rw empty ok;
          }
