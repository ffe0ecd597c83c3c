-- ===== src/CorpusReader/Network/Progress.antt =====
-- Every step of a corpus reader leaves less to do, and before its end it has one or panics.
use duck_duck_xor.Base.{ℕ, ◌+◌, ◌*◌, ◌<◌, ◌≡◌, refl, ap, ◌⊎◌, inl, inr}
use duck_duck_xor.Base.{Bool, true, false, Option, List, [], ◌∷◌, arith}
use duck_duck_xor.Base.{Option-cases}
use duck_duck_xor.Base.{List-cases, length}
use duck_duck_xor.Base.{Bytes}
use duck_duck_xor.Preprocess.{Document}
use duck_duck_xor.CorpusReader.Network.{
  Walker, walking, sending_path, closing_paths, ending_walk, walker_done, Reader, selecting,
  opening, aborting, sending_doc, closing_docs, ending_read, reader_done, Walk, paths_closed, Step,
  visit_file, visit_dir, end_visits, close_paths, end_walker, send_path, open_path, open_error,
  report_error, send_doc, end_paths, close_docs, end_reader, Panics, nil_info, handler_panics,
}
use duck_duck_xor.ErrorHandler.{abort}
use duck_duck_xor.ErrorHandler.Stop.{NilFirst-handle_errors}
use duck_duck_xor.CorpusReader.Network.Reading.{walker_runs, reader_runs, is_over, IsReading}

unfoldable walker_left : Walker → ℕ
walker_left walking = 3
walker_left (sending_path p) = 8
walker_left closing_paths = 2
walker_left ending_walk = 1
walker_left walker_done = 0

unfoldable reader_left : Reader → ℕ
reader_left selecting = 3
reader_left (opening p) = 6
reader_left (aborting p) = 5
reader_left (sending_doc d) = 4
reader_left closing_docs = 2
reader_left ending_read = 1
reader_left reader_done = 0

module _ (open_file : Bytes → Option Bytes) {F E : Type 0} (error_of : Bytes → E) where
  unfoldable pub steps_left : Walk F E → ℕ
  unfolding walker_left reader_left
  steps_left s = 6 * length s.visits + walker_left s.walker + reader_left s.reader

  pub Step-steps_left :
      (s s' : Walk F E) → Step open_file error_of s s' → steps_left s' < steps_left s
  unfolding steps_left walker_left reader_left
  Step-steps_left _ _ (visit_file s v vs w e i) = omega (arith, ap length e, ap walker_left w)
  Step-steps_left _ _ (visit_dir s v vs w e i) = omega (arith, ap length e, ap walker_left w)
  Step-steps_left _ _ (end_visits s w e) = omega (arith, ap walker_left w)
  Step-steps_left _ _ (close_paths s w) = omega (arith, ap walker_left w)
  Step-steps_left _ _ (end_walker s k w g) = omega (arith, ap walker_left w)
  Step-steps_left _ _ (send_path s p w r) = omega (arith, ap walker_left w, ap reader_left r)
  Step-steps_left _ _ (open_path s p c r o) = omega (arith, ap reader_left r)
  Step-steps_left _ _ (open_error s p r o) = omega (arith, ap reader_left r)
  Step-steps_left _ _ (report_error s p h r a) = omega (arith, ap reader_left r)
  Step-steps_left _ _ (send_doc s d r) = omega (arith, ap reader_left r)
  Step-steps_left _ _ (end_paths s r c) = omega (arith, ap reader_left r)
  Step-steps_left _ _ (close_docs s r) = omega (arith, ap reader_left r)
  Step-steps_left _ _ (end_reader s k r g) = omega (arith, ap reader_left r)

  abbrev pub CanStep : Walk F E → Type 0
  CanStep s = (s' : Walk F E) × Step open_file error_of s s'

  module _ (docs : List Document) (readable : Bool) where
    walker_ends :
        (s : Walk F E) → IsReading open_file docs readable s → s.walker ≡ ending_walk → CanStep s
    unfolding walker_runs
    walker_ends s is e =
        (_, end_walker s (reader_runs s.reader) e (omega (arith, is.counts, ap walker_runs e)))

    -- While the reader is at its select.
    walker-moves :
        (s : Walk F E) (x : Walker)
        → s.walker ≡ x
        → s.reader ≡ selecting
        → IsReading open_file docs readable s
        → CanStep s ⊎ Panics s
    unfolding paths_closed
    walker-moves s walking e r is = elim (List-cases s.visits) [
      | inl gone ↦ inl (_, end_visits s e gone)
      | inr (v, vs, more) ↦ elim (Option-cases v.info) [
        | inl nil ↦ inr (nil_info v vs e more nil)
        | inr (true, dir) ↦ inl (_, visit_dir s v vs e more dir)
        | inr (false, file) ↦ inl (_, visit_file s v vs e more file)
      ]
    ]
    walker-moves s (sending_path p) e r is = inl (_, send_path s p e r)
    walker-moves s closing_paths e r is = inl (_, close_paths s e)
    walker-moves s ending_walk e r is = inl (walker_ends s is e)
    walker-moves s walker_done e r is = inl (_, end_paths s r (rw e))

    -- When the reader has ended.
    walker-last :
        (s : Walk F E) (x : Walker)
        → s.walker ≡ x
        → paths_closed s.walker ≡ true
        → IsReading open_file docs readable s
        → CanStep s ⊎ (s.walker ≡ walker_done)
    unfolding paths_closed
    walker-last s walking e closed is = absurd (ground (arith, e, closed))
    walker-last s (sending_path p) e closed is = absurd (ground (arith, e, closed))
    walker-last s closing_paths e closed is = absurd (ground (arith, e, closed))
    walker-last s ending_walk e closed is = inl (walker_ends s is e)
    walker-last s walker_done e closed is = inr e

    pub reader-moves :
        (s : Walk F E) (y : Reader)
        → s.reader ≡ y
        → IsReading open_file docs readable s
        → (CanStep s ⊎ Panics s) ⊎ ((s.walker ≡ walker_done) × (s.reader ≡ reader_done))
    unfolding reader_runs is_over abort
    reader-moves s selecting e is = inl (walker-moves s s.walker refl e is)
    reader-moves s (opening p) e is = elim (Option-cases (open_file p)) [
      | inl fails ↦ inl (inl (_, open_error s p e fails))
      | inr (content, opened) ↦ inl (inl (_, open_path s p content e opened))
    ]
    reader-moves s (aborting p) e is = elim (List-cases s.handler.message) [
      | inl free ↦
          inl
            (inl (_, report_error s p (record s.handler { message = error_of p ∷ [] }) e (rw free)))
      | inr (err, more, full) ↦
          inl (inr (handler_panics (NilFirst-handle_errors s.handler err more is.nil_first full)))
    ]
    reader-moves s (sending_doc d) e is = inl (inl (_, send_doc s d e))
    reader-moves s closing_docs e is = inl (inl (_, close_docs s e))
    reader-moves s ending_read e is = inl (
        inl
          ((_, end_reader s (walker_runs s.walker) e (omega (arith, is.counts, ap reader_runs e)))))
    reader-moves s reader_done e is = elim (walker-last s s.walker refl (is.over (rw e)) is) [
      | inl move ↦ inl (inl move)
      | inr over ↦ inr (over, e)
    ]
