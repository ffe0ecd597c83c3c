-- ===== src/ErrorHandler/Stop.antt =====
-- No component is stopped after an error.
use duck_duck_xor.Base.{◌≡◌, refl, ap}
use duck_duck_xor.Base.{false, Option, none, some, List, [], ◌∷◌, ◌++◌}
use duck_duck_xor.Base.{replicate, length, Bool-cases, ◌==◌, inl, inr, arith}
use duck_duck_xor.Base.{done, panic}
use duck_duck_xor.ErrorHandler.{
  Handler, new_error_handler, collect_stop_funcs, abort, call_stop_funcs, handle_errors,
  handle_os_calls,
}

module _ {ℓ} {F E : Type ℓ} where
  -- The first function of a handler is nil.
  abbrev pub NilFirst : Handler F E → Type ℓ
  NilFirst e = (rest : List (Option F)) × (e.stop_funcs ≡ none ∷ rest)

  collect_stop_funcs-NilFirst :
      (fs : List F) (e : Handler F E) → NilFirst e → NilFirst (collect_stop_funcs fs e)
  unfolding collect_stop_funcs
  collect_stop_funcs-NilFirst [] e h = h
  collect_stop_funcs-NilFirst (f ∷ fs) e (rest, h) =
      collect_stop_funcs-NilFirst fs _ (rest ++ some f ∷ [], ap (λ l. l ++ some f ∷ []) h)

  collect_stop_funcs-message :
      (fs : List F) (e : Handler F E) → (collect_stop_funcs fs e).message ≡ e.message
  unfolding collect_stop_funcs
  collect_stop_funcs-message [] e = refl
  collect_stop_funcs-message (f ∷ fs) e = collect_stop_funcs-message fs _

  pub new_error_handler-NilFirst :
      (fs : List F)
      → NilFirst (collect_stop_funcs {E = E} fs new_error_handler)
        × ((collect_stop_funcs {E = E} fs new_error_handler).message ≡ [])
  unfolding new_error_handler
  new_error_handler-NilFirst fs =
      let e0 : Handler F E = new_error_handler in
      (collect_stop_funcs-NilFirst fs e0 (replicate 9 none, refl), collect_stop_funcs-message fs e0)

  pub NilFirst-handle_errors :
      (e : Handler F E) (err : E) (more : List E)
      → NilFirst e
      → e.message ≡ err ∷ more
      → handle_errors e ≡ panic
  unfolding handle_errors call_stop_funcs
  NilFirst-handle_errors e err more (rest, first) m = rw (m, first)

  pub abort-reports :
      (err : E) (e e' : Handler F E)
      → abort false err e ≡ e' ∷ []
      → (e'.stop_funcs ≡ e.stop_funcs) × (e'.message ≡ err ∷ [])
  unfolding abort
  abort-reports err e e' h = elim (Bool-cases (length e.message == 0)) [
    | inl free ↦ let reported = rw free at h in (ground (arith, reported), ground (arith, reported))
    | inr full ↦ absurd (ground (arith, full, h))
  ]

  -- Whatever stop functions have been collected: a component that has not quit reports its error at
  -- once, and handling it panics before any of them is called.
  pub abort-handle_errors :
      (fs : List F) (err : E)
      → (e : Handler F E) × (abort false err (collect_stop_funcs fs new_error_handler) ≡ e ∷ [])
        × (handle_errors e ≡ panic)
  unfolding abort handle_errors call_stop_funcs new_error_handler
  abort-handle_errors fs err =
      let e0 : Handler F E = new_error_handler in
      let e : Handler F E = collect_stop_funcs fs e0 in
      let (rest, first) = collect_stop_funcs-NilFirst fs e0 (replicate 9 none, refl) in
      (record e { message = err ∷ [] }, rw (collect_stop_funcs-message fs e0), rw first)

  -- An interrupt of a handler that has no message stops no component either.
  pub handle_os_calls-handle_errors :
      (fs : List F) (s : E)
      → (e : Handler F E) × (handle_os_calls s (collect_stop_funcs fs new_error_handler) ≡ done e)
        × (handle_errors e ≡ panic)
  unfolding handle_os_calls
  handle_os_calls-handle_errors fs s =
      let e : Handler F E = collect_stop_funcs fs new_error_handler in
      let (nil_first, empty) = new_error_handler-NilFirst fs in
      let sent : Handler F E = record e { message = s ∷ [] } in
      (sent, rw empty, NilFirst-handle_errors sent s [] nil_first refl)
