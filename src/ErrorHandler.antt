-- ===== src/ErrorHandler.antt =====
-- client_proxy/error_handler.go: stopping the components after an error. Stop functions and errors
-- are values of any type; `none` is a nil function.
pub mod Stop
use duck_duck_xor.Base.{
  Bool, Option, none, some, List, [], ◌∷◌, ◌++◌, ◌==◌, if◌then◌else◌, length, replicate, Outcome,
  done, blocked, ◌>>=◌, deref,
}

-- errorHandler: the queue Message, with one place, and the functions to stop.
pub record Handler {ℓ} (F E : Type ℓ) : Type ℓ where
  pub message : List E
  pub stop_funcs : List (Option F)

-- The loop of handleErrors over the functions: those that are called, in order. A call of a nil
-- function panics.
unfoldable pub call_stop_funcs {ℓ} : {F : Type ℓ} → List (Option F) → Outcome (List F)
call_stop_funcs [] = done []
call_stop_funcs (stop ∷ stops) = do f ← deref stop; fs ← call_stop_funcs stops; done (f ∷ fs)

module _ {ℓ} {F E : Type ℓ} where
  -- NewErrorHandler: the slice of functions is made with ten entries, which are nil.
  unfoldable pub new_error_handler : Handler F E
  new_error_handler = record { message = []; stop_funcs = replicate 10 none }

  -- collectStopFuncs over the functions that arrive.
  unfoldable pub collect_stop_funcs : List F → Handler F E → Handler F E
  collect_stop_funcs [] e = e
  collect_stop_funcs (a ∷ fs) e =
      collect_stop_funcs fs (record e { stop_funcs = e.stop_funcs ++ some a ∷ [] })

  -- The function that createAbortFunc returns: the handlers that its select can leave, none while it
  -- waits. It can give up when the component has quit, and send when the queue has a place.
  unfoldable pub abort : Bool → E → Handler F E → List (Handler F E)
  abort quit err e =
      (if quit then e ∷ [] else [])
      ++ (if length e.message == 0 then record e { message = err ∷ [] } ∷ [] else [])

  -- handleErrors for the next message: it waits for one.
  unfoldable pub handle_errors : Handler F E → Outcome (List F × Handler F E)
  unfolding call_stop_funcs
  handle_errors e = elim e.message [
    | [] ↦ blocked
    | err ∷ rest ↦ (call_stop_funcs e.stop_funcs >>= λ fs. done (fs, record e { message = rest }))
  ]

  -- handleOSCalls for the signal that arrives: its error goes to Message, and the send waits for the
  -- place of the queue.
  unfoldable pub handle_os_calls : E → Handler F E → Outcome (Handler F E)
  handle_os_calls s e =
      if length e.message == 0 then done (record e { message = s ∷ [] }) else blocked
