-- ===== src/Server/Shutdown/Ends.antt =====
-- What every run of the server's components comes to once Stop is called.
use duck_duck_xor.Base.{ℕ, zero, suc, ◌+◌, ◌-◌, ◌*◌, ◌<◌, ◌≡◌, refl, sym, ap, ◌∙◌, ◌⊎◌, inl, inr}
use duck_duck_xor.Base.{Bool, true, false, List, ◌∷◌, ◌++◌, arith}
use duck_duck_xor.Base.{if◌then◌else◌, Bool-cases, Nat-cases}
use duck_duck_xor.Base.{
  sum_by, sum_by-replace, sum_by-member, sum_by-find, Inevitably, Ends-Inevitably,
}
use duck_duck_xor.Server.Shutdown.{
  RequestHandler, waiting_meta, selecting, handling, leaving, handler_done, Stop, not_called,
  at_wait, returned, Component, start_read_handlers, new_component, start_document_database, Step,
  receive_meta, begin, take_request, answer, break_out, count_done, close_quit, wait_returns,
  Panics, negative_counter, handler_runs, IsStopped,
}

unfoldable handler_left : RequestHandler → ℕ
handler_left waiting_meta = 3
handler_left selecting = 2
handler_left handling = 3
handler_left leaving = 1
handler_left handler_done = 0

unfoldable stop_left : Stop → ℕ
stop_left not_called = 2
stop_left at_wait = 1
stop_left returned = 0

unfoldable pub steps_left : Component → ℕ
unfolding handler_left stop_left
steps_left c =
    (if c.meta_received then 0 else 1)
    + sum_by handler_left c.handlers
    + 2 * c.requests
    + stop_left c.stop

pub Step-steps_left : (c c' : Component) → Step c c' → steps_left c' < steps_left c
unfolding steps_left handler_left stop_left
Step-steps_left _ _ (receive_meta c e) = ground arith
Step-steps_left _ _ (begin c before after e m) =
    omega (arith, sum_by-replace handler_left before waiting_meta selecting after e)
Step-steps_left _ _ (take_request c before after k e r) =
    omega (arith, r, sum_by-replace handler_left before selecting handling after e)
Step-steps_left _ _ (answer c before after e) =
    omega (arith, sum_by-replace handler_left before handling selecting after e)
Step-steps_left _ _ (break_out c before after e q) =
    omega (arith, sum_by-replace handler_left before selecting leaving after e)
Step-steps_left _ _ (count_done c before after k e w) =
    omega (arith, sum_by-replace handler_left before leaving handler_done after e)
Step-steps_left _ _ (close_quit c e) = omega (arith, ap stop_left e)
Step-steps_left _ _ (wait_returns c e w) = omega (arith, ap stop_left e)

unfoldable pub is_closed : Stop → Bool
is_closed not_called = false
is_closed at_wait = true
is_closed returned = true

unfoldable is_returned : Stop → Bool
is_returned not_called = false
is_returned at_wait = false
is_returned returned = true

abbrev pub CanStep : Component → Type 0
CanStep c = (c' : Component) × Step c c'

-- A handler that runs can step once quit is closed, but for one that would panic.
pub handler-steps :
    (c : Component) → c.quit ≡ true → 0 < sum_by handler_runs c.handlers → CanStep c ⊎ Panics c
unfolding handler_runs
handler-steps c quit running =
    let (before, x, after, e, runs) = sum_by-find handler_runs c.handlers running in
    by x before after e runs
  where
    by :
        (x : RequestHandler) (before after : List RequestHandler)
        → c.handlers ≡ before ++ x ∷ after
        → 0 < handler_runs x
        → CanStep c ⊎ Panics c
    by waiting_meta before after e runs = elim (Bool-cases c.meta_received) [
      | inl here ↦ inl (_, begin c before after e here)
      | inr late ↦ inl (_, receive_meta c late)
    ]
    by selecting before after e runs = inl (_, break_out c before after e quit)
    by handling before after e runs = inl (_, answer c before after e)
    by leaving before after e runs = elim (Nat-cases c.wait_group) [
      | inl none_ ↦ inr (negative_counter before after e none_)
      | inr some_ ↦ inl (_, count_done c before after (c.wait_group - 1) e (omega (arith, some_)))
    ]
    by handler_done before after e runs = absurd (omega arith)

-- The counter of the document database is the number of handlers that run.
record IsCounted (c : Component) : Type 0 where
  counts : c.wait_group ≡ sum_by handler_runs c.handlers
  quits : c.quit ≡ is_closed c.stop
  last : is_returned c.stop ≡ true → c.wait_group ≡ 0

Step-IsCounted : (c c' : Component) → Step c c' → IsCounted c → IsCounted c'
unfolding handler_runs is_closed is_returned
Step-IsCounted _ _ (receive_meta c e) is = record {
  counts = is.counts;
  quits = is.quits;
  last = is.last;
}
Step-IsCounted _ _ (begin c before after e m) is = record {
  counts =
      omega (arith, is.counts, sum_by-replace handler_runs before waiting_meta selecting after e);
  quits = is.quits;
  last = is.last;
}
Step-IsCounted _ _ (take_request c before after k e r) is = record {
  counts = omega (arith, is.counts, sum_by-replace handler_runs before selecting handling after e);
  quits = is.quits;
  last = is.last;
}
Step-IsCounted _ _ (answer c before after e) is = record {
  counts = omega (arith, is.counts, sum_by-replace handler_runs before handling selecting after e);
  quits = is.quits;
  last = is.last;
}
Step-IsCounted _ _ (break_out c before after e q) is = record {
  counts = omega (arith, is.counts, sum_by-replace handler_runs before selecting leaving after e);
  quits = is.quits;
  last = is.last;
}
Step-IsCounted _ _ (count_done c before after k e w) is = record {
  counts =
      omega (arith, w, is.counts, sum_by-replace handler_runs before leaving handler_done after e);
  quits = is.quits;
  last = λ h. absurd (omega (arith, is.last h, w));
}
Step-IsCounted _ _ (close_quit c e) is = record {
  counts = is.counts;
  quits = refl;
  last = λ h. absurd (ground arith);
}
Step-IsCounted _ _ (wait_returns c e w) is = record {
  counts = is.counts;
  quits = is.quits ∙ ap is_closed e;
  last = λ h. w;
}

counted-safe : (c : Component) → IsCounted c → ¬ Panics c
unfolding handler_runs
counted-safe c is (negative_counter before after e none_) =
    omega (arith, is.counts, none_, sum_by-member handler_runs before leaving after e)

counted-moves : (c : Component) → IsCounted c → CanStep c ⊎ IsStopped c
unfolding is_closed is_returned
counted-moves c is = by c.stop refl
  where
    by : (x : Stop) → c.stop ≡ x → CanStep c ⊎ IsStopped c
    by not_called e = inl (_, close_quit c e)
    by at_wait e = elim (Nat-cases c.wait_group) [
      | inl none_ ↦ inl (_, wait_returns c e none_)
      | inr some_ ↦
          elim (handler-steps c (is.quits ∙ ap is_closed e) (omega (arith, is.counts, some_))) [
            | inl move ↦ inl move
            | inr panics ↦ absurd (counted-safe c is panics)
          ]
    ]
    by returned e = inr (record {
      stop_returned = e;
      all_ended = omega (arith, is.counts, is.last (ap is_returned e));
    })

readers :
    (n : ℕ) (c : Component)
    → c.wait_group ≡ sum_by handler_runs c.handlers
    → (start_read_handlers n c).wait_group ≡ sum_by handler_runs (start_read_handlers n c).handlers
unfolding start_read_handlers sum_by handler_runs
readers zero c h = h
readers (suc n) c h = readers n _ (omega (arith, h))

same_stop :
    (n : ℕ) (c : Component)
    → ((start_read_handlers n c).quit ≡ c.quit) × ((start_read_handlers n c).stop ≡ c.stop)
unfolding start_read_handlers
same_stop zero c = (refl, refl)
same_stop (suc n) c = same_stop n _

start-IsCounted : (n requests : ℕ) → IsCounted (start_document_database n requests)
unfolding start_document_database sum_by handler_runs is_closed is_returned
start-IsCounted n requests = record {
  counts = omega (arith, readers n (new_component requests) refl);
  quits =
      (same_stop n (new_component requests)).0
      ∙ sym (ap is_closed (same_stop n (new_component requests)).1);
  last = λ h. absurd (ground (arith, ap is_returned (same_stop n (new_component requests)).1, h));
}

-- From the Start of a document database with any number of readers and of requests every run in which
-- Stop is called comes without a panic and without a deadlock to the return of Stop, and then all
-- handlers have ended.
pub start_document_database-Inevitably :
    (n requests : ℕ) → Inevitably Step Panics IsStopped (start_document_database n requests)
start_document_database-Inevitably n requests =
    Ends-Inevitably Step Panics IsStopped
      (record {
        keeps = Step-IsCounted;
        less = Step-steps_left;
        safe = counted-safe;
        moves = counted-moves;
      })
      _ (start-IsCounted n requests)
