-- ===== src/Server/Shutdown/Negative.antt =====
-- The searcher's handlers call Done of a WaitGroup to which Start has added nothing.
use duck_duck_xor.Base.{ℕ, ◌<◌, ◌≡◌, refl, ap, ◌∙◌, ◌⊎◌, inl}
use duck_duck_xor.Base.{arith}
use duck_duck_xor.Base.{
  sum_by, sum_by-replace, sum_by-append, Inevitably, Ends-Inevitably, replicate,
}
use duck_duck_xor.Searcher.Startup.{num_tset_writers}
use duck_duck_xor.Server.Shutdown.{
  waiting_meta, selecting, handling, leaving, Stop, not_called, at_wait, returned, Component,
  start_index_searcher, Step, receive_meta, begin, take_request, answer, break_out, count_done,
  close_quit, wait_returns, Panics, handler_runs,
}
use duck_duck_xor.Server.Shutdown.Ends.{CanStep, is_closed, Step-steps_left, handler-steps}

-- Nothing is counted, and a handler runs.
record IsUncounted (c : Component) : Type 0 where
  counts : c.wait_group ≡ 0
  running : 0 < sum_by handler_runs c.handlers
  quits : c.quit ≡ is_closed c.stop

Step-IsUncounted : (c c' : Component) → Step c c' → IsUncounted c → IsUncounted c'
unfolding handler_runs is_closed
Step-IsUncounted _ _ (receive_meta c e) is = record {
  counts = is.counts;
  running = is.running;
  quits = is.quits;
}
Step-IsUncounted _ _ (begin c before after e m) is = record {
  counts = is.counts;
  running =
      omega (arith, is.running, sum_by-replace handler_runs before waiting_meta selecting after e);
  quits = is.quits;
}
Step-IsUncounted _ _ (take_request c before after k e r) is = record {
  counts = is.counts;
  running =
      omega (arith, is.running, sum_by-replace handler_runs before selecting handling after e);
  quits = is.quits;
}
Step-IsUncounted _ _ (answer c before after e) is = record {
  counts = is.counts;
  running =
      omega (arith, is.running, sum_by-replace handler_runs before handling selecting after e);
  quits = is.quits;
}
Step-IsUncounted _ _ (break_out c before after e q) is = record {
  counts = is.counts;
  running = omega (arith, is.running, sum_by-replace handler_runs before selecting leaving after e);
  quits = is.quits;
}
Step-IsUncounted _ _ (count_done c before after k e w) is = absurd (omega (arith, w, is.counts))
Step-IsUncounted _ _ (close_quit c e) is = record {
  counts = is.counts;
  running = is.running;
  quits = refl;
}
Step-IsUncounted _ _ (wait_returns c e w) is = record {
  counts = is.counts;
  running = is.running;
  quits = is.quits ∙ ap is_closed e;
}

uncounted-moves : (c : Component) → IsUncounted c → CanStep c ⊎ Panics c
unfolding is_closed
uncounted-moves c is = by c.stop refl
  where
    by : (x : Stop) → c.stop ≡ x → CanStep c ⊎ Panics c
    by not_called e = inl (_, close_quit c e)
    by at_wait e = inl (_, wait_returns c e is.counts)
    by returned e = handler-steps c (is.quits ∙ ap is_closed e) is.running

start-IsUncounted : (n requests : ℕ) → IsUncounted (start_index_searcher n requests)
unfolding start_index_searcher sum_by handler_runs is_closed
start-IsUncounted n requests = record {
  counts = refl;
  running = omega (
    arith,
    sum_by-append handler_runs (replicate n waiting_meta) (replicate num_tset_writers selecting),
  );
  quits = refl;
}

-- From the first Start of a searcher whose store has no index every run in which Stop is called comes
-- to a panic, whatever the order of its steps: a handler that ends makes the counter of the WaitGroup
-- negative.
pub start_index_searcher-Inevitably :
    (n requests : ℕ) → Inevitably Step (λ c. ⊥) Panics (start_index_searcher n requests)
start_index_searcher-Inevitably n requests =
    Ends-Inevitably Step (λ c. ⊥) Panics
      (record {
        keeps = Step-IsUncounted;
        less = Step-steps_left;
        safe = λ c is h. h;
        moves = uncounted-moves;
      })
      _ (start-IsUncounted n requests)
