-- ===== src/EncIndex/XsetWorker/Sends/Ends.antt =====
-- With one X-Set worker every run hands all batches on; with more the channel can close too early.
use duck_duck_xor.Base.{ℕ, ◌+◌, ◌*◌, ◌^◌, ◌≤◌, ◌<◌, ◌≡◌, refl, ap, ◌∙◌, ◌⊎◌, inl, inr}
use duck_duck_xor.Base.{true, List, [], ◌∷◌, ◌++◌, append-nil, arith}
use duck_duck_xor.Base.{if◌then◌else◌, Bool-cases, Nat-cases}
use duck_duck_xor.Base.{
  sum_by, sum_by-replace, sum_by-find, sum_by-append, Inevitably, Ends-Inevitably, List-cases,
  length, length-append,
}
use duck_duck_xor.Base.{Bytes}
use mathlib.Core.Path.{subst}
use mathlib.Core.List.{Perm}
use duck_duck_xor.EncIndex.XsetWorker.Sends.{
  Worker, working, worker_done, Sender, sending, sent, Closer, not_called, spinning, closer_done,
  Sends, start_sends, call_once, Step, make_filter, start_send, end_worker, send, count_down,
  close_xtags, end_streamer, Panics, closed_xtags, worker_runs, AllStreamed,
}
use duck_duck_xor.EncIndex.XsetWorker.Sends.Order.{
  IsOrderly, unsent, to_make, still_running, is_closed, Step-IsOrderly, start-IsOrderly,
}

unfoldable worker_left : Worker → ℕ
worker_left (working more) = 3 * length more + 1
worker_left worker_done = 0

unfoldable sender_left : Sender → ℕ
sender_left (sending xtags) = 2
sender_left sent = 1

unfoldable closer_left : Closer → ℕ
closer_left not_called = 2
closer_left spinning = 1
closer_left closer_done = 0

unfoldable steps_left : Sends → ℕ
unfolding worker_left sender_left closer_left
steps_left s =
    (if s.x_set_ready then 0 else 1)
    + sum_by worker_left s.workers
    + sum_by sender_left s.senders
    + closer_left s.closer
    + (if s.streamer_done then 0 else 1)

called_left : (c : Closer) → closer_left (call_once c) ≤ closer_left c
unfolding closer_left call_once
called_left not_called = omega arith
called_left spinning = omega arith
called_left closer_done = omega arith

Step-steps_left : (s s' : Sends) → Step s s' → steps_left s' < steps_left s
unfolding steps_left worker_left sender_left closer_left sum_by
Step-steps_left _ _ (make_filter s e) = ground arith
Step-steps_left _ _ (start_send s before after xtags more e) =
    omega (arith, sum_by-replace worker_left before (working (xtags ∷ more)) (working more) after e)
Step-steps_left _ _ (end_worker s before after e) = omega (
  arith,
  sum_by-replace worker_left before (working []) worker_done after e,
  called_left s.closer,
)
Step-steps_left _ _ (send s left right xtags e ready open_ goes_on) =
    omega (arith, sum_by-replace sender_left left (sending xtags) sent right e)
Step-steps_left _ _ (count_down s left right e) = omega (
  arith,
  ap (sum_by sender_left) e,
  sum_by-append sender_left left (sent ∷ right),
  sum_by-append sender_left left right,
)
Step-steps_left _ _ (close_xtags s e none_) = omega (arith, ap closer_left e)
Step-steps_left _ _ (end_streamer s ready shut goes_on) = ground arith

none_to_make : (ws : List Worker) → sum_by worker_runs ws ≡ 0 → to_make ws ≡ []
unfolding sum_by worker_runs to_make
none_to_make [] h = refl
none_to_make (working more ∷ ws) h = absurd (omega arith)
none_to_make (worker_done ∷ ws) h = none_to_make ws (omega (arith, h))

module _ (batches : List (List Bytes)) where
  no_panic : (s : Sends) → IsOrderly batches s → ¬ Panics s
  no_panic s is (closed_xtags left right xtags e ready shut) =
      omega (arith, is.all_sent shut, ap length e, length-append left (sending xtags ∷ right))

  abbrev CanStep : Sends → Type 0
  CanStep s = (s' : Sends) × Step s s'

  -- A worker that runs can step.
  worker-steps : (s : Sends) → 0 < sum_by worker_runs s.workers → CanStep s
  unfolding worker_runs
  worker-steps s running =
      let (before, x, after, e, runs) = sum_by-find worker_runs s.workers running in
      by x before after e runs
    where
      by :
          (x : Worker) (before after : List Worker)
          → s.workers ≡ before ++ x ∷ after
          → 0 < worker_runs x
          → CanStep s
      by (working []) before after e runs = (_, end_worker s before after e)
      by (working (xtags ∷ more)) before after e runs = (_, start_send s before after xtags more e)
      by worker_done before after e runs = absurd (omega arith)

  -- So can a goroutine that sends a batch.
  sender-steps :
      (s : Sends) (x : Sender) (right : List Sender)
      → s.x_set_ready ≡ true
      → IsOrderly batches s
      → s.senders ≡ x ∷ right
      → CanStep s
  sender-steps s sent right ready is e = (_, count_down s [] right e)
  sender-steps s (sending xtags) right ready is e = elim (Bool-cases s.xtags_closed) [
    | inl shut ↦ absurd (omega (arith, is.all_sent shut, ap length e))
    | inr open_ ↦ elim (Bool-cases s.streamer_done) [
      | inl over ↦ absurd (ground (arith, is.streamer_last over, open_))
      | inr goes_on ↦ (_, send s [] right xtags e ready open_ goes_on)
    ]
  ]

  finished :
      (s : Sends)
      → IsOrderly batches s
      → s.senders ≡ []
      → sum_by worker_runs s.workers ≡ 0
      → s.closer ≡ closer_done
      → s.streamer_done ≡ true
      → AllStreamed batches s
  unfolding unsent
  finished s is gone ended closed_ over = record {
    every_batch =
        subst (λ l. Perm l batches) (append-nil s.streamed)
          (subst (λ l. Perm (s.streamed ++ l) batches) (none_to_make s.workers ended)
            (subst (λ l. Perm (s.streamed ++ (unsent l ++ to_make s.workers)) batches) gone
              is.every_batch));
    no_sender = gone;
    no_worker = ended;
    no_closer = closed_;
    no_streamer = over;
  }

  closer-steps :
      (c : Closer) (s : Sends)
      → s.closer ≡ c
      → s.x_set_ready ≡ true
      → IsOrderly batches s
      → s.senders ≡ []
      → sum_by worker_runs s.workers ≡ 0
      → CanStep s ⊎ AllStreamed batches s
  unfolding still_running is_closed
  closer-steps not_called s e ready is gone ended =
      absurd (omega (arith, is.one_worker, ap still_running e, ended))
  closer-steps spinning s e ready is gone ended =
      inl (_, close_xtags s e (omega (arith, is.pending, ap length gone)))
  closer-steps closer_done s e ready is gone ended = elim (Bool-cases s.streamer_done) [
    | inl over ↦ inr (finished s is gone ended e over)
    | inr goes_on ↦ inl (_, end_streamer s ready (is.closes ∙ ap is_closed e) goes_on)
  ]

  progress : (s : Sends) → IsOrderly batches s → CanStep s ⊎ AllStreamed batches s
  progress s is = elim (Bool-cases s.x_set_ready) [
    | inr waits ↦ inl (_, make_filter s waits)
    | inl ready ↦ elim (List-cases s.senders) [
      | inr (x, right, e) ↦ inl (sender-steps s x right ready is e)
      | inl gone ↦ elim (Nat-cases (sum_by worker_runs s.workers)) [
        | inr running ↦ inl (worker-steps s running)
        | inl ended ↦ closer-steps s.closer s refl ready is gone ended
      ]
    ]
  ]

  -- With one X-Set worker and fewer than 2 ^ 32 batches every run, whatever the order of its steps,
  -- comes without a panic and without a deadlock to a state where bloomStreamer has handed on all
  -- batches, in some order, and all goroutines have ended.
  pub start_sends-Inevitably :
      length batches < 2 ^ 32
      → Inevitably Step Panics (AllStreamed batches) (start_sends (batches ∷ []))
  start_sends-Inevitably small =
      Ends-Inevitably Step Panics (AllStreamed batches)
        (record {
          keeps = Step-IsOrderly batches small;
          less = Step-steps_left;
          safe = no_panic;
          moves = progress;
        })
        _ (start-IsOrderly batches small)
