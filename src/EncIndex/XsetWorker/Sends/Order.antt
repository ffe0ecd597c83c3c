-- ===== src/EncIndex/XsetWorker/Sends/Order.antt =====
-- With one X-Set worker no batch is lost, and none is sent on a closed channel.
use duck_duck_xor.Base.{ℕ, suc, ◌+◌, ◌^◌, ◌≤◌, ◌<◌, ◌≡◌, refl, sym, ap, ◌∙◌}
use duck_duck_xor.Base.{Bool, true, false, List, [], ◌∷◌, ◌++◌, append_assoc, append-nil, arith}
use duck_duck_xor.Base.{
  sum_by, sum_by-replace, sum_by-member, length-replace, length, length-append,
}
use duck_duck_xor.Base.{Bytes, u32}
use mathlib.Core.Path.{subst}
use mathlib.Core.List.Perm
use mathlib.Core.List.{Perm, perm_middle}
use duck_duck_xor.EncIndex.XsetWorker.Sends.{
  Worker, working, worker_done, Sender, sending, sent, Closer, not_called, spinning, closer_done,
  Sends, start_sends, call_once, Step, make_filter, start_send, end_worker, send, count_down,
  close_xtags, end_streamer, worker_runs,
}

-- The batches that goroutines have still to send.
unfoldable pub unsent : List Sender → List (List Bytes)
unsent [] = []
unsent (sending xtags ∷ ss) = xtags ∷ unsent ss
unsent (sent ∷ ss) = unsent ss

-- The batches that the worker has still to make.
unfoldable pub to_make : List Worker → List (List Bytes)
to_make [] = []
to_make (working more ∷ ws) = more ++ to_make ws
to_make (worker_done ∷ ws) = to_make ws

-- How many workers run, since the first that ends calls closeXtagChan.
unfoldable pub still_running : Closer → ℕ
still_running not_called = 1
still_running spinning = 0
still_running closer_done = 0

unfoldable pub is_closed : Closer → Bool
is_closed not_called = false
is_closed spinning = false
is_closed closer_done = true

-- The states with one worker.
pub record IsOrderly (batches : List (List Bytes)) (s : Sends) : Type 0 where
  pub every_batch : Perm (s.streamed ++ (unsent s.senders ++ to_make s.workers)) batches
  pub pending : s.pending_x_sends ≡ u32 (length s.senders)
  pub few : length s.senders + length (to_make s.workers) ≤ length batches
  pub one_worker : sum_by worker_runs s.workers ≡ still_running s.closer
  pub closes : s.xtags_closed ≡ is_closed s.closer
  pub all_sent : s.xtags_closed ≡ true → length s.senders ≡ 0
  pub streamer_last : s.streamer_done ≡ true → s.xtags_closed ≡ true

to_make-start :
    (before after : List Worker) (xtags : List Bytes) (more : List (List Bytes))
    → Perm
        (to_make (before ++ working (xtags ∷ more) ∷ after))
        (xtags ∷ to_make (before ++ working more ∷ after))
unfolding to_make
to_make-start [] after xtags more = Perm.rfl
to_make-start (working ys ∷ before) after xtags more =
    Perm.trans (Perm.append_left ys (to_make-start before after xtags more)) (perm_middle ys _)
to_make-start (worker_done ∷ before) after xtags more = to_make-start before after xtags more

length-to_make-start :
    (before after : List Worker) (xtags : List Bytes) (more : List (List Bytes))
    → length (to_make (before ++ working (xtags ∷ more) ∷ after))
      ≡ suc (length (to_make (before ++ working more ∷ after)))
unfolding to_make
length-to_make-start [] after xtags more = refl
length-to_make-start (working ys ∷ before) after xtags more = omega (
  arith,
  length-append ys (to_make (before ++ working (xtags ∷ more) ∷ after)),
  length-append ys (to_make (before ++ working more ∷ after)),
  length-to_make-start before after xtags more,
)
length-to_make-start (worker_done ∷ before) after xtags more =
    length-to_make-start before after xtags more

to_make-end :
    (before after : List Worker)
    → to_make (before ++ working [] ∷ after) ≡ to_make (before ++ worker_done ∷ after)
unfolding to_make
to_make-end [] after = refl
to_make-end (working ys ∷ before) after = ap (λ l. ys ++ l) (to_make-end before after)
to_make-end (worker_done ∷ before) after = to_make-end before after

unsent-send :
    (left right : List Sender) (xtags : List Bytes)
    → Perm (unsent (left ++ sending xtags ∷ right)) (xtags ∷ unsent (left ++ sent ∷ right))
unfolding unsent
unsent-send [] right xtags = Perm.rfl
unsent-send (sending ys ∷ left) right xtags =
    Perm.trans (Perm.cons ys (unsent-send left right xtags)) (Perm.swap xtags ys _)
unsent-send (sent ∷ left) right xtags = unsent-send left right xtags

unsent-count_down :
    (left right : List Sender) → unsent (left ++ sent ∷ right) ≡ unsent (left ++ right)
unfolding unsent
unsent-count_down [] right = refl
unsent-count_down (sending ys ∷ left) right = ap (λ l. ys ∷ l) (unsent-count_down left right)
unsent-count_down (sent ∷ left) right = unsent-count_down left right

closed_last : (c : Closer) → is_closed c ≡ true → still_running c ≡ 0
unfolding is_closed still_running
closed_last not_called h = absurd (ground arith)
closed_last spinning h = refl
closed_last closer_done h = refl

running_few : (c : Closer) → still_running c ≤ 1
unfolding still_running
running_few not_called = omega arith
running_few spinning = omega arith
running_few closer_done = omega arith

called_once : (c : Closer) → still_running (call_once c) ≡ 0
unfolding still_running call_once
called_once not_called = refl
called_once spinning = refl
called_once closer_done = refl

called_closed : (c : Closer) → is_closed (call_once c) ≡ is_closed c
unfolding is_closed call_once
called_closed not_called = refl
called_closed spinning = refl
called_closed closer_done = refl

module _ (batches : List (List Bytes)) (small : length batches < 2 ^ 32) where
  pub Step-IsOrderly : (s s' : Sends) → Step s s' → IsOrderly batches s → IsOrderly batches s'
  unfolding call_once worker_runs unsent is_closed still_running
  Step-IsOrderly _ _ (make_filter s e) is = record {
    every_batch = is.every_batch;
    pending = is.pending;
    few = is.few;
    one_worker = is.one_worker;
    closes = is.closes;
    all_sent = is.all_sent;
    streamer_last = is.streamer_last;
  }
  Step-IsOrderly _ _ (start_send s before after xtags more e) is =
      let runs = sum_by-member worker_runs before (working (xtags ∷ more)) after e in
      record {
        every_batch =
            Perm.trans
              (Perm.append_left s.streamed (
                Perm.trans (Perm.symm (perm_middle (unsent s.senders) _)) (
                  Perm.append_left (unsent s.senders)
                    (Perm.symm (to_make-start before after xtags more)))))
              (subst (λ l. Perm (s.streamed ++ (unsent s.senders ++ to_make l)) batches) e
                is.every_batch);
        pending = omega (arith, is.pending);
        few = omega (
          arith,
          is.few,
          ap (λ l. length (to_make l)) e,
          length-to_make-start before after xtags more,
        );
        one_worker = omega (
          arith,
          is.one_worker,
          sum_by-replace worker_runs before (working (xtags ∷ more)) (working more) after e,
        );
        closes = is.closes;
        all_sent = λ h.
            absurd (omega (arith, runs, is.one_worker, closed_last s.closer (sym is.closes ∙ h)));
        streamer_last = is.streamer_last;
      }
  Step-IsOrderly _ _ (end_worker s before after e) is = record {
    every_batch =
        subst (λ l. Perm (s.streamed ++ (unsent s.senders ++ l)) batches)
          (ap to_make e ∙ to_make-end before after) is.every_batch;
    pending = is.pending;
    few =
        omega (arith, is.few, ap (λ l. length (to_make l)) e, ap length (to_make-end before after));
    one_worker = omega (
      arith,
      is.one_worker,
      running_few s.closer,
      called_once s.closer,
      sum_by-replace worker_runs before (working []) worker_done after e,
    );
    closes = is.closes ∙ sym (called_closed s.closer);
    all_sent = is.all_sent;
    streamer_last = is.streamer_last;
  }
  Step-IsOrderly _ _ (send s left right xtags e ready open_ goes_on) is = record {
    every_batch =
        subst (λ l. Perm l batches) (sym (append_assoc s.streamed (xtags ∷ []) _))
          (Perm.trans
            (Perm.append_left s.streamed
              (Perm.append_right (to_make s.workers) (Perm.symm (unsent-send left right xtags))))
            (subst (λ l. Perm (s.streamed ++ (unsent l ++ to_make s.workers)) batches) e
              is.every_batch));
    pending = is.pending ∙ ap u32 (sym (length-replace left (sending xtags) sent right e));
    few = omega (arith, is.few, length-replace left (sending xtags) sent right e);
    one_worker = is.one_worker;
    closes = is.closes;
    all_sent = λ h. absurd (ground arith);
    streamer_last = is.streamer_last;
  }
  Step-IsOrderly _ _ (count_down s left right e) is =
      let same = ap unsent e ∙ unsent-count_down left right in
      let one_less : length s.senders ≡ suc (length (left ++ right)) =
        omega (arith, ap length e, length-append left (sent ∷ right), length-append left right) in
      record {
        every_batch =
            subst (λ l. Perm (s.streamed ++ (l ++ to_make s.workers)) batches) same is.every_batch;
        pending = omega (arith, is.pending, one_less, is.few, small);
        few = omega (arith, is.few, one_less);
        one_worker = is.one_worker;
        closes = is.closes;
        all_sent = λ h. omega (arith, is.all_sent h, one_less);
        streamer_last = is.streamer_last;
      }
  Step-IsOrderly _ _ (close_xtags s e none_) is = record {
    every_batch = is.every_batch;
    pending = is.pending;
    few = is.few;
    one_worker = is.one_worker ∙ ap still_running e;
    closes = refl;
    all_sent = λ h. omega (arith, is.pending, none_, is.few, small);
    streamer_last = λ h. refl;
  }
  Step-IsOrderly _ _ (end_streamer s ready shut goes_on) is = record {
    every_batch = is.every_batch;
    pending = is.pending;
    few = is.few;
    one_worker = is.one_worker;
    closes = is.closes;
    all_sent = is.all_sent;
    streamer_last = λ h. shut;
  }

  pub start-IsOrderly : IsOrderly batches (start_sends (batches ∷ []))
  unfolding start_sends unsent to_make worker_runs sum_by is_closed still_running
  start-IsOrderly = record {
    every_batch = subst (λ l. Perm l batches) (sym (append-nil batches)) Perm.rfl;
    pending = refl;
    few = omega (arith, ap length (append-nil batches));
    one_worker = refl;
    closes = refl;
    all_sent = λ h. refl;
    streamer_last = λ h. absurd (ground arith);
  }
