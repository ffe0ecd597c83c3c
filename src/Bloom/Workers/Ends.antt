-- ===== src/Bloom/Workers/Ends.antt =====
-- Every run of several workers comes to the signal, or to a second close.
use duck_duck_xor.Base.{ℕ, suc, ◌+◌, ◌^◌, ◌<◌, ◌≡◌, refl, ap, ◌⊎◌, inl, inr}
use duck_duck_xor.Base.{true, List, [], ◌∷◌, ◌++◌, arith}
use duck_duck_xor.Base.{◌==◌, Bool-cases, Nat-cases}
use duck_duck_xor.Base.{
  sum_by, sum_by-replace, sum_by-find, Inevitably, Ends-Inevitably, List-cases, length,
}
use duck_duck_xor.Base.{Bytes, u32}
use duck_duck_xor.Bloom.XSet.{total}
use duck_duck_xor.Bloom.Workers.{
  Worker, selecting, adding, closing, Shared, start_workers, Step, take_message, add_one,
  more_to_come, final_element, close_finished, Panics, closed_twice, is_busy, IsSignalled,
}
use duck_duck_xor.Bloom.Workers.Order.{to_add-is_busy, IsOrderly, Step-IsOrderly, start-IsOrderly}

unfoldable worker_left : Worker → ℕ
worker_left selecting = 0
worker_left (adding xtags) = 2 + length xtags
worker_left closing = 1

unfoldable message_left : List Bytes → ℕ
message_left xtags = 3 + length xtags

unfoldable steps_left : Shared → ℕ
unfolding worker_left message_left
steps_left s = sum_by message_left s.msg_chan + sum_by worker_left s.workers

Step-steps_left : (s s' : Shared) → Step s s' → steps_left s' < steps_left s
unfolding steps_left worker_left message_left sum_by
Step-steps_left _ _ (take_message s before after xtags more e m) = omega (
  arith,
  ap (sum_by message_left) m,
  sum_by-replace worker_left before selecting (adding xtags) after e,
)
Step-steps_left _ _ (add_one s before after xtag xtags e) =
    omega (arith, sum_by-replace worker_left before (adding (xtag ∷ xtags)) (adding xtags) after e)
Step-steps_left _ _ (more_to_come s before after e c) =
    omega (arith, sum_by-replace worker_left before (adding []) selecting after e)
Step-steps_left _ _ (final_element s before after e c) =
    omega (arith, sum_by-replace worker_left before (adding []) closing after e)
Step-steps_left _ _ (close_finished s before after e open_) =
    omega (arith, sum_by-replace worker_left before closing selecting after e)

module _ (size : ℕ) (small : size < 2 ^ 32) where
  abbrev CanStep : Shared → Type 0
  CanStep s = (s' : Shared) × Step s s'

  busy-steps : (s : Shared) → 0 < sum_by is_busy s.workers → CanStep s ⊎ Panics s
  unfolding is_busy
  busy-steps s busy =
      let (before, x, after, e, works) = sum_by-find is_busy s.workers busy in
      by x before after e works
    where
      by :
          (x : Worker) (before after : List Worker)
          → s.workers ≡ before ++ x ∷ after
          → 0 < is_busy x
          → CanStep s ⊎ Panics s
      by selecting before after e works = absurd (omega arith)
      by (adding []) before after e works =
          elim (Bool-cases (s.x_num_added == u32 s.x_final_size)) [
            | inl last ↦ inl (_, final_element s before after e last)
            | inr early ↦ inl (_, more_to_come s before after e early)
          ]
      by (adding (xtag ∷ xtags)) before after e works = inl (_, add_one s before after xtag xtags e)
      by closing before after e works = elim (Bool-cases s.x_filter_finished) [
        | inl shut ↦ inr (closed_twice before after e shut)
        | inr open_ ↦ inl (_, close_finished s before after e open_)
      ]

  -- With nobody busy the first worker can take a message.
  idle-steps :
      (ws : List Worker) (s : Shared) (xtags : List Bytes) (more : List (List Bytes))
      → s.workers ≡ ws
      → 0 < length ws
      → sum_by is_busy ws ≡ 0
      → s.msg_chan ≡ xtags ∷ more
      → CanStep s
  unfolding sum_by is_busy
  idle-steps [] s xtags more e some_ none_ m = absurd (omega arith)
  idle-steps (selecting ∷ ws) s xtags more e some_ none_ m =
      (_, take_message s [] ws xtags more e m)
  idle-steps (adding ys ∷ ws) s xtags more e some_ none_ m = absurd (omega arith)
  idle-steps (closing ∷ ws) s xtags more e some_ none_ m = absurd (omega arith)

  moves : (s : Shared) → IsOrderly size s → CanStep s ⊎ (Panics s ⊎ IsSignalled s)
  unfolding total
  moves s is = elim (Nat-cases (sum_by is_busy s.workers)) [
    | inr busy ↦ elim (busy-steps s busy) [ inl move ↦ inl move | inr panics ↦ inr (inl panics) ]
    | inl none_ ↦ elim (List-cases s.msg_chan) [
      | inr (xtags, more, m) ↦ inl (idle-steps s.workers s xtags more refl is.some_worker none_ m)
      | inl gone ↦ inr (
          inr (record {
            no_message = gone;
            no_worker_busy = none_;
            all_added = omega (
              arith,
              is.added,
              is.announced,
              small,
              to_add-is_busy s.workers none_,
              ap total gone,
            );
            signalled = signalled gone none_;
          }))
    ]
  ]
    where
      signalled : s.msg_chan ≡ [] → sum_by is_busy s.workers ≡ 0 → s.x_filter_finished ≡ true
      signalled gone none_ = elim (Bool-cases s.x_filter_finished) [
        | inl shut ↦ shut
        | inr open_ ↦ absurd (omega (arith, is.not_missed open_, ap length gone, none_))
      ]

  -- With any positive number of workers, and batches with as many xtags as were announced, at least one
  -- and fewer than 2 ^ 32: every run, whatever the order of its steps, comes without a deadlock to a
  -- state where all xtags have been counted, all workers are at their select and the end is signalled,
  -- or to a worker that closes xFilterFinished a second time.
  pub start_workers-Inevitably :
      (n : ℕ) (batches : List (List Bytes))
      → total batches ≡ size
      → 0 < size
      → Inevitably Step
          (λ s. ⊥)
          (λ s. Panics s ⊎ IsSignalled s)
          (start_workers (suc n) size batches)
  start_workers-Inevitably n batches e some_ =
      Ends-Inevitably Step (λ s. ⊥) (λ s. Panics s ⊎ IsSignalled s)
        (record {
          keeps = Step-IsOrderly size small;
          less = Step-steps_left;
          safe = λ s is h. h;
          moves = moves;
        })
        _ (start-IsOrderly size small n batches e some_)
