-- ===== src/Bloom/Workers/Order.antt =====
-- However several workers share the messages of the X-Set, no xtag is missed.
use duck_duck_xor.Base.{ℕ, zero, suc, ◌+◌, ◌^◌, ◌<◌, ◌≡◌, refl, ap, inl, inr}
use duck_duck_xor.Base.{false, List, [], ◌∷◌, ◌++◌, arith}
use duck_duck_xor.Base.{◌==◌, Nat-cases}
use duck_duck_xor.Base.{sum_by, sum_by-replace, length-replace, length, replicate}
use duck_duck_xor.Base.{Bytes, u32}
use duck_duck_xor.Bloom.XSet.{total}
use duck_duck_xor.Bloom.Workers.{
  Worker, selecting, adding, closing, Shared, start_workers, Step, take_message, add_one,
  more_to_come, final_element, close_finished, is_busy,
}

-- The xtags that a worker has still to add.
unfoldable pub to_add : Worker → ℕ
to_add selecting = 0
to_add (adding xtags) = length xtags
to_add closing = 0

pub to_add-is_busy : (ws : List Worker) → sum_by is_busy ws ≡ 0 → sum_by to_add ws ≡ 0
unfolding sum_by is_busy to_add
to_add-is_busy [] h = refl
to_add-is_busy (selecting ∷ ws) h = omega (arith, to_add-is_busy ws (omega (arith, h)))
to_add-is_busy (adding xtags ∷ ws) h = absurd (omega arith)
to_add-is_busy (closing ∷ ws) h = absurd (omega arith)

pub total-none : (batches : List (List Bytes)) → length batches ≡ 0 → total batches ≡ 0
unfolding total
total-none [] h = refl
total-none (xtags ∷ batches) h = absurd (omega arith)

-- No xtag is missed, and until the end is signalled there is something to do.
pub record IsOrderly (size : ℕ) (s : Shared) : Type 0 where
  pub added : s.x_num_added + sum_by to_add s.workers + total s.msg_chan ≡ size
  pub announced : s.x_final_size ≡ size
  pub some_worker : 0 < length s.workers
  pub not_missed : s.x_filter_finished ≡ false → 0 < length s.msg_chan + sum_by is_busy s.workers

module _ (size : ℕ) (small : size < 2 ^ 32) where
  still_busy :
      (s : Shared) (before after : List Worker)
      → s.workers ≡ before ++ adding [] ∷ after
      → (s.x_num_added == u32 s.x_final_size) ≡ false
      → IsOrderly size s
      → 0 < length s.msg_chan + sum_by is_busy (before ++ selecting ∷ after)
  unfolding to_add
  still_busy s before after e c is =
      elim (Nat-cases (length s.msg_chan + sum_by is_busy (before ++ selecting ∷ after))) [
        | inr some_ ↦ some_
        | inl none_ ↦ absurd (
            ground (
              arith,
              c,
              is.added,
              is.announced,
              small,
              sum_by-replace to_add before (adding []) selecting after e,
              to_add-is_busy (before ++ selecting ∷ after) (omega (arith, none_)),
              total-none s.msg_chan (omega (arith, none_)),
            ))
      ]

  pub Step-IsOrderly : (s s' : Shared) → Step s s' → IsOrderly size s → IsOrderly size s'
  unfolding to_add is_busy total
  Step-IsOrderly _ _ (take_message s before after xtags more e m) is = record {
    added = omega (
      arith,
      is.added,
      ap total m,
      sum_by-replace to_add before selecting (adding xtags) after e,
    );
    announced = is.announced;
    some_worker =
        omega (arith, is.some_worker, length-replace before selecting (adding xtags) after e);
    not_missed = λ h. omega (arith, sum_by-replace is_busy before selecting (adding xtags) after e);
  }
  Step-IsOrderly _ _ (add_one s before after xtag xtags e) is =
      let moved = sum_by-replace to_add before (adding (xtag ∷ xtags)) (adding xtags) after e in
      record {
        added = omega (arith, is.added, moved, small);
        announced = is.announced;
        some_worker = omega (
          arith,
          is.some_worker,
          length-replace before (adding (xtag ∷ xtags)) (adding xtags) after e,
        );
        not_missed = λ h. omega (
          arith,
          is.not_missed h,
          sum_by-replace is_busy before (adding (xtag ∷ xtags)) (adding xtags) after e,
        );
      }
  Step-IsOrderly _ _ (more_to_come s before after e c) is = record {
    added = omega (arith, is.added, sum_by-replace to_add before (adding []) selecting after e);
    announced = is.announced;
    some_worker =
        omega (arith, is.some_worker, length-replace before (adding []) selecting after e);
    not_missed = λ h. still_busy s before after e c is;
  }
  Step-IsOrderly _ _ (final_element s before after e c) is = record {
    added = omega (arith, is.added, sum_by-replace to_add before (adding []) closing after e);
    announced = is.announced;
    some_worker = omega (arith, is.some_worker, length-replace before (adding []) closing after e);
    not_missed = λ h.
        omega (arith, is.not_missed h, sum_by-replace is_busy before (adding []) closing after e);
  }
  Step-IsOrderly _ _ (close_finished s before after e open_) is = record {
    added = omega (arith, is.added, sum_by-replace to_add before closing selecting after e);
    announced = is.announced;
    some_worker = omega (arith, is.some_worker, length-replace before closing selecting after e);
    not_missed = λ h. absurd (ground arith);
  }

  pub start-IsOrderly :
      (n : ℕ) (batches : List (List Bytes))
      → total batches ≡ size
      → 0 < size
      → IsOrderly size (start_workers (suc n) size batches)
  unfolding start_workers sum_by to_add is_busy
  start-IsOrderly n batches e some_ = record {
    added = omega (arith, e, none_yet n);
    announced = refl;
    some_worker = omega arith;
    not_missed = λ h. elim (Nat-cases (length batches)) [
      | inl none_ ↦ absurd (omega (arith, total-none batches none_, e, some_))
      | inr more ↦ omega (arith, more)
    ];
  }
    where
      none_yet : (k : ℕ) → sum_by to_add (replicate k selecting) ≡ 0
      none_yet zero = refl
      none_yet (suc k) = omega (arith, none_yet k)
