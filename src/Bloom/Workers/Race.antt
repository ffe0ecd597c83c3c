-- ===== src/Bloom/Workers/Race.antt =====
-- With two workers the test for the final element can succeed twice.
use duck_duck_xor.Base.{ℕ, suc, ◌+◌, ◌^◌, ◌≤◌, ◌<◌, ◌≡◌, refl, ◌∙◌}
use duck_duck_xor.Base.{true, false, List, [], ◌∷◌, ◌++◌, arith}
use duck_duck_xor.Base.{◌==◌}
use duck_duck_xor.Base.{length, replicate}
use duck_duck_xor.Base.{Bytes, u32}
use mathlib.Core.Path.{subst}
use duck_duck_xor.Bloom.XSet.{total, NoneEmpty}
use duck_duck_xor.Bloom.Workers.{
  Worker, selecting, adding, closing, Shared, start_workers, take_message, add_one, more_to_come,
  final_element, close_finished, Reach, start, later, Panics, closed_twice,
}

module _ (num_workers size : ℕ) (batches : List (List Bytes)) (small : size < 2 ^ 32) where
  -- A state of a run with these workers and messages left and this count, the end not signalled.
  record At (ws : List Worker) (more : List (List Bytes)) (k : ℕ) (s : Shared) : Type 0 where
    reached : Reach num_workers size batches s
    of_workers : s.workers ≡ ws
    of_messages : s.msg_chan ≡ more
    of_count : s.x_num_added ≡ k
    of_size : s.x_final_size ≡ size
    open_ : s.x_filter_finished ≡ false

  taken :
      (before after : List Worker) (xtags : List Bytes) (more : List (List Bytes)) (k : ℕ)
      (s : Shared)
      → At (before ++ selecting ∷ after) (xtags ∷ more) k s
      → (s' : Shared) × At (before ++ adding xtags ∷ after) more k s'
  taken before after xtags more k s is = (
    _,
    record {
      reached =
          later is.reached (take_message s before after xtags more is.of_workers is.of_messages);
      of_workers = refl;
      of_messages = refl;
      of_count = is.of_count;
      of_size = is.of_size;
      open_ = is.open_;
    },
  )

  add_all :
      (xtags : List Bytes) (before after : List Worker) (more : List (List Bytes)) (k : ℕ)
      (s : Shared)
      → k + length xtags ≤ size
      → At (before ++ adding xtags ∷ after) more k s
      → (s' : Shared) × At (before ++ adding [] ∷ after) more (k + length xtags) s'
  add_all [] before after more k s fits is =
      let same : k ≡ k + 0 = omega arith in
      (s, subst (λ n. At (before ++ adding [] ∷ after) more n s) same is)
  add_all (xtag ∷ xtags) before after more k s fits is =
      let (s', is') = add_all xtags before after more (suc k) _ (omega (arith, fits)) (record {
        reached = later is.reached (add_one s before after xtag xtags is.of_workers);
        of_workers = refl;
        of_messages = is.of_messages;
        of_count = omega (arith, is.of_count, fits, small);
        of_size = is.of_size;
        open_ = is.open_;
      }) in
      let same : suc k + length xtags ≡ k + suc (length xtags) = omega arith in
      (s', subst (λ n. At (before ++ adding [] ∷ after) more n s') same is')

  reaches :
      {ws : List Worker} {more : List (List Bytes)} {k : ℕ} (s : Shared)
      → At ws more k s
      → k ≡ size
      → (s.x_num_added == u32 s.x_final_size) ≡ true
  reaches s is e = ground (arith, is.of_count, is.of_size, small)

  falls_short :
      {ws : List Worker} {more : List (List Bytes)} {k : ℕ} (s : Shared)
      → At ws more k s
      → k < size
      → (s.x_num_added == u32 s.x_final_size) ≡ false
  falls_short s is e = ground (arith, is.of_count, is.of_size, small)

  -- The first worker holds its count while the second handles all messages up to the close.
  to_the_close :
      (more : List (List Bytes)) (ys : List Bytes) (ws : List Worker) (k : ℕ) (s : Shared)
      → k + (length ys + total more) ≡ size
      → NoneEmpty more
      → At (adding [] ∷ selecting ∷ ws) (ys ∷ more) k s
      → (s' : Shared) × At (adding [] ∷ closing ∷ ws) [] size s'
  unfolding total
  to_the_close [] ys ws k s e full is =
      let (s1, is1) = taken (adding [] ∷ []) ws ys [] k s is in
      let (s2, is2) = add_all ys (adding [] ∷ []) ws [] k s1 (omega (arith, e)) is1 in
      let last : k + length ys ≡ size = omega (arith, e) in
      (
        _,
        record {
          reached =
              later is2.reached
                (final_element s2 (adding [] ∷ []) ws is2.of_workers (reaches s2 is2 last));
          of_workers = refl;
          of_messages = is2.of_messages;
          of_count = is2.of_count ∙ last;
          of_size = is2.of_size;
          open_ = is2.open_;
        },
      )
  to_the_close (zs ∷ more) ys ws k s e full is =
      let (s1, is1) = taken (adding [] ∷ []) ws ys (zs ∷ more) k s is in
      let (s2, is2) = add_all ys (adding [] ∷ []) ws (zs ∷ more) k s1 (omega (arith, e)) is1 in
      let early = falls_short s2 is2 (omega (arith, e, full.0)) in
      to_the_close more zs ws (k + length ys) _ (omega (arith, e)) full.1 (record {
        reached = later is2.reached (more_to_come s2 (adding [] ∷ []) ws is2.of_workers early);
        of_workers = refl;
        of_messages = is2.of_messages;
        of_count = is2.of_count;
        of_size = is2.of_size;
        open_ = is2.open_;
      })

-- With two workers or more, and two messages or more of which all behind the first have an xtag, with as
-- many xtags as were announced, fewer than 2 ^ 32: a panic can be reached. Both workers load the count
-- behind the last xtag, and the second close of xFilterFinished panics.
pub Reach-workers_Panics :
    (n size : ℕ) (xs ys : List Bytes) (more : List (List Bytes))
    → size < 2 ^ 32
    → total (xs ∷ ys ∷ more) ≡ size
    → NoneEmpty (ys ∷ more)
    → (s : Shared) × Reach (suc (suc n)) size (xs ∷ ys ∷ more) s × Panics s
unfolding start_workers total
Reach-workers_Panics n size xs ys more small e full =
    let all = xs ∷ ys ∷ more in
    let idle = replicate n selecting in
    let (s1, is1) =
      taken (suc (suc n)) size all small [] (selecting ∷ idle) xs (ys ∷ more) 0 _ (record {
        reached = start;
        of_workers = refl;
        of_messages = refl;
        of_count = refl;
        of_size = refl;
        open_ = refl;
      }) in
    let (s2, is2) =
      add_all (suc (suc n)) size all small xs [] (selecting ∷ idle) (ys ∷ more) 0 s1
        (omega (arith, e)) is1 in
    let (s3, is3) =
      to_the_close (suc (suc n)) size all small more ys idle (0 + length xs) s2 (omega (arith, e))
        full.1 is2 in
    let closed =
      later is3.reached (close_finished s3 (adding [] ∷ []) idle is3.of_workers is3.open_) in
    (
      _,
      later closed (
          final_element _ [] (selecting ∷ idle) refl
            (reaches (suc (suc n)) size all small s3 is3 refl)),
      closed_twice [] (selecting ∷ idle) refl refl,
    )
