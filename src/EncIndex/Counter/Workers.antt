-- ===== src/EncIndex/Counter/Workers.antt =====
-- Several workers on one counter: its lock makes the calls of readThenIncrement one sequence, in which
-- each worker's calls keep their order.
use duck_duck_xor.Base.{ℕ, zero, suc, ◌+◌, ◌^◌, ◌≤◌, ◌≡◌, refl, sym, ap, ◌∙◌, ◌≢◌}
use duck_duck_xor.Base.{false, Option, none, some, List, [], ◌∷◌, ◌++◌, arith}
use duck_duck_xor.Base.{◌==◌, if◌then◌else◌}
use duck_duck_xor.Base.{replicate}
use duck_duck_xor.Base.{Bytes, u32, bytes_eq, bytes_eq_refl}
use duck_duck_xor.Base.{lookup}
use duck_duck_xor.EncIndex.Counter.{IndexDocPair, new_word_index_counter, read_then_increment}
use duck_duck_xor.EncIndex.Counter.History.{
  Call, run, occurrences, occurrences-append, run-lookup, read_then_increment-counts,
}

-- A sequence in which the calls of the workers can be made, each from the front of what a worker has
-- left.
pub data Interleaves : List (List Call) → List Call → Type 0 where
  all_done : (workers : ℕ) → Interleaves (replicate workers []) []
  next :
      (before after : List (List Call)) (c : Call) (w zs : List Call)
      → Interleaves (before ++ w ∷ after) zs
      → Interleaves (before ++ (c ∷ w) ∷ after) (c ∷ zs)

-- How often the workers name a word.
unfoldable pub occurrences_each : Bytes → List (List Call) → ℕ
occurrences_each term [] = 0
occurrences_each term (w ∷ ws) = occurrences term w + occurrences_each term ws

-- The count of an entry.
abbrev pub count_of : Option IndexDocPair → Option ℕ
count_of none = none
count_of (some p) = some p.count

occurrences_each-done : (term : Bytes) (n : ℕ) → occurrences_each term (replicate n []) ≡ 0
unfolding occurrences_each occurrences
occurrences_each-done term zero = refl
occurrences_each-done term (suc n) = omega (arith, occurrences_each-done term n)

occurrences_each-next :
    (term : Bytes) (before after : List (List Call)) (c : Call) (w : List Call)
    → occurrences_each term (before ++ (c ∷ w) ∷ after)
      ≡ occurrences_each term (before ++ w ∷ after) + (if bytes_eq c.0 term then 1 else 0)
unfolding occurrences_each occurrences
occurrences_each-next term [] after c w = omega arith
occurrences_each-next term (v ∷ before) after c w =
    omega (arith, occurrences_each-next term before after c w)

Interleaves-occurrences :
    {ws : List (List Call)} {zs : List Call} (term : Bytes)
    → Interleaves ws zs
    → occurrences term zs ≡ occurrences_each term ws
unfolding occurrences
Interleaves-occurrences term (all_done n) = sym (occurrences_each-done term n)
Interleaves-occurrences term (next before after c w zs r) =
    omega (arith, Interleaves-occurrences term r, occurrences_each-next term before after c w)

split_occurrences :
    (term : Bytes) (before : List Call) (d : ℕ) (after : List Call)
    → occurrences term (before ++ (term, d) ∷ after)
      ≡ occurrences term before + 1 + occurrences term after
unfolding occurrences
split_occurrences term before d after =
    let here : occurrences term ((term, d) ∷ after) ≡ occurrences term after + 1 =
      rw (occurrences, bytes_eq_refl term) in
    omega (arith, occurrences-append term before ((term, d) ∷ after), here)

-- Whatever the order in which the workers' calls are made, if they are at most 2 ^ 32 on a word then
-- two of them on it do not read the same value, and in the end the counter has for the word the number
-- of the calls of all workers on it, modulo 2 ^ 32.
pub Interleaves-counts :
    (ws : List (List Call)) (before mid after : List Call) (term : Bytes) (d e : ℕ)
    → Interleaves ws (before ++ (term, d) ∷ (mid ++ (term, e) ∷ after))
    → occurrences_each term ws ≤ 2 ^ 32
    → ((read_then_increment term d (run before new_word_index_counter)).0
        ≢ (read_then_increment term e (run (before ++ (term, d) ∷ mid) new_word_index_counter)).0)
      × (count_of (
            lookup term
              (run (before ++ (term, d) ∷ (mid ++ (term, e) ∷ after)) new_word_index_counter))
          ≡ some (u32 (occurrences_each term ws)))
Interleaves-counts ws before mid after term d e r fit =
    let all = before ++ (term, d) ∷ (mid ++ (term, e) ∷ after) in
    let made = Interleaves-occurrences term r in
    let outer = split_occurrences term before d (mid ++ (term, e) ∷ after) in
    let inner = split_occurrences term mid e after in
    let earlier = split_occurrences term before d mid in
    let met : (occurrences term all == 0) ≡ false = ground (arith, outer) in
    (
      λ same. absurd (
          omega (
            arith,
            made,
            outer,
            inner,
            earlier,
            fit,
            same,
            read_then_increment-counts term d before,
            read_then_increment-counts term e (before ++ (term, d) ∷ mid),
          )),
      ap count_of (run-lookup term all) ∙ (rw (met, made)),
    )
