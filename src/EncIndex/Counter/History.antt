-- ===== src/EncIndex/Counter/History.antt =====
-- What the counter holds after any sequence of calls.
use duck_duck_xor.Base.{ℕ, ◌+◌, ◌≡◌, refl, ◌≢◌, inl, inr}
use duck_duck_xor.Base.{none, some, List, [], ◌∷◌, ◌++◌, arith}
use duck_duck_xor.Base.{◌==◌, if◌then◌else◌, Bool-cases, Option-cases}
use duck_duck_xor.Base.{Bytes, u32, bytes_eq, bytes_eq_iff}
use duck_duck_xor.Base.{lookup, lookup-insert}
use duck_duck_xor.EncIndex.Counter.{
  WordIndexCounter, new_word_index_counter, pair_or_new, read_then_increment,
}

-- A call: a word and the document in which it was met.
abbrev pub Call : Type 0
Call = Bytes × ℕ

-- The calls in order, from a given state.
unfoldable pub run : List Call → WordIndexCounter → WordIndexCounter
run [] w = w
run ((term, doc_id) ∷ calls) w = run calls (read_then_increment term doc_id w).1

-- How often the calls name a word.
unfoldable pub occurrences : Bytes → List Call → ℕ
occurrences term [] = 0
occurrences term ((t, doc_id) ∷ calls) = occurrences term calls + (if bytes_eq t term then 1 else 0)

pub occurrences-append :
    (word : Bytes) (xs ys : List Call)
    → occurrences word (xs ++ ys) ≡ occurrences word xs + occurrences word ys
unfolding occurrences
occurrences-append word [] ys = omega arith
occurrences-append word ((t, i) ∷ xs) ys = omega (arith, occurrences-append word xs ys)

-- The document of the last call that names the word, or the given one.
unfoldable pub last_doc : Bytes → ℕ → List Call → ℕ
last_doc term d [] = d
last_doc term d ((t, doc_id) ∷ calls) = last_doc term (if bytes_eq t term then doc_id else d) calls

last_doc_unmet :
    (term : Bytes) (d : ℕ) (calls : List Call)
    → occurrences term calls ≡ 0
    → last_doc term d calls ≡ d
unfolding occurrences last_doc
last_doc_unmet term d [] h = refl
last_doc_unmet term d ((t, i) ∷ calls) h = ground (arith, last_doc_unmet term d calls)

last_doc_met :
    (term : Bytes) (d e : ℕ) (calls : List Call)
    → occurrences term calls ≢ 0
    → last_doc term d calls ≡ last_doc term e calls
unfolding occurrences last_doc
last_doc_met term d e [] h = absurd (h refl)
last_doc_met term d e ((t, i) ∷ calls) h = ground (arith, last_doc_met term d e calls)

-- One call: the value read, and each word's entry afterwards.
step-lookup :
    (term t : Bytes) (i : ℕ) (w : WordIndexCounter)
    → lookup term (read_then_increment t i w).1 ≡ (
        if bytes_eq t term
        then some (record { count = u32 ((pair_or_new 0 (lookup t w)).count + 1); last_id = i })
        else lookup term w)
unfolding read_then_increment
step-lookup term t i w = elim (Option-cases (lookup t w)) [
  | inl e ↦ rw (lookup-insert, e)
  | inr (p, e) ↦ rw (lookup-insert, e)
]

run-lookup_from :
    (term : Bytes) (calls : List Call) (w : WordIndexCounter)
    → lookup term (run calls w) ≡ (
        if occurrences term calls == 0
        then lookup term w
        else some (record {
          count = u32 ((pair_or_new 0 (lookup term w)).count + occurrences term calls);
          last_id = last_doc term 0 calls;
        }))
unfolding run occurrences last_doc pair_or_new
run-lookup_from term [] w = refl
run-lookup_from term ((t, i) ∷ calls) w = elim (Bool-cases (bytes_eq t term)) [
  | inl hit ↦ ground (
    arith,
    bytes_eq_iff t term,
    step-lookup term t i w,
    last_doc_unmet term i calls,
    last_doc_met term i 0 calls,
    run-lookup_from term calls (read_then_increment t i w).1,
  )
  | inr miss ↦
      ground
        (arith, step-lookup term t i w, run-lookup_from term calls (read_then_increment t i w).1)
]

-- After any sequence of calls on a new counter, a word that was never named has no entry; any
-- other has the number of its calls, modulo 2 ^ 32, and the document of its last call.
pub run-lookup :
    (term : Bytes) (calls : List Call)
    → lookup term (run calls new_word_index_counter) ≡ (
        if occurrences term calls == 0
        then none
        else some
            (record { count = u32 (occurrences term calls); last_id = last_doc term 0 calls }))
unfolding new_word_index_counter lookup pair_or_new
run-lookup term calls = ground (arith, run-lookup_from term calls [])

-- The value that a call reads is the number of earlier calls on the same word, modulo 2 ^ 32.
pub read_then_increment-counts :
    (term : Bytes) (doc_id : ℕ) (calls : List Call)
    → (read_then_increment term doc_id (run calls new_word_index_counter)).0
      ≡ u32 (occurrences term calls)
unfolding read_then_increment
read_then_increment-counts term doc_id calls = ground (arith, run-lookup term calls)

pub run-append :
    (calls : List Call) (term : Bytes) (doc_id : ℕ) (w : WordIndexCounter)
    → run (calls ++ (term, doc_id) ∷ []) w ≡ (read_then_increment term doc_id (run calls w)).1
unfolding run
run-append [] term doc_id w = refl
run-append ((t, i) ∷ calls) term doc_id w =
    run-append calls term doc_id (read_then_increment t i w).1
