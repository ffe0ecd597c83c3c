-- ===== src/Lifecycle/Wait.antt =====
-- Runs of the client: what the WaitGroups say when goroutines end in any order.
use duck_duck_xor.Base.{ℕ, zero, suc, ◌+◌, ◌-◌, ◌≡◌, refl, sym, ap, ◌∙◌, inl, inr}
use duck_duck_xor.Base.{Bool, true, List, [], ◌∷◌, ◌++◌, arith}
use duck_duck_xor.Base.{◌==◌, if◌then◌else◌, ==_iff, Bool-cases}
use duck_duck_xor.Base.{done, >>=-eq-done}
use duck_duck_xor.Lifecycle.{
  Part, corpus_reader, doc_preprocessor, bloom_master, key_manager, tf_calc, doc_streamer,
  index_generator, part_number, Group, main_wg, janitor_wg, wg, group_number, same_group, Goroutine,
  go_key_word_summer, Process, new_process, dones, launch, done_one, run_dones,
}
use duck_duck_xor.Lifecycle.Index.{start, start_each, index}
use duck_duck_xor.Lifecycle.Balance.{
  count, total, IsBalanced, start-IsBalanced, start_each-IsBalanced,
}

-- A component is started, perhaps again, or a goroutine ends without a panic and is gone.
pub data Step (is_first_time : Bool) (num_workers : ℕ) : Process → Process → Type 0 where
  starts :
      (part : Part) (p : Process)
      → Step is_first_time num_workers p (start is_first_time num_workers part p)
  ends :
      (p q : Process) (before after : List Goroutine) (g : Goroutine)
      → p.goroutines ≡ before ++ g ∷ after
      → run_dones (dones g) p ≡ done q
      → Step is_first_time num_workers p (record q { goroutines = before ++ after })

-- The states after Index has started everything.
pub data Reach (is_first_time : Bool) (num_workers : ℕ) : Process → Type 0 where
  begin : Reach is_first_time num_workers (index is_first_time num_workers)
  later :
      {p q : Process}
      → Reach is_first_time num_workers p
      → Step is_first_time num_workers p q
      → Reach is_first_time num_workers q

-- The component and the group of a number.
part_of : ℕ → Part
part_of n =
    if n == 0
    then corpus_reader
    else if n == 1
    then doc_preprocessor
    else if n == 2
    then bloom_master
    else if n == 3
    then key_manager
    else if n == 4
    then tf_calc
    else if n == 5
    then doc_streamer
    else index_generator

group_of : ℕ → Group
group_of zero = main_wg
group_of (suc zero) = janitor_wg
group_of (suc (suc n)) = wg (part_of n)

part_of-number : (p : Part) → part_of (part_number p) ≡ p
unfolding part_of part_number
part_of-number corpus_reader = refl
part_of-number doc_preprocessor = refl
part_of-number bloom_master = refl
part_of-number key_manager = refl
part_of-number tf_calc = refl
part_of-number doc_streamer = refl
part_of-number index_generator = refl

group_of-number : (g : Group) → group_of (group_number g) ≡ g
unfolding group_of group_number
group_of-number main_wg = refl
group_of-number janitor_wg = refl
group_of-number (wg p) = ap wg (part_of-number p)

-- Different groups have different numbers.
same_group_sound : (g h : Group) → same_group g h ≡ true → g ≡ h
same_group_sound g h e =
    sym (group_of-number g)
    ∙ ap group_of ((==_iff (group_number g) (group_number h)).0 e)
    ∙ group_of-number h

done-injective {ℓ} : {A : Type ℓ} → {a b : A} → done a ≡ done b → a ≡ b
done-injective e = ground (arith, e)

-- A call of Done that returns.
done_one-counts :
    (g : Group) (p q : Process)
    → done_one g p ≡ done q
    → (q.goroutines ≡ p.goroutines)
      × ((h : Group) → p.groups h ≡ q.groups h + (if same_group g h then 1 else 0))
unfolding done_one
done_one-counts g p q e = elim (Bool-cases (p.groups g == 0)) [
  | inl zero_ ↦ absurd (ground arith)
  | inr some_ ↦
      let taken : Process = record p {
        groups = λ h. if same_group g h then p.groups h - 1 else p.groups h;
      } in
      let same : taken ≡ q = done-injective (sym (rw (done_one, some_)) ∙ e) in
      (
        ap (λ r. r.goroutines) (sym same),
        λ h. elim (Bool-cases (same_group g h)) [
          | inl here ↦
              let at : g ≡ h = same_group_sound g h here in
              let value : q.groups h ≡ p.groups h - 1 =
                ap (λ r. r.groups h) (sym same) ∙ (rw here) in
              rw here (ground (arith, value, some_, ap p.groups at))
          | inr there ↦
              let value : q.groups h ≡ p.groups h = ap (λ r. r.groups h) (sym same) ∙ (rw there) in
              rw there (omega (arith, value))
        ],
      )
]

run_dones-counts :
    (gs : List Group) (p q : Process)
    → run_dones gs p ≡ done q
    → (q.goroutines ≡ p.goroutines) × ((h : Group) → p.groups h ≡ q.groups h + count h gs)
unfolding run_dones count
run_dones-counts [] p q e =
    let same : p ≡ q = done-injective e in
    (ap (λ r. r.goroutines) (sym same), λ h. omega (arith, ap (λ r. r.groups h) same))
run_dones-counts (g ∷ gs) p q e =
    let (r, e1, e2) = >>=-eq-done (done_one g p) _ e in
    let (kept, one) = done_one-counts g p r e1 in
    let (kept', rest) = run_dones-counts gs r q e2 in
    (kept' ∙ kept, λ h. omega (arith, one h, rest h))

-- The goroutine that has ended counts down nothing any more.
total-between :
    (h : Group) (g : Goroutine) (before after : List Goroutine)
    → total h (before ++ g ∷ after) ≡ count h (dones g) + total h (before ++ after)
unfolding total
total-between h g [] after = refl
total-between h g (x ∷ before) after = omega (arith, total-between h g before after)

Step-IsBalanced :
    (d : ℕ) {first : Bool} {n : ℕ} {p q : Process}
    → Step first n p q
    → IsBalanced d p
    → IsBalanced d q
Step-IsBalanced d {first = first} {n = n} (starts part p) b = start-IsBalanced d first n part p b
Step-IsBalanced d (ends p q before after g at e) b =
    let (kept, counts) = run_dones-counts (dones g) p q e in
    λ h. omega (arith, b h, counts h, total-between h g before after, ap (total h) at)

index-IsBalanced : (first : Bool) (n : ℕ) → IsBalanced 1 (index first n)
unfolding index total count dones
index-IsBalanced first n =
    let managed : IsBalanced 0 (start_each first n (key_manager ∷ []) new_process) =
      start_each-IsBalanced 0 first n (key_manager ∷ []) new_process (λ h. ground arith) in
    start_each-IsBalanced 1 first n
      (corpus_reader ∷ doc_preprocessor ∷ bloom_master ∷ tf_calc ∷ doc_streamer ∷ index_generator
        ∷ [])
      (launch go_key_word_summer (start_each first n (key_manager ∷ []) new_process))
      (λ h. ground (arith, managed h))

-- In every state behind Index, whatever components are started again and whichever goroutines have
-- ended, in any order and without a panic: the WaitGroup of each component and janitorWG stand at the
-- number of calls of Done that the running goroutines will make, and mainWg stands at one less.
pub Reach-IsBalanced : {first : Bool} {n : ℕ} {p : Process} → Reach first n p → IsBalanced 1 p
Reach-IsBalanced {first = first} {n = n} begin = index-IsBalanced first n
Reach-IsBalanced (later r s) = Step-IsBalanced 1 s (Reach-IsBalanced r)
