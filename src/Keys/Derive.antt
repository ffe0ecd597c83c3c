-- ===== src/Keys/Derive.antt =====
-- inverseHashTreeKeyDerivation: it returns, and the keys are the nodes of a binary tree in
-- breadth-first order.
use duck_duck_xor.Base.{ℕ, zero, suc, ◌+◌, ◌*◌, ◌≤◌, ◌<◌, ◌≡◌, refl, ap, ◌∙◌, inl, inr}
use duck_duck_xor.Base.{false, some, List, [], ◌∷◌, ◌++◌, arith}
use duck_duck_xor.Base.{ltb, ◌==◌, if◌then◌else◌, ltb→lt, ==_iff, Bool-cases}
use duck_duck_xor.Base.{length, get_elem?, take, drop, length-append, length-drop}
use duck_duck_xor.Base.{Bytes}
use duck_duck_xor.Base.{Outcome, done}
use mathlib.Core.Path.{subst}
use duck_duck_xor.Keys.{derive_children, derive_loop, inverse_hash_tree_key_derivation}

drop-append {ℓ} :
    {A : Type ℓ} (n : ℕ) (xs ys : List A) → n ≤ length xs → drop n (xs ++ ys) ≡ drop n xs ++ ys
drop-append zero xs ys h = refl
drop-append (suc n) [] ys h = absurd (omega arith)
drop-append (suc n) (x ∷ xs) ys h = drop-append n xs ys (omega arith)

drop-cons {ℓ} :
    {A : Type ℓ} (n : ℕ) (xs : List A) (y : A) (ys : List A)
    → drop n xs ≡ y ∷ ys
    → (get_elem? xs n ≡ some y) × (drop (suc n) xs ≡ ys)
drop-cons zero [] y ys h = absurd (ground arith)
drop-cons zero (x ∷ xs) y ys h = ground arith
drop-cons (suc n) [] y ys h = absurd (ground arith)
drop-cons (suc n) (x ∷ xs) y ys h = drop-cons n xs y ys h

get_elem?-append_left {ℓ} :
    {A : Type ℓ} (xs ys : List A) (n : ℕ) (y : A)
    → get_elem? xs n ≡ some y
    → get_elem? (xs ++ ys) n ≡ some y
get_elem?-append_left [] ys n y h = absurd (ground arith)
get_elem?-append_left (x ∷ xs) ys zero y h = h
get_elem?-append_left (x ∷ xs) ys (suc n) y h = get_elem?-append_left xs ys n y h

get_elem?-append_right {ℓ} :
    {A : Type ℓ} (xs ys : List A) (n : ℕ) → get_elem? (xs ++ ys) (length xs + n) ≡ get_elem? ys n
get_elem?-append_right [] ys n = ap (get_elem? ys) (omega arith)
get_elem?-append_right (x ∷ xs) ys n =
    let e : suc (length xs) + n ≡ suc (length xs + n) = omega arith in
    ap (get_elem? (x ∷ (xs ++ ys))) e ∙ get_elem?-append_right xs ys n

-- The first `k` nodes of the tree, counted from the master key, have their children among the
-- keys: those of node i are the keys 2 i and 2 i + 1, the second half of the node's digest and the
-- first.
pub record IsTree (sha512 : Bytes → Bytes) (master : Bytes) (k : ℕ) (keys : List Bytes)
    : Type 0 where
  pub parent : ℕ → Bytes
  pub is_node : (i : ℕ) → i < k → get_elem? (master ∷ keys) i ≡ some (parent i)
  pub first_child : (i : ℕ) → i < k → get_elem? keys (2 * i) ≡ some (drop 32 (sha512 (parent i)))
  pub second_child :
      (i : ℕ) → i < k → get_elem? keys (2 * i + 1) ≡ some (take 32 (sha512 (parent i)))

below : (i k : ℕ) → i < suc k → (i == k) ≡ false → i < k
below i k h old = ground arith

module _ (sha512 : Bytes → Bytes) (master : Bytes) where
  -- The parent of the next node, beside those of a tree.
  with_parent : (ℕ → Bytes) → ℕ → Bytes → ℕ → Bytes
  with_parent parent k p i = if i == k then p else parent i

  grow :
      (k : ℕ) (keys : List Bytes) (p : Bytes)
      → length keys ≡ 2 * k
      → get_elem? (master ∷ keys) k ≡ some p
      → IsTree sha512 master k keys
      → IsTree sha512 master (suc k) (keys ++ derive_children sha512 p)
  unfolding derive_children with_parent
  grow k keys p n at t =
      let ds = drop 32 (sha512 p) ∷ take 32 (sha512 p) ∷ [] in
      let before = λ (i : ℕ) (h : i < suc k) (old : (i == k) ≡ false). below i k h old in
      record {
        parent = with_parent t.parent k p;
        is_node = λ i h. elim (Bool-cases (i == k)) [
          | inl new ↦
              rw new (rw ((==_iff i k).0 new) (get_elem?-append_left (master ∷ keys) ds k p at))
          | inr old ↦ rw old (
              get_elem?-append_left (master ∷ keys) ds i (t.parent i)
                (t.is_node i (before i h old)))
        ];
        first_child = λ i h. elim (Bool-cases (i == k)) [
          | inl new ↦
              let e : 2 * i ≡ length keys + 0 = omega (arith, (==_iff i k).0 new, n) in
              rw new (ap (get_elem? (keys ++ ds)) e ∙ get_elem?-append_right keys ds 0)
          | inr old ↦ rw old (
              get_elem?-append_left keys ds (2 * i) (drop 32 (sha512 (t.parent i)))
                (t.first_child i (before i h old)))
        ];
        second_child = λ i h. elim (Bool-cases (i == k)) [
          | inl new ↦
              let e : 2 * i + 1 ≡ length keys + 1 = omega (arith, (==_iff i k).0 new, n) in
              rw new (ap (get_elem? (keys ++ ds)) e ∙ get_elem?-append_right keys ds 1)
          | inr old ↦ rw old (
              get_elem?-append_left keys ds (2 * i + 1) (take 32 (sha512 (t.parent i)))
                (t.second_child i (before i h old)))
        ];
      }

  -- What the loop returns: enough keys, and no more than one too many, in a tree.
  pub record Derives (num_target : ℕ) (r : Outcome (List Bytes)) : Type 0 where
    pub keys : List Bytes
    pub returns : r ≡ done keys
    pub rounds : ℕ
    pub two_each : length keys ≡ 2 * rounds
    pub enough : num_target ≤ length keys
    pub not_more : length keys ≤ num_target + 1
    pub tree : IsTree sha512 master rounds keys

  derive_loop-Derives :
      (fuel num_target k : ℕ) (keys queue : List Bytes)
      → num_target ≤ 2 * k + fuel
      → 2 * k ≤ num_target + 1
      → length keys ≡ 2 * k
      → drop k (master ∷ keys) ≡ queue
      → IsTree sha512 master k keys
      → Derives num_target (derive_loop sha512 (suc fuel) num_target keys queue (2 * k))
  unfolding derive_loop derive_children
  derive_loop-Derives fuel num_target k keys [] room most n e t =
      absurd (omega (arith, ap length e, length-drop k (master ∷ keys)))
  derive_loop-Derives zero num_target k keys (p ∷ queue) room most n e t = record {
    keys = keys;
    returns = ground arith;
    rounds = k;
    two_each = n;
    enough = omega (arith, n);
    not_more = omega (arith, n);
    tree = t;
  }
  derive_loop-Derives (suc fuel) num_target k keys (p ∷ queue) room most n e t =
      elim (Bool-cases (ltb (2 * k) num_target)) [
        | inl more ↦
            let (at, next) = drop-cons k (master ∷ keys) p queue e in
            let ds = drop 32 (sha512 p) ∷ take 32 (sha512 p) ∷ [] in
            let len : length (keys ++ ds) ≡ 2 * suc k = omega (arith, length-append keys ds, n) in
            let later : drop (suc k) (master ∷ (keys ++ ds)) ≡ queue ++ ds =
              drop-append (suc k) (master ∷ keys) ds (omega (arith, n)) ∙ ap (λ q. q ++ ds) next in
            let rest : Derives num_target
                (derive_loop sha512 (suc fuel) num_target (keys ++ ds) (queue ++ ds) (2 * suc k)) =
              derive_loop-Derives fuel num_target (suc k) (keys ++ ds) (queue ++ ds) (omega arith)
                (omega (arith, ltb→lt _ _ more)) len later (grow k keys p n at t) in
            let twice : 2 * suc k ≡ 2 * k + 2 = omega arith in
            rw more (
              subst
                (λ m.
                  Derives num_target
                    (derive_loop sha512 (suc fuel) num_target (keys ++ ds) (queue ++ ds) m))
                twice rest)
        | inr stop ↦ record {
          keys = keys;
          returns = rw stop;
          rounds = k;
          two_each = n;
          enough = ground arith;
          not_more = omega (arith, n);
          tree = t;
        }
      ]

  -- For every digest, master key and number of keys the derivation returns: an even number of keys,
  -- the number asked for or one more, which are the nodes of a binary tree in breadth-first order
  -- with the master key as its root.
  pub inverse_hash_tree_key_derivation-Derives :
      (num_target : ℕ)
      → Derives num_target (inverse_hash_tree_key_derivation sha512 master num_target)
  unfolding inverse_hash_tree_key_derivation
  inverse_hash_tree_key_derivation-Derives n =
      derive_loop-Derives n n 0 [] (master ∷ []) (omega arith) (omega arith) refl refl (record {
        parent = λ i. [];
        is_node = λ i h. absurd (omega arith);
        first_child = λ i h. absurd (omega arith);
        second_child = λ i h. absurd (omega arith);
      })
