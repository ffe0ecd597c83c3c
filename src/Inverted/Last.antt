-- ===== src/Inverted/Last.antt =====
-- The last document of every word against the documents.
use duck_duck_xor.Base.{ℕ, ◌+◌, ◌≤◌, ◌≡◌, ap, ◌∙◌, inl, inr}
use duck_duck_xor.Base.{Bool, none, some, List, [], ◌∷◌, arith}
use duck_duck_xor.Base.{if◌then◌else◌, Bool-cases}
use duck_duck_xor.Base.{length}
use duck_duck_xor.Base.{Bytes, bytes_eq, bytes_eq_iff}
use duck_duck_xor.Base.{insert, lookup-insert}
use duck_duck_xor.Preprocess.{InvIndexDocument}
use duck_duck_xor.TfCalc.{Frequencies, frequency_of}
use duck_duck_xor.Inverted.{max_int, index_words, index_documents}

-- The greatest identifier of the documents that have a word, zero if none has.
unfoldable pub last_in : Bytes → List Bytes → ℕ → ℕ
last_in w [] doc_id = 0
last_in w (token ∷ words) doc_id = if bytes_eq token w then doc_id else last_in w words doc_id

unfoldable pub last_of : Bytes → List InvIndexDocument → ℕ
unfolding last_in max_int
last_of w [] = 0
last_of w (doc ∷ docs) = max_int (last_in w doc.words doc.doc_id) (last_of w docs)

-- How many words the documents have in all.
unfoldable pub words_of : List InvIndexDocument → ℕ
words_of [] = 0
words_of (doc ∷ docs) = length doc.words + words_of docs

pub frequency_of-insert :
    (w key : Bytes) (v : ℕ) (m : Frequencies)
    → frequency_of w (insert key v m) ≡ (if bytes_eq key w then v else frequency_of w m)
unfolding frequency_of
frequency_of-insert w key v m =
    ap (λ o. elim o [ none ↦ 0 | some n ↦ n ]) (lookup-insert key w v m)
    ∙ elim (Bool-cases (bytes_eq key w)) [ inl same ↦ rw same | inr other ↦ rw other ]

-- The map entry of a word that is raised.
pub frequency_of-raise :
    (w key : Bytes) (v : ℕ) (m : Frequencies)
    → frequency_of w (insert key (max_int (frequency_of key m) v) m)
      ≡ max_int (if bytes_eq key w then v else 0) (frequency_of w m)
unfolding max_int
frequency_of-raise w key v m = elim (Bool-cases (bytes_eq key w)) [
  | inl same ↦
      rw
        (
          frequency_of-insert w key (max_int (frequency_of key m) v) m,
          same,
          (bytes_eq_iff key w).0 same,
        )
        (ground arith)
  | inr other ↦
      rw (frequency_of-insert w key (max_int (frequency_of key m) v) m, other) (ground arith)
]

last_in-small : (w : Bytes) (words : List Bytes) (d : ℕ) → last_in w words d ≤ d
unfolding last_in
last_in-small w [] d = omega arith
last_in-small w (token ∷ words) d = ground (arith, last_in-small w words d)

raise_last :
    (same : Bool) (d rest before : ℕ)
    → rest ≤ d
    → max_int rest (max_int (if same then d else 0) before)
      ≡ max_int (if same then d else rest) before
unfolding max_int
raise_last same d rest before small = ground arith

pub swap_max : (a b c : ℕ) → max_int a (max_int b c) ≡ max_int (max_int b a) c
unfolding max_int
swap_max a b c = ground arith

-- What a map says of a word, when an entry that is raised counts.
module _ (f : Bytes → Frequencies → ℕ)
    (raise : (w key : Bytes) (v : ℕ) (m : Frequencies)
      → f w (insert key (max_int (frequency_of key m) v) m)
        ≡ max_int (if bytes_eq key w then v else 0) (f w m)) where
  index_words-last :
      (w : Bytes) (d : ℕ) (words : List Bytes) (m : Frequencies) (n : ℕ)
      → (f w (index_words d words (m, n)).0 ≡ max_int (last_in w words d) (f w m))
        × ((index_words d words (m, n)).1 ≡ n + length words)
  unfolding index_words last_in
  index_words-last w d [] m n = (unfold max_int in ground arith, omega arith)
  index_words-last w d (token ∷ words) m n =
      let (last, counted) =
        index_words-last w d words (insert token (max_int (frequency_of token m) d) m) (n + 1) in
      (
        last
            ∙ ap (max_int (last_in w words d)) (raise w token d m)
            ∙ raise_last (bytes_eq token w) d (last_in w words d) (f w m) (last_in-small w words d),
        omega (arith, counted),
      )

  pub index_documents-last :
      (w : Bytes) (docs : List InvIndexDocument) (m : Frequencies) (n : ℕ)
      → (f w (index_documents docs (m, n)).0 ≡ max_int (last_of w docs) (f w m))
        × ((index_documents docs (m, n)).1 ≡ n + words_of docs)
  unfolding index_documents last_of words_of
  index_documents-last w [] m n = (unfold max_int in ground arith, omega arith)
  index_documents-last w (doc ∷ docs) m n =
      let (last, counted) = index_words-last w doc.doc_id doc.words m n in
      let s = index_words doc.doc_id doc.words (m, n) in
      let (last', counted') = index_documents-last w docs s.0 s.1 in
      (
        last'
            ∙ ap (max_int (last_of w docs)) last
            ∙ swap_max (last_of w docs) (last_in w doc.words doc.doc_id) (f w m),
        omega (arith, counted, counted'),
      )

pub max_none : (a : ℕ) → max_int a 0 ≡ a
unfolding max_int
max_none a = ground arith
