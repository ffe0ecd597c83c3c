-- ===== src/Preprocess/Partition.antt =====
-- partitionStreams: the set of words of a document, and the copies.
use duck_duck_xor.Base.{◌≡◌, refl, inl, inr}
use duck_duck_xor.Base.{false, ◌||◌, List, [], ◌∷◌, ◌++◌, arith}
use duck_duck_xor.Base.{Bool-cases}
use duck_duck_xor.Base.{drop}
use duck_duck_xor.Base.{Bytes, bytes_eq_iff}
use duck_duck_xor.Preprocess.{
  Unicode, Document, contains, word_set, parse_text, partition_document, read_rest,
}

-- No word stands twice.
abbrev pub AllDistinct : List Bytes → Type 0
AllDistinct [] = Unit {0}
AllDistinct (w ∷ ws) = (contains w ws ≡ false) × AllDistinct ws

pub contains-append :
    (w : Bytes) (vs us : List Bytes) → contains w (vs ++ us) ≡ (contains w vs || contains w us)
unfolding contains
contains-append w [] us = refl
contains-append w (v ∷ vs) us = ground (arith, contains-append w vs us)

append-AllDistinct :
    (vs : List Bytes) (w : Bytes)
    → AllDistinct vs
    → contains w vs ≡ false
    → AllDistinct (vs ++ w ∷ [])
unfolding contains
append-AllDistinct [] w h k = (refl, tt)
append-AllDistinct (v ∷ vs) w h k = (
  ground (arith, contains-append v vs (w ∷ []), bytes_eq_iff v w, bytes_eq_iff w v),
  append-AllDistinct vs w h.1 (ground arith),
)

word_set-AllDistinct :
    (seen tokens : List Bytes) → AllDistinct seen → AllDistinct (word_set seen tokens)
unfolding word_set
word_set-AllDistinct seen [] h = h
word_set-AllDistinct seen (t ∷ ts) h = elim (Bool-cases (contains t seen)) [
  | inl old ↦ rw old (word_set-AllDistinct seen ts h)
  | inr new ↦ rw new (word_set-AllDistinct (seen ++ t ∷ []) ts (append-AllDistinct seen t h new))
]

contains-word_set :
    (w : Bytes) (seen tokens : List Bytes)
    → contains w (word_set seen tokens) ≡ (contains w seen || contains w tokens)
unfolding word_set contains
contains-word_set w seen [] = ground arith
contains-word_set w seen (t ∷ ts) = elim (Bool-cases (contains t seen)) [
  | inl old ↦ rw old (ground (arith, bytes_eq_iff t w, contains-word_set w seen ts))
  | inr new ↦
      rw new
        (ground (arith, contains-word_set w (seen ++ t ∷ []) ts, contains-append w seen (t ∷ [])))
]

-- For each document the inverted index gets every word once that ParseTokens cuts from the text
-- behind the read position, as the term frequency calculator gets them, and no other.
pub partition_document-copies :
    (u : Unicode) (d : Document)
    → let r = partition_document u d in
      (r.tf_out ≡ parse_text u (drop d.position d.content))
      × AllDistinct r.inv_index_out.words
      × ((w : Bytes) → contains w r.inv_index_out.words ≡ contains w r.tf_out)
unfolding partition_document read_rest
partition_document-copies u d =
    let tokens = parse_text u (drop d.position d.content) in
    (
      refl,
      word_set-AllDistinct [] tokens tt,
      (λ w. unfold contains in contains-word_set w [] tokens),
    )
