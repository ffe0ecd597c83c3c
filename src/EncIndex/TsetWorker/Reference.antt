-- ===== src/EncIndex/TsetWorker/Reference.antt =====
-- The slots as the protocol means them, and where tSetWorker meets them.
use duck_duck_xor.Base.{ℕ, ◌+◌, ◌≤◌, ◌≡◌, refl, sym, ap, ◌∙◌}
use duck_duck_xor.Base.{false, List, [], ◌∷◌, ◌++◌, map, append_assoc, append-nil, arith}
use duck_duck_xor.Base.{if◌then◌else◌}
use duck_duck_xor.Base.{length}
use duck_duck_xor.Base.{Bytes, u32}
use duck_duck_xor.Base.{done}
use mathlib.Core.Path.{subst}
use duck_duck_xor.Crypto.{Primitives}
use duck_duck_xor.Keys.{KeyMap, dh_blind_key, s_tag_key, key_at}
use duck_duck_xor.Preprocess.{InvIndexDocument, contains}
use duck_duck_xor.EncIndex.Counter.{new_word_index_counter}
use duck_duck_xor.EncIndex.Counter.History.{occurrences-append, occurrences}
use duck_duck_xor.EncIndex.TsetWorker.{State, t_set_worker}
use duck_duck_xor.EncIndex.TsetWorker.Word.{Invertible}
use duck_duck_xor.EncIndex.TsetWorker.Places.{
  Place, AllStored, document_places, places, calls_of, all_calls,
}
use duck_duck_xor.EncIndex.TsetWorker.Document.{KeysFit, t_set_worker-AllStored}

-- How many documents have a word.
unfoldable pub documents_with : Bytes → List InvIndexDocument → ℕ
documents_with word [] = 0
documents_with word (d ∷ ds) = (if contains word d.words then 1 else 0) + documents_with word ds

-- F(K_t, w) is the stag of a word in every document, and a word's documents are numbered from 1.
abbrev pub reference_slot : Primitives → Bytes → List InvIndexDocument → ℕ → Bytes → Place
reference_slot c key seen doc_id word = record {
  stag = c.mac key word;
  index = u32 (documents_with word seen + 1);
  doc_id = doc_id;
  is_last = false;
}

unfoldable pub reference_places :
    Primitives → Bytes → List InvIndexDocument → List InvIndexDocument → List Place
reference_places c key seen [] = []
reference_places c key seen (d ∷ ds) =
    map (reference_slot c key seen d.doc_id) d.words ++ reference_places c key (seen ++ d ∷ []) ds

-- No document has more than one word.
abbrev pub AllSingle : List InvIndexDocument → Type 0
AllSingle [] = Unit {0}
AllSingle (d ∷ ds) = (length d.words ≤ 1) × AllSingle ds

all_calls-append :
    (ds : List InvIndexDocument) (d : InvIndexDocument)
    → all_calls (ds ++ d ∷ []) ≡ all_calls ds ++ calls_of d
unfolding all_calls
all_calls-append [] d = append-nil (calls_of d)
all_calls-append (e ∷ ds) d =
    ap (λ l. calls_of e ++ l) (all_calls-append ds d)
    ∙ sym (append_assoc (calls_of e) (all_calls ds) (calls_of d))

single-occurrences :
    (word : Bytes) (i : ℕ) (words : List Bytes)
    → length words ≤ 1
    → occurrences word (map (λ w. (w, i)) words) ≡ (if contains word words then 1 else 0)
unfolding occurrences contains
single-occurrences word i [] h = refl
single-occurrences word i (w ∷ []) h = ground arith
single-occurrences word i (w ∷ v ∷ ws) h = absurd (omega arith)

occurrences-all_calls :
    (word : Bytes) (ds : List InvIndexDocument)
    → AllSingle ds
    → occurrences word (all_calls ds) ≡ documents_with word ds
unfolding all_calls documents_with
occurrences-all_calls word [] h = unfold occurrences in refl
occurrences-all_calls word (d ∷ ds) h = omega (
  arith,
  occurrences-append word (calls_of d) (all_calls ds),
  single-occurrences word d.doc_id d.words h.0,
  occurrences-all_calls word ds h.1,
)

AllSingle-append :
    (ds : List InvIndexDocument) (d : InvIndexDocument)
    → AllSingle ds
    → length d.words ≤ 1
    → AllSingle (ds ++ d ∷ [])
AllSingle-append [] d h k = (k, tt)
AllSingle-append (e ∷ ds) d h k = (h.0, AllSingle-append ds d h.1 k)

single-places :
    (c : Primitives) (key : Bytes) (seen : List InvIndexDocument) (doc_id : ℕ) (words : List Bytes)
    → AllSingle seen
    → length words ≤ 1
    → document_places c key (all_calls seen) doc_id [] words
      ≡ map (reference_slot c key seen doc_id) words
unfolding document_places
single-places c key seen doc_id [] h k = refl
single-places c key seen doc_id (w ∷ []) h k = rw (occurrences-all_calls w seen h)
single-places c key seen doc_id (w ∷ v ∷ ws) h k = absurd (omega arith)

places-reference :
    (c : Primitives) (key : Bytes) (seen ds : List InvIndexDocument)
    → AllSingle seen
    → AllSingle ds
    → places c key (all_calls seen) ds ≡ reference_places c key seen ds
unfolding places reference_places
places-reference c key seen [] h k = refl
places-reference c key seen (d ∷ ds) h k = rw (
  single-places c key seen d.doc_id d.words h k.0,
  sym (all_calls-append seen d),
  places-reference c key (seen ++ d ∷ []) ds (AllSingle-append seen d h k.0) k.1,
)

-- With keys of 32 bytes and blinding values that have inverses, for documents of at most one word
-- each, tSetWorker returns, and its fragments stand in the slots of the protocol: the stag of a
-- document's word is F(K_t, w), and a word's documents are numbered from 1 in their order.
pub t_set_worker-reference :
    (c : Primitives) (order : ℕ) (keys : KeyMap) (ds : List InvIndexDocument)
    → KeysFit keys
    → Invertible c order (key_at keys dh_blind_key)
    → AllSingle ds
    → (s : State) × (t_set_worker c order keys new_word_index_counter ds ≡ done s)
      × AllStored c (reference_places c (key_at keys s_tag_key) [] ds) s.sent
t_set_worker-reference c order keys ds fit inv single =
    let (s, e, stored, counted) = t_set_worker-AllStored c order keys ds fit inv in
    let same : places c (key_at keys s_tag_key) [] ds
        ≡ reference_places c (key_at keys s_tag_key) [] ds =
      unfold all_calls in places-reference c (key_at keys s_tag_key) [] ds tt single in
    (s, e, subst (λ ps. AllStored c ps s.sent) same stored)
