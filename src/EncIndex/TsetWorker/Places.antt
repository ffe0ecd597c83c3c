-- ===== src/EncIndex/TsetWorker/Places.antt =====
-- Where the tuples belong: a description of tSetWorker's output by the documents alone.
use duck_duck_xor.Base.{ℕ, ◌+◌, ◌≤◌, ◌≡◌}
use duck_duck_xor.Base.{Bool, false, List, [], ◌∷◌, ◌++◌, map}
use duck_duck_xor.Base.{length}
use duck_duck_xor.Base.{Bytes, u32, be32}
use duck_duck_xor.Base.{done}
use duck_duck_xor.Crypto.{Primitives}
use duck_duck_xor.Tset.{xor_bytes}
use duck_duck_xor.Tset.Values.{values}
use duck_duck_xor.EncIndex.Counter.History.{Call, occurrences}
use duck_duck_xor.EncIndex.Tuple.{TsetFragment}
use duck_duck_xor.EncIndex.Tuple.Bounds.{element}
use duck_duck_xor.Preprocess.{InvIndexDocument}
use duck_duck_xor.EncIndex.TsetWorker.Word.{Stores}

-- A slot of the t-set and the document that stands in it.
pub record Place : Type 0 where
  pub stag : Bytes
  pub index : ℕ
  pub doc_id : ℕ
  pub is_last : Bool

-- The fragment stands in the slot, and under the slot's pad it holds the end byte, the document's
-- identifier and a blinded value of at most 28 bytes.
pub record StoredAt (c : Primitives) (p : Place) (f : TsetFragment) : Type 0 where
  pub y : Bytes
  pub at_bucket : f.bucket ≡ (values c p.stag p.index).bucket
  pub at_label : f.label ≡ (values c p.stag p.index).label
  pub hides :
      xor_bytes (element (be32 p.doc_id) y p.is_last) (values c p.stag p.index).otp ≡ done f.payload
  pub same_size : length f.payload ≡ 5 + length y
  pub y-le : length y ≤ 28

-- The fragments stand in the slots, one for one and in order.
abbrev pub AllStored : Primitives → List Place → List TsetFragment → Type 0
AllStored c [] [] = Unit {0}
AllStored c [] (f ∷ fs) = ⊥
AllStored c (p ∷ ps) [] = ⊥
AllStored c (p ∷ ps) (f ∷ fs) = StoredAt c p f × AllStored c ps fs

pub AllStored-append :
    (c : Primitives) (ps qs : List Place) (fs gs : List TsetFragment)
    → AllStored c ps fs
    → AllStored c qs gs
    → AllStored c (ps ++ qs) (fs ++ gs)
AllStored-append c [] qs [] gs h k = k
AllStored-append c [] qs (f ∷ fs) gs h k = absurd h
AllStored-append c (p ∷ ps) qs [] gs h k = absurd h
AllStored-append c (p ∷ ps) qs (f ∷ fs) gs h k = (h.0, AllStored-append c ps qs fs gs h.1 k)

pub Stores-StoredAt :
    {c : Primitives} {order : ℕ} {stag : Bytes} {index doc_id : ℕ} {is_last : Bool} {z xind : Bytes}
    {f : TsetFragment}
    → Stores c order stag index doc_id is_last z xind f
    → StoredAt c (record { stag = stag; index = index; doc_id = doc_id; is_last = is_last }) f
Stores-StoredAt s = record {
  y = s.y;
  at_bucket = s.at_bucket;
  at_label = s.at_label;
  hides = s.hides;
  same_size = s.same_size;
  y-le = s.y-le;
}

-- The slots of a document's words, after earlier calls of the counter. A word's index is the number
-- of documents that have it so far. Its stag is the PRF of every word of the document up to it,
-- since the hash is reset behind the document only.
unfoldable pub document_places :
    Primitives → Bytes → List Call → ℕ → Bytes → List Bytes → List Place
document_places c key earlier doc_id prefix [] = []
document_places c key earlier doc_id prefix (word ∷ words) =
    record {
      stag = c.mac key (prefix ++ word);
      index = u32 (occurrences word earlier + 1);
      doc_id = doc_id;
      is_last = false;
    }
    ∷ document_places c key (earlier ++ (word, doc_id) ∷ []) doc_id (prefix ++ word) words

-- The counter's calls for a document.
abbrev pub calls_of : InvIndexDocument → List Call
calls_of d = map (λ w. (w, d.doc_id)) d.words

unfoldable pub places : Primitives → Bytes → List Call → List InvIndexDocument → List Place
places c key earlier [] = []
places c key earlier (d ∷ ds) =
    document_places c key earlier d.doc_id [] d.words ++ places c key (earlier ++ calls_of d) ds

unfoldable pub all_calls : List InvIndexDocument → List Call
all_calls [] = []
all_calls (d ∷ ds) = calls_of d ++ all_calls ds
