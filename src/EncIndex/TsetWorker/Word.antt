-- ===== src/EncIndex/TsetWorker/Word.antt =====
-- One word of one document: what is sent and how the worker's hashes move on.
use duck_duck_xor.Base.{ℕ, ◌+◌, ◌*◌, ◌%◌, ◌^◌, ◌≤◌, ◌<◌, ◌≡◌, refl}
use duck_duck_xor.Base.{Bool, ◌++◌}
use duck_duck_xor.Base.{length}
use duck_duck_xor.Base.{Bytes, be32, from_bytes}
use duck_duck_xor.Base.{done}
use duck_duck_xor.Crypto.{Primitives, write, sum}
use duck_duck_xor.Tset.{permute_doc_id, xor_bytes}
use duck_duck_xor.Tset.Values.{values}
use duck_duck_xor.EncIndex.Tuple.{TsetFragment, compute_blinding_value, compute_xind}
use duck_duck_xor.EncIndex.Tuple.Bounds.{stag_after, element, calc_tset_tuple-fits}
use duck_duck_xor.EncIndex.Tuple.Inverse.{compute_blinded_xind-unblinds}
use duck_duck_xor.EncIndex.TsetWorker.{Prfs, make_tuple}

-- Every blinding value under a key has an inverse modulo the order.
pub record Invertible (c : Primitives) (order : ℕ) (key : Bytes) : Type 0 where
  pub pos : 0 < order
  pub small : order ≤ 256 ^ 28
  pub inverse : Bytes → ℕ
  pub inverse-lt : (m : Bytes) → inverse m < order
  pub inverts : (m : Bytes) → (from_bytes 0 (c.mac key m) * inverse m) % order ≡ 1 % order

-- The fragment stores, at the place of a stag and an index, the end byte, the document and a
-- blinded xind y, hidden by the pad of that place.
pub record Stores (c : Primitives) (order : ℕ) (stag : Bytes) (index doc_id : ℕ) (is_last : Bool)
    (z xind : Bytes) (f : TsetFragment) : Type 0 where
  pub y : Bytes
  pub at_bucket : f.bucket ≡ (values c stag index).bucket
  pub at_label : f.label ≡ (values c stag index).label
  pub hides : xor_bytes (element (be32 doc_id) y is_last) (values c stag index).otp ≡ done f.payload
  pub same_size : length f.payload ≡ 5 + length y
  pub y-le : length y ≤ 28
  pub unblinds : (from_bytes 0 y * from_bytes 0 z) % order ≡ from_bytes 0 xind % order

-- The hashes after one word: the three that are used have grown, by the text of the call.
abbrev pub grown : Prfs → Bytes → ℕ → ℕ → Prfs
grown p word blind_counter doc_id = record p {
  x_ind = write p.x_ind (be32 doc_id);
  blind = write p.blind (word ++ be32 blind_counter);
  s_tag = write p.s_tag word;
}

pub make_tuple-Stores :
    (c : Primitives) (order : ℕ) (p : Prfs) (word : Bytes) (b index doc_id : ℕ) (is_last : Bool)
    → Invertible c order p.blind.key
    → (f : TsetFragment) × (make_tuple c order p word b index doc_id is_last
        ≡ done (grown p word b doc_id, f))
      × Stores c order
          (stag_after c p.s_tag word)
          index
          doc_id
          is_last
          (sum c (grown p word b doc_id).blind)
          (sum c (grown p word b doc_id).x_ind)
          f
unfolding make_tuple compute_blinding_value compute_xind permute_doc_id
make_tuple-Stores c order p word b index doc_id is_last inv =
    let z = sum c (grown p word b doc_id).blind in
    let xind = sum c (grown p word b doc_id).x_ind in
    let m = p.blind.written ++ (word ++ be32 b) in
    let (y, e, unblinds, small) =
      compute_blinded_xind-unblinds z xind order (inv.inverse m) inv.pos inv.small
        (inv.inverse-lt m) (inv.inverts m) in
    let (hidden, e', hides, size) =
      calc_tset_tuple-fits c p.s_tag word index (be32 doc_id) y is_last (unfold be32 in refl)
        small in
    (
      record {
        bucket = (values c (stag_after c p.s_tag word) index).bucket;
        label = (values c (stag_after c p.s_tag word) index).label;
        payload = hidden;
      },
      rw (e, e'),
      record {
        y = y;
        at_bucket = refl;
        at_label = refl;
        hides = hides;
        same_size = size;
        y-le = small;
        unblinds = unblinds;
      },
    )
