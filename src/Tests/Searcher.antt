-- ===== src/Tests/Searcher.antt =====
-- Writing to an empty store, and searching it.
use duck_duck_xor.Base.{ℕ, ◌≡◌, refl}
use duck_duck_xor.Base.{true, false, some, [], ◌∷◌, arith}
use duck_duck_xor.Base.{length, take, replicate}
use duck_duck_xor.Base.{Bytes, bytes_eq, be32}
use duck_duck_xor.Base.{Outcome, done, panic, blocked, ◌>>=◌}
use duck_duck_xor.Crypto.Toy.{toy, stretch, digest}
use duck_duck_xor.Bolt.{place_eq}
use duck_duck_xor.Bolt.Toy.{empty, toy_bolt}
use duck_duck_xor.Tset.{xor_bytes}
use duck_duck_xor.Tset.Values.{values}
use duck_duck_xor.EncIndex.Tuple.{TsetFragment, last_byte}
use duck_duck_xor.EncIndex.Tuple.Bounds.{element}
use duck_duck_xor.EncIndex.TsetWorker.Places.{Place, StoredAt}
use duck_duck_xor.Searcher.{
  empty_tuple, t_set_bucket_key, read_tuple, t_set_writer, tuple_fetcher, t_set_reader,
}
use duck_duck_xor.Searcher.Writer.{IsFragment, IsTset, last_written, t_set_writer-gets}
use duck_duck_xor.Searcher.Fetcher.{client_meta, tuple_fetcher-misses, read_tuple-StoredAt}
use duck_duck_xor.Searcher.Reader.{t_set_reader-panics}
use duck_duck_xor.Tests.Data.{duck}

abbrev fragment : TsetFragment
fragment = record { bucket = 9 ∷ []; label = replicate 16 8; payload = 1 ∷ 2 ∷ [] }

fragment-IsFragment : IsFragment fragment
fragment-IsFragment = record { bucket_size = refl; label_size = refl; payload_size = omega arith }

empty-IsTset : IsTset toy_bolt empty
empty-IsTset = record {
  root_free = refl;
  no_values = λ k. refl;
  no_buckets = λ b l. refl;
  one_byte = λ b h. absurd (ground arith);
}

abbrev written : toy_bolt.Db
written = t_set_writer toy_bolt (fragment ∷ []) empty

t_set_writer-gets_example :
    IsTset toy_bolt (t_set_writer toy_bolt (fragment ∷ []) empty)
    × ((b l : Bytes)
        → toy_bolt.get (t_set_writer toy_bolt (fragment ∷ []) empty) (t_set_bucket_key ∷ b ∷ []) l
          ≡ last_written toy_bolt
              (fragment ∷ [])
              b
              l
              (toy_bolt.get empty (t_set_bucket_key ∷ b ∷ []) l))
t_set_writer-gets_example =
    t_set_writer-gets toy_bolt (fragment ∷ []) empty (fragment-IsFragment, tt) empty-IsTset

written-IsTset : IsTset toy_bolt written
written-IsTset =
    (t_set_writer-gets toy_bolt (fragment ∷ []) empty (fragment-IsFragment, tt) empty-IsTset).0

written-root : toy_bolt.bucket written (t_set_bucket_key ∷ []) ≡ true
unfolding t_set_writer place_eq bytes_eq
written-root = refl

tuple_fetcher-misses_example :
    tuple_fetcher toy_bolt toy client_meta written duck 1 ≡ done empty_tuple
tuple_fetcher-misses_example =
    tuple_fetcher-misses toy toy_bolt client_meta written duck 1 refl written-IsTset written-root

t_set_reader-panics_example :
    t_set_reader toy toy_bolt client_meta written duck (λ i ts. ts) (λ i. false) 1 ≡ panic
t_set_reader-panics_example =
    t_set_reader-panics toy toy_bolt client_meta written duck (λ i ts. ts) (λ i. false) 0 refl

-- The second document of a word, in its slot, with blinded values of 28 bytes and of 27.
abbrev slot : Place
slot = record { stag = duck; index = 2; doc_id = 66051; is_last = false }

abbrev bytes_of : Outcome Bytes → Bytes
bytes_of (done b) = b
bytes_of panic = []
bytes_of blocked = []

abbrev in_slot : ℕ → TsetFragment
in_slot n = record {
  bucket = (values toy duck 2).bucket;
  label = (values toy duck 2).label;
  payload =
      bytes_of (xor_bytes (element (be32 66051) (replicate n 5) false) (values toy duck 2).otp);
}

stored28 : StoredAt toy slot (in_slot 28)
unfolding xor_bytes be32 last_byte stretch digest
stored28 = record {
  y = replicate 28 5;
  at_bucket = refl;
  at_label = refl;
  hides = refl;
  same_size = refl;
  y-le = omega arith;
}

stored27 : StoredAt toy slot (in_slot 27)
unfolding xor_bytes be32 last_byte stretch digest
stored27 = record {
  y = replicate 27 5;
  at_bucket = refl;
  at_label = refl;
  hides = refl;
  same_size = refl;
  y-le = omega arith;
}

read_tuple-StoredAt_example :
    (v : Bytes) × ((xor_bytes (values toy duck 2).otp (in_slot 28).payload >>= λ d.
    read_tuple client_meta 2 d)
      ≡ done (record {
        e_id = some (take 3 (be32 66051));
        blinding_val = some v;
        worker_index = 2;
        is_last = false;
      }))
    × (length v ≡ 24)
unfolding stored28
read_tuple-StoredAt_example = read_tuple-StoredAt toy slot (in_slot 28) stored28 2 refl
