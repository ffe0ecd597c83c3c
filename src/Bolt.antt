-- ===== src/Bolt.antt =====
-- github.com/boltdb/bolt, which both programs store in: a parameter of the development, with what
-- its documentation promises. A bucket is named by its place, the keys from the root to it.
pub mod Root
pub mod Toy
use duck_duck_xor.Base.{
  ◌-◌, ◌^◌, ◌≤◌, ◌<◌, ◌≡◌, refl, Bool, true, false, ◌&&◌, ◌||◌, Option, none, some, List, [], ◌∷◌,
  ◌++◌, arith, if◌then◌else◌, length, Bytes, bytes_eq, bytes_eq_refl, bytes_eq_iff,
}

abbrev pub Place : Type 0
Place = List Bytes

unfoldable pub place_eq : Place → Place → Bool
place_eq [] [] = true
place_eq [] (k ∷ q) = false
place_eq (j ∷ p) [] = false
place_eq (j ∷ p) (k ∷ q) = bytes_eq j k && place_eq p q

pub place_eq_refl : (p : Place) → place_eq p p ≡ true
unfolding place_eq
place_eq_refl [] = refl
place_eq_refl (k ∷ p) = ground (arith, bytes_eq_refl k, place_eq_refl p)

pub place_eq_sound : (p q : Place) → place_eq p q ≡ true → p ≡ q
unfolding place_eq
place_eq_sound [] [] h = refl
place_eq_sound [] (k ∷ q) h = absurd (ground arith)
place_eq_sound (j ∷ p) [] h = absurd (ground arith)
place_eq_sound (j ∷ p) (k ∷ q) h = ground (arith, bytes_eq_iff j k, place_eq_sound p q)

-- A key that bolt takes: not blank, and at most MaxKeySize long.
abbrev pub IsKey : Bytes → Type 0
IsKey k = (0 < length k) × (length k ≤ 32768)

pub record Bolt : Type 1 where
  pub Db : Type 0
  -- The bucket is there; the root always is.
  pub bucket : Db → Place → Bool
  -- Bucket.Get: nil for a key that is not there.
  pub get : Db → Place → Bytes → Option Bytes
  -- CreateBucketIfNotExists of a name in a bucket, in a transaction that may write or not. `none` is
  -- an error.
  pub create : Bool → Db → Place → Bytes → Option Db
  -- Bucket.Put in a transaction that may write. `none` is an error.
  pub put : Db → Place → Bytes → Bytes → Option Db
  pub bucket_root : (db : Db) → bucket db [] ≡ true
  -- A read-only transaction creates nothing.
  pub create_read_only : (db : Db) (p : Place) (name : Bytes) → create false db p name ≡ none
  -- A name that is a key and no stored value is created.
  pub create_returns :
      (db : Db) (p : Place) (name : Bytes)
      → bucket db p ≡ true
      → IsKey name
      → get db p name ≡ none
      → (db' : Db) × (create true db p name ≡ some db')
  pub create_bucket :
      (db db' : Db) (p q : Place) (name : Bytes)
      → create true db p name ≡ some db'
      → bucket db' q ≡ (place_eq (p ++ name ∷ []) q || bucket db q)
  pub create_get :
      (db db' : Db) (p q : Place) (name k : Bytes)
      → create true db p name ≡ some db'
      → get db' q k ≡ get db q k
  -- A key that is no bucket is written; values stay below 2 ^ 31 - 2 bytes.
  pub put_returns :
      (db : Db) (p : Place) (k v : Bytes)
      → bucket db p ≡ true
      → IsKey k
      → length v < 2 ^ 31 - 2
      → bucket db (p ++ k ∷ []) ≡ false
      → (db' : Db) × (put db p k v ≡ some db')
  pub put_get :
      (db db' : Db) (p q : Place) (k j v : Bytes)
      → put db p k v ≡ some db'
      → get db' q j ≡ (if place_eq p q && bytes_eq k j then some v else get db q j)
  pub put_bucket :
      (db db' : Db) (p q : Place) (k v : Bytes)
      → put db p k v ≡ some db'
      → bucket db' q ≡ bucket db q
