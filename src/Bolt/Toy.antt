-- ===== src/Bolt/Toy.antt =====
-- A store that runs, for tests: the buckets and the values as functions.
use duck_duck_xor.Base.{◌-◌, ◌^◌, ◌<◌, ◌≡◌, refl}
use duck_duck_xor.Base.{
  Bool, true, false, ◌&&◌, ◌||◌, not, Option, none, some, [], ◌∷◌, ◌++◌, arith,
}
use duck_duck_xor.Base.{ltb, leb, if◌then◌else◌}
use duck_duck_xor.Base.{length}
use duck_duck_xor.Base.{Bytes, bytes_eq}
use duck_duck_xor.Bolt.{Bolt, Place, place_eq, IsKey}

pub record Store : Type 0 where
  pub has : Place → Bool
  pub value : Place → Bytes → Option Bytes

abbrev pub is_none : Option Bytes → Bool
is_none none = true
is_none (some v) = false

abbrev pub key_ok : Bytes → Bool
key_ok k = ltb 0 (length k) && leb (length k) 32768

abbrev pub bucket : Store → Place → Bool
bucket db [] = true
bucket db (k ∷ p) = db.has (k ∷ p)

abbrev pub create : Bool → Store → Place → Bytes → Option Store
create writable db p name =
    if writable && (bucket db p && (key_ok name && is_none (db.value p name)))
    then some (record db { has = λ q. place_eq (p ++ name ∷ []) q || db.has q })
    else none

abbrev pub put : Store → Place → Bytes → Bytes → Option Store
put db p k v =
    if bucket db p && (key_ok k && (ltb (length v) (2 ^ 31 - 2) && not (bucket db (p ++ k ∷ []))))
    then some
        (record db { value = λ q j. if place_eq p q && bytes_eq k j then some v else db.value q j })
    else none

pub create_returns :
    (db : Store) (p : Place) (name : Bytes)
    → bucket db p ≡ true
    → IsKey name
    → db.value p name ≡ none
    → (db' : Store) × (create true db p name ≡ some db')
create_returns db p name h key e =
    (record db { has = λ q. place_eq (p ++ name ∷ []) q || db.has q }, ground arith)

pub create_bucket :
    (db db' : Store) (p q : Place) (name : Bytes)
    → create true db p name ≡ some db'
    → bucket db' q ≡ (place_eq (p ++ name ∷ []) q || bucket db q)
create_bucket db db' p [] name e = ground arith
create_bucket db db' p (k ∷ q) name e = ground arith

pub create_get :
    (db db' : Store) (p q : Place) (name k : Bytes)
    → create true db p name ≡ some db'
    → db'.value q k ≡ db.value q k
create_get db db' p q name k e = ground arith

pub put_returns :
    (db : Store) (p : Place) (k v : Bytes)
    → bucket db p ≡ true
    → IsKey k
    → length v < 2 ^ 31 - 2
    → bucket db (p ++ k ∷ []) ≡ false
    → (db' : Store) × (put db p k v ≡ some db')
put_returns db p k v h key small free = (
  record db { value = λ q j. if place_eq p q && bytes_eq k j then some v else db.value q j },
  ground arith,
)

pub put_get :
    (db db' : Store) (p q : Place) (k j v : Bytes)
    → put db p k v ≡ some db'
    → db'.value q j ≡ (if place_eq p q && bytes_eq k j then some v else db.value q j)
put_get db db' p q k j v e = ground arith

pub put_bucket :
    (db db' : Store) (p q : Place) (k v : Bytes)
    → put db p k v ≡ some db'
    → bucket db' q ≡ bucket db q
put_bucket db db' p [] k v e = refl
put_bucket db db' p (j ∷ q) k v e = ground arith

abbrev pub empty : Store
empty = record { has = λ q. false; value = λ q j. none }

abbrev pub toy_bolt : Bolt
toy_bolt = record {
  Db = Store;
  bucket = bucket;
  get = λ db p k. db.value p k;
  create = create;
  put = put;
  bucket_root = λ db. refl;
  create_read_only = λ db p name. refl;
  create_returns = create_returns;
  create_bucket = create_bucket;
  create_get = create_get;
  put_returns = put_returns;
  put_get = put_get;
  put_bucket = put_bucket;
}
