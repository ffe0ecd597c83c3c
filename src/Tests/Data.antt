-- ===== src/Tests/Data.antt =====
-- Inputs that the tests share: primitives, keys, words and documents.
use duck_duck_xor.Base.{ℕ, ◌+◌, ◌*◌, ◌%◌, ◌≡◌, refl, ap}
use duck_duck_xor.Base.{Option, none, some, [], ◌∷◌, ◌++◌, arith}
use duck_duck_xor.Base.{length, drop, replicate, length-append, length-replicate}
use duck_duck_xor.Base.{false, ◌&&◌, leb, if◌then◌else◌}
use duck_duck_xor.Base.{Bytes, from_bytes}
use mathlib.Core.Path.{subst}
use duck_duck_xor.Crypto.{Primitives}
use duck_duck_xor.Keys.Setup.{SecretKey}
use duck_duck_xor.Crypto.Toy.{stretch, length-stretch, digest, toy}
use duck_duck_xor.Keys.{KeyMap, key_at}
use duck_duck_xor.Preprocess.{InvIndexDocument, Unicode}
use duck_duck_xor.EncIndex.XsetWorker.{Curve}
use duck_duck_xor.EncIndex.TsetWorker.Word.{Invertible}
use duck_duck_xor.EncIndex.TsetWorker.Document.{KeysFit}

abbrev pub key7 : Bytes
key7 = replicate 32 7

abbrev pub keys7 : KeyMap
keys7 = λ k. some key7

pub keys7-KeysFit : KeysFit keys7
unfolding key_at
keys7-KeysFit = record { x_ind = refl; blind = refl; w_trap = refl; s_tag = refl }

-- A MAC whose values are odd numbers, so that they have inverses modulo 2.
pub length-odd : (m : ℕ) → length (stretch 15 m ++ 1 ∷ []) ≡ 16
length-odd m = omega (arith, length-append (stretch 15 m) (1 ∷ []), length-stretch 15 m)

abbrev pub odd : Primitives
odd = record toy {
  mac = λ k m. stretch 15 (digest (digest 7 k) m) ++ 1 ∷ [];
  length-mac = λ k m. length-odd _;
}

from_bytes-odd : (acc : ℕ) (xs : Bytes) → from_bytes acc (xs ++ 1 ∷ []) % 2 ≡ 1
unfolding from_bytes
from_bytes-odd acc [] = omega arith
from_bytes-odd acc (x ∷ xs) = from_bytes-odd (acc * 256 + x) xs

pub odd-Invertible : (key : Bytes) → Invertible odd 2 key
odd-Invertible key = record {
  pos = omega arith;
  small = omega arith;
  inverse = λ m. 1;
  inverse-lt = λ m. omega arith;
  inverts = λ m. omega (arith, from_bytes-odd 0 (stretch 15 (digest (digest 7 key) m)));
}

abbrev pub duck : Bytes
duck = b'd' ∷ b'u' ∷ b'c' ∷ b'k' ∷ []

abbrev pub xor : Bytes
xor = b'x' ∷ b'o' ∷ b'r' ∷ []

-- Document 1 has both words, and document 2 one of them.
abbrev pub both_words : InvIndexDocument
both_words = record { words = duck ∷ xor ∷ []; doc_id = 1 }

abbrev pub one_word : InvIndexDocument
one_word = record { words = duck ∷ []; doc_id = 2 }

abbrev pub wordless : InvIndexDocument
wordless = record { words = []; doc_id = 3 }

-- A group that runs: a point is the text of the scalars.
abbrev pub toy_curve : Curve
toy_curve = record {
  Point = Bytes;
  scalar_base_mult = λ k. k;
  scalar_mult = λ p k. p ++ k;
  marshal = λ p. 4 ∷ p;
}

-- A cipher that runs: the nonce, forty times, before the text.
abbrev pub opened : Bytes → Option Bytes
opened [] = none
opened (b ∷ e) = some (drop 39 e)

pub toy_opens : (n : ℕ) (m e : Bytes) → some (replicate 40 n ++ m) ≡ some e → opened e ≡ some m
toy_opens n m e h =
    let same : replicate 40 n ++ m ≡ e = ground (arith, h) in
    subst (λ x. opened x ≡ some m) same refl

pub toy_length :
    (n : ℕ) (m e : Bytes) → some (replicate 40 n ++ m) ≡ some e → length e ≡ length m + 40
toy_length n m e h =
    let same : replicate 40 n ++ m ≡ e = ground (arith, h) in
    omega (arith, ap length same, length-append (replicate 40 n) m, length-replicate 40 n)

abbrev pub secret : SecretKey
secret = record {
  encrypt = λ n m. some (replicate 40 n ++ m);
  decrypt = opened;
  decrypt-encrypt = toy_opens;
  encrypt-length = toy_length;
}

-- Letters are a to z, and nothing is a number.
abbrev pub ascii : Unicode
ascii = record {
  decode = λ text. text;
  encode = λ word. word;
  to_lower = λ c. if leb 65 c && leb c 90 then c + 32 else c;
  is_letter = λ c. leb 97 c && leb c 122;
  is_number = λ c. false;
}
