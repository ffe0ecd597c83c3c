-- ===== src/Bloom/Toy.antt =====
-- A filter that runs, for tests: the bytes of all that was added.
use duck_duck_xor.Base.{ℕ, ◌≡◌, refl}
use duck_duck_xor.Base.{Bool, true, false, ◌&&◌, ◌||◌, some, [], ◌∷◌, ◌++◌, arith}
use duck_duck_xor.Base.{◌==◌}
use duck_duck_xor.Base.{Bytes}
use duck_duck_xor.Bloom.{BloomLib}

unfoldable pub has_byte : ℕ → Bytes → Bool
has_byte b [] = false
has_byte b (c ∷ cs) = (c == b) || has_byte b cs

unfoldable pub has_bytes : Bytes → Bytes → Bool
unfolding has_byte
has_bytes f [] = true
has_bytes f (b ∷ bs) = has_byte b f && has_bytes f bs

pub has_byte-append_left : (b : ℕ) (f g : Bytes) → has_byte b f ≡ true → has_byte b (f ++ g) ≡ true
unfolding has_byte
has_byte-append_left b [] g h = absurd (ground arith)
has_byte-append_left b (c ∷ f) g h = ground (arith, has_byte-append_left b f g)

pub has_byte-append_right : (b : ℕ) (f g : Bytes) → has_byte b g ≡ true → has_byte b (f ++ g) ≡ true
unfolding has_byte
has_byte-append_right b [] g h = h
has_byte-append_right b (c ∷ f) g h = ground (arith, has_byte-append_right b f g h)

pub has_bytes-append_left : (f g x : Bytes) → has_bytes f x ≡ true → has_bytes (f ++ g) x ≡ true
unfolding has_bytes
has_bytes-append_left f g [] h = refl
has_bytes-append_left f g (b ∷ bs) h =
    ground (arith, has_byte-append_left b f g, has_bytes-append_left f g bs)

pub has_bytes-cons : (f x : Bytes) (b : ℕ) → has_bytes f x ≡ true → has_bytes (b ∷ f) x ≡ true
unfolding has_bytes has_byte
has_bytes-cons f [] b h = refl
has_bytes-cons f (c ∷ x) b h = ground (arith, has_bytes-cons f x b)

pub has_bytes_self : (f x : Bytes) → has_bytes (f ++ x) x ≡ true
unfolding has_bytes has_byte
has_bytes_self [] [] = refl
has_bytes_self [] (b ∷ bs) = ground (arith, has_bytes-cons bs bs b, has_bytes_self [] bs)
has_bytes_self (c ∷ f) x = has_bytes-cons (f ++ x) x c (has_bytes_self f x)

abbrev pub toy_bloom : BloomLib
toy_bloom = record {
  Filter = Bytes;
  new_with_estimates = λ n. [];
  add = λ f x. f ++ x;
  test = has_bytes;
  gob_encode = λ f. f;
  gob_decode = λ b. some b;
  test-add_self = has_bytes_self;
  test-add_kept = λ f x y. has_bytes-append_left f x y;
  gob_decode-gob_encode = λ f. refl;
}
