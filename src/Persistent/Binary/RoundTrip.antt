-- ===== src/Persistent/Binary/RoundTrip.antt =====
-- Reads of what was written.
use attemory.Base.Int.{
  to_word64-lt, to_word32-lt, of_word, of_word-to_word64, of_word-to_word32, to_word, InI64, InI32,
  ℤ,
}
use attemory.Base.Words.{of_le_bytes-le_bytes, length-le_bytes, le_bytes, byte_limit}
use attemory.Base.Text.{Bytes}
use attemory.Base.{
  ℕ, ◌≤◌, ◌<◌, ◌≡◌, refl, ap, subst, Bool, true, false, some, List, [], ◌∷◌, ◌++◌, arith, ltb,
  if◌then◌else◌, length, All,
}
use attemory.Persistent.Binary.{
  max_vector_items, fail, max_string_bytes, write_i64_vector, write_each, write_string, write_bool,
  write_i64, write_i32, write_pod, give, read_i64_vector, read_each, read_string, read_bool,
  read_i64, read_i32, read_pod, read_bytes, Reader, ◌>>=◌,
}

-- The read takes these bytes from the front of any stream, and gives that value.
abbrev pub Reads {ℓ} : {A : Type ℓ} → Reader A → Bytes → A → Type ℓ
Reads r bytes a = (rest : Bytes) → r (bytes ++ rest) ≡ some (a, rest)

pub append_assoc : (xs ys zs : Bytes) → (xs ++ ys) ++ zs ≡ xs ++ (ys ++ zs)
append_assoc [] ys zs = refl
append_assoc (x ∷ xs) ys zs = ap (λ r. x ∷ r) (append_assoc xs ys zs)

module _ {ℓ κ} {A : Type ℓ} {B : Type κ} where
  pub Reads-then :
      (r : Reader A) (k : A → Reader B) (xs ys : Bytes) (a : A) (b : B)
      → Reads r xs a
      → Reads (k a) ys b
      → Reads (r >>= k) (xs ++ ys) b
  Reads-then r k xs ys a b first second rest =
      rw (append_assoc xs ys rest, first (ys ++ rest)) (second rest)

  pub Reads-last :
      (r : Reader A) (f : A → B) (xs : Bytes) (a : A)
      → Reads r xs a
      → Reads (r >>= λ x. give (f x)) xs (f a)
  Reads-last r f xs a first rest = rw (first rest) refl

-- A size within its limit.
within {ℓ} :
    {A : Type ℓ} (limit n : ℕ) (r : Reader A) (xs : Bytes) (a : A)
    → n ≤ limit
    → Reads r xs a
    → Reads (if ltb limit n then fail else r) xs a
within limit n r xs a h reads rest =
    let fits : ltb limit n ≡ false = ground arith in rw fits (reads rest)

read_bytes-Reads : (xs : Bytes) → Reads (read_bytes (length xs)) xs xs
unfolding read_bytes
read_bytes-Reads [] rest = refl
read_bytes-Reads (x ∷ xs) rest = rw (read_bytes-Reads xs rest) refl

pub read_pod-Reads : (k n : ℕ) → n < byte_limit k → Reads (read_pod k) (write_pod k n) n
unfolding read_pod write_pod
read_pod-Reads k n h rest =
    let taken =
      subst (λ m. read_bytes m (le_bytes k n ++ rest) ≡ some (le_bytes k n, rest))
        (length-le_bytes k n) (read_bytes-Reads (le_bytes k n) rest) in
    rw (taken, of_le_bytes-le_bytes k n h) refl

pub read_i32-Reads : (z : ℤ) → InI32 z → Reads read_i32 (write_i32 z) z
unfolding read_i32 write_i32
read_i32-Reads z h =
    let word = to_word 32 z in
    subst (λ v. Reads read_i32 (write_i32 z) v) (of_word-to_word32 z h)
      (Reads-last (read_pod 4) (of_word 32) (write_pod 4 word) word
        (read_pod-Reads 4 word (to_word32-lt z)))

pub read_i64-Reads : (z : ℤ) → InI64 z → Reads read_i64 (write_i64 z) z
unfolding read_i64 write_i64
read_i64-Reads z h =
    let word = to_word 64 z in
    subst (λ v. Reads read_i64 (write_i64 z) v) (of_word-to_word64 z h)
      (Reads-last (read_pod 8) (of_word 64) (write_pod 8 word) word
        (read_pod-Reads 8 word (to_word64-lt z)))

pub read_bool-Reads : (b : Bool) → Reads read_bool (write_bool b) b
unfolding read_bool write_bool
read_bool-Reads true rest = refl
read_bool-Reads false rest = refl

pub read_string-Reads :
    (s : Bytes) → length s ≤ max_string_bytes → Reads read_string (write_string s) s
unfolding read_string write_string
read_string-Reads s h =
    Reads-then (read_pod 8) (λ size. if ltb max_string_bytes size then fail else read_bytes size)
      (write_pod 8 (length s)) s (length s) s (read_pod-Reads 8 (length s) (omega arith))
      (within max_string_bytes (length s) (read_bytes (length s)) s s h (read_bytes-Reads s))

pub read_each-Reads {ℓ} :
    {A : Type ℓ} (read : Reader A) (write : A → Bytes) (xs : List A)
    → All (λ a. Reads read (write a) a) xs
    → Reads (read_each read (length xs)) (write_each write xs) xs
unfolding read_each write_each
read_each-Reads read write [] h = λ rest. refl
read_each-Reads read write (x ∷ xs) h =
    Reads-then read (λ a. read_each read (length xs) >>= λ more. give (a ∷ more)) (write x)
      (write_each write xs) x (x ∷ xs) h.0
      (Reads-last (read_each read (length xs)) (λ more. x ∷ more) (write_each write xs) xs
        (read_each-Reads read write xs h.1))

All_read : (xs : List ℤ) → All InI64 xs → All (λ z. Reads read_i64 (write_i64 z) z) xs
All_read [] h = tt
All_read (x ∷ xs) h = (read_i64-Reads x h.0, All_read xs h.1)

pub read_i64_vector-Reads :
    (xs : List ℤ)
    → length xs ≤ max_vector_items
    → All InI64 xs
    → Reads read_i64_vector (write_i64_vector xs) xs
unfolding read_i64_vector write_i64_vector
read_i64_vector-Reads xs h a =
    Reads-then (read_pod 8)
      (λ size. if ltb max_vector_items size then fail else read_each read_i64 size)
      (write_pod 8 (length xs)) (write_each write_i64 xs) (length xs) xs
      (read_pod-Reads 8 (length xs) (omega arith))
      (within max_vector_items (length xs) (read_each read_i64 (length xs))
        (write_each write_i64 xs) xs h (read_each-Reads read_i64 write_i64 xs (All_read xs a)))

append_nil : (xs : Bytes) → xs ++ [] ≡ xs
append_nil [] = refl
append_nil (x ∷ xs) = ap (λ r. x ∷ r) (append_nil xs)

-- A read up to the end of the stream.
pub Reads-end {ℓ} :
    {A : Type ℓ} (r : Reader A) (xs : Bytes) (a : A) → Reads r xs a → r xs ≡ some (a, [])
Reads-end r xs a reads = subst (λ ys. r ys ≡ some (a, [])) (append_nil xs) (reads [])
