-- ===== src/Persistent/Binary.antt =====
-- src/persistent/binary_io.cpp and binary_io.h: values as bytes of a file. A stream that is read is
-- the bytes that are left of it; a read fails where they are too few. A `size_t` has 64 bits, and
-- what is written to a string of bytes never fails: a stream that fails is in Persistent/Replace.
pub mod RoundTrip
use attemory.Base.Int.{of_word, to_word, ℤ}
use attemory.Base.Words.{of_le_bytes, le_bytes}
use attemory.Base.Text.{Bytes}
use attemory.Base.{
  ℕ, zero, suc, ◌+◌, ◌-◌, ◌*◌, ◌/◌, ◌%◌, ◌^◌, ◌≤◌, ◌<◌, ◌≡◌, refl, sym, ap, subst, ◌∙◌, ◌≢◌, ◌↔◌,
  ◌⊎◌, inl, inr, Bool, true, false, ◌&&◌, ◌||◌, not, Option, none, some, List, [], ◌∷◌, ◌++◌, map,
  arith, ltb, leb, ◌==◌, if◌then◌else◌, Bool-cases, Option-cases, length, All,
}

-- A read: the value and what is left of the stream, or none for a `false`.
abbrev pub Reader {ℓ} : Type ℓ → Type ℓ
Reader A = Bytes → Option (A × Bytes)

abbrev pub and_then {ℓ κ} :
    {A : Type ℓ} {B : Type κ} → Option (A × Bytes) → (A → Reader B) → Option (B × Bytes)
and_then none k = none
and_then (some (a, rest)) k = k a rest

infixl 5 ◌>>=◌
abbrev pub ◌>>=◌ {ℓ κ} : {A : Type ℓ} {B : Type κ} → Reader A → (A → Reader B) → Reader B
r >>= k = λ input. and_then (r input) k

abbrev pub give {ℓ} : {A : Type ℓ} → A → Reader A
give a = λ input. some (a, input)

abbrev pub fail {ℓ} : {A : Type ℓ} → Reader A
fail = λ input. none

abbrev pub with_byte : ℕ → Option (Bytes × Bytes) → Option (Bytes × Bytes)
with_byte b none = none
with_byte b (some (bytes, rest)) = some (b ∷ bytes, rest)

unfoldable pub read_bytes : ℕ → Reader Bytes
read_bytes zero = give []
read_bytes (suc size) =
    λ input. elim input [ [] ↦ none | ◌∷◌ b bs ↦ with_byte b (read_bytes size bs) ]

unfoldable pub write_pod : ℕ → ℕ → Bytes
unfolding le_bytes
write_pod size value = le_bytes size value

unfoldable pub read_pod : ℕ → Reader ℕ
unfolding read_bytes of_le_bytes
read_pod size = do bytes ← read_bytes size; give (of_le_bytes bytes)

-- `int32_t` and `int64_t`.
unfoldable pub write_i32 : ℤ → Bytes
unfolding write_pod
write_i32 value = write_pod 4 (to_word 32 value)

unfoldable pub read_i32 : Reader ℤ
unfolding read_pod
read_i32 = do word ← read_pod 4; give (of_word 32 word)

unfoldable pub write_i64 : ℤ → Bytes
unfolding write_pod
write_i64 value = write_pod 8 (to_word 64 value)

unfoldable pub read_i64 : Reader ℤ
unfolding read_pod
read_i64 = do word ← read_pod 8; give (of_word 64 word)

unfoldable pub write_bool : Bool → Bytes
unfolding write_pod
write_bool value = write_pod 1 (if value then 1 else 0)

unfoldable pub read_bool : Reader Bool
unfolding read_pod
read_bool = do raw ← read_pod 1; give (not (raw == 0))

abbrev pub max_string_bytes : ℕ
max_string_bytes = 268435456

abbrev pub max_vector_items : ℕ
max_vector_items = 16777216

unfoldable pub write_string : Bytes → Bytes
unfolding write_pod
write_string value = write_pod 8 (length value) ++ value

unfoldable pub read_string : Reader Bytes
unfolding read_pod read_bytes
read_string = do size ← read_pod 8; if ltb max_string_bytes size then fail else read_bytes size

unfoldable pub write_each {ℓ} : {A : Type ℓ} → (A → Bytes) → List A → Bytes
write_each write [] = []
write_each write (a ∷ more) = write a ++ write_each write more

unfoldable pub read_each {ℓ} : {A : Type ℓ} → Reader A → ℕ → Reader (List A)
read_each read zero = give []
read_each read (suc count) = do a ← read; more ← read_each read count; give (a ∷ more)

unfoldable pub write_i64_vector : List ℤ → Bytes
unfolding write_pod write_each
write_i64_vector values = write_pod 8 (length values) ++ write_each write_i64 values

unfoldable pub read_i64_vector : Reader (List ℤ)
unfolding read_pod read_each
read_i64_vector = do
  size ← read_pod 8
  if ltb max_vector_items size then fail else read_each read_i64 size
