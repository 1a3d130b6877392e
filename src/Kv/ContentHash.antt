-- ===== src/Kv/ContentHash.antt =====
-- `segment_kv_content_hash` (src/context/kv/segment_kv_metadata.cpp) and `stable_hash_hex`
-- (src/context/storage/model_cache_key.cpp): FNV-1a in 64 bits, printed in hexadecimal.
use attemory.Session.{Segment}
use attemory.Base.Words.{le_bytes}
use attemory.Persistent.{find_memory, SessionStore}
use attemory.Base.Int.{ℤ, to_word}
use attemory.Base.Text.{text, Bytes}
use Prim.Native.Nat.{bit_xor}
use attemory.Base.{
  refl, ◌-◌, some, arith, ltb, ◌+◌, none, if◌then◌else◌, ◌^◌, ◌%◌, length, ◌/◌, ◌*◌, ℕ, zero, suc,
  ◌≡◌, List, [], ◌∷◌,
}

abbrev fnv_offset : ℕ
fnv_offset = 1469598103934665603

abbrev fnv_prime : ℕ
fnv_prime = 1099511628211

unfoldable pub update : ℕ → Bytes → ℕ
update hash [] = hash
update hash (b ∷ bs) = update ((bit_xor hash b * fnv_prime) % 2 ^ 64) bs

unfoldable pub update_string : ℕ → Bytes → ℕ
unfolding update
update_string hash value = update (update hash (le_bytes 8 (length value))) value

hex_digit : ℕ → ℕ
hex_digit d = if ltb d 10 then b'0' + d else b'a' + (d - 10)

-- The lowest `k` hexadecimal digits, in front of `rest`.
hex_digits : ℕ → ℕ → Bytes → Bytes
unfolding hex_digit
hex_digits zero n rest = rest
hex_digits (suc k) n rest = hex_digits k (n / 16) (hex_digit (n % 16) ∷ rest)

-- `snprintf(buf, sizeof(buf), "%016llx", hash)`
unfoldable pub hex16 : ℕ → Bytes
unfolding hex_digits
hex16 hash = hex_digits 16 hash []

unfoldable pub stable_hash_hex : Bytes → Bytes
unfolding update hex16
stable_hash_hex value = hex16 (update fnv_offset value)

unfoldable pub hash_memories : SessionStore → ℕ → List ℤ → ℕ
unfolding update_string to_word
hash_memories store hash [] = hash
hash_memories store hash (z ∷ zs) =
    let hash' = update hash (le_bytes 8 (to_word 64 z)) in
    hash_memories store
      (elim (find_memory store z) [ none ↦ hash' | some memory ↦ update_string hash' memory.text ])
      zs

unfoldable pub segment_kv_content_hash : SessionStore → Segment → Bytes
unfolding hash_memories hex16
segment_kv_content_hash state segment =
    hex16 (hash_memories state (update_string fnv_offset state.system_text) segment.memory_indices)

hex_digits-length : (k n : ℕ) (rest : Bytes) → length (hex_digits k n rest) ≡ k + length rest
unfolding hex_digits
hex_digits-length zero n rest = omega arith
hex_digits-length (suc k) n rest =
    omega (arith, hex_digits-length k (n / 16) (hex_digit (n % 16) ∷ rest))

-- A content hash is 16 characters long, for every store and segment.
pub length-segment_kv_content_hash :
    (state : SessionStore) (segment : Segment) → length (segment_kv_content_hash state segment) ≡ 16
unfolding segment_kv_content_hash
length-segment_kv_content_hash state segment =
    hex_digits-length 16
      (hash_memories state (update_string fnv_offset state.system_text) segment.memory_indices) []

-- The vectors of FNV-1a for this offset: the empty string, and "a".
stable_hash_hex_vectors :
    (stable_hash_hex [] ≡ text "14650fb0739d0383")
    × (stable_hash_hex (text "a") ≡ text "44bd8ad473cd9906")
unfolding stable_hash_hex text
stable_hash_hex_vectors = (refl, refl)
