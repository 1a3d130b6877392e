-- ===== src/Base/Words.antt =====
-- Words as their bytes in the order of a little-endian host, which the program's targets are.
use attemory.Base.{ℕ, zero, suc, ◌≡◌, refl, [], ◌∷◌, length, arith, ◌+◌, ◌*◌, ◌/◌, ◌%◌, ◌<◌, ap}
use attemory.Base.Text.{Bytes}

unfoldable pub le_bytes : ℕ → ℕ → Bytes
le_bytes zero n = []
le_bytes (suc k) n = n % 256 ∷ le_bytes k (n / 256)

unfoldable pub of_le_bytes : Bytes → ℕ
of_le_bytes [] = 0
of_le_bytes (b ∷ bs) = b + 256 * of_le_bytes bs

pub length-le_bytes : (k n : ℕ) → length (le_bytes k n) ≡ k
unfolding le_bytes
length-le_bytes zero n = refl
length-le_bytes (suc k) n = ap suc (length-le_bytes k (n / 256))

-- The bound of `k` bytes.
abbrev pub byte_limit : ℕ → ℕ
byte_limit zero = 1
byte_limit (suc k) = 256 * byte_limit k

pub of_le_bytes-le_bytes : (k n : ℕ) → n < byte_limit k → of_le_bytes (le_bytes k n) ≡ n
unfolding le_bytes of_le_bytes
of_le_bytes-le_bytes zero n h = omega arith
of_le_bytes-le_bytes (suc k) n h = rw (of_le_bytes-le_bytes k (n / 256) (omega arith)) (omega arith)
