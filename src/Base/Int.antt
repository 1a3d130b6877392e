-- ===== src/Base/Int.antt =====
-- Signed integers over the native numbers, with the Boolean tests of the code. An `int32_t` or an
-- `int64_t` is such an integer; where a result may leave the range, the code's wrap is `wrap`.
use attemory.Base.Lists.{All}
use mathlib.Core.Path.{subst, sym, ◌∙◌}
use mathlib.Core.Logic.{inl, inr}
use attemory.Base.Tests.{Bool-cases}
use attemory.Base.Tests.{ltb, leb, ◌==◌, if◌then◌else◌}
use Prim.Native.Nat.{ℕ, suc, ◌+◌, ◌-◌, ◌%◌, ◌^◌, ◌≤◌, ◌<◌}
use mathlib.Core.Path.{◌≡◌, refl}
use mathlib.Core.Logic.{◌↔◌}
use mathlib.Core.Bool.{Bool, true, false}
use mathlib.Core.List.{List, [], ◌∷◌, ◌++◌}
use native.Mathlib.Omega.{arith}

-- `negsuc n` is -(n + 1).
pub data ℤ : Type 0 where
  pos : ℕ → ℤ
  negsuc : ℕ → ℤ

abbrev pub pos_part : ℤ → ℕ
pos_part (pos n) = n
pos_part (negsuc n) = 0

abbrev pub neg_part : ℤ → ℕ
neg_part (pos n) = 0
neg_part (negsuc n) = suc n

abbrev pub sub_ℕ : ℕ → ℕ → ℤ
sub_ℕ a b = if leb b a then pos (a - b) else negsuc (b - a - 1)

infixl 65 ◌+ℤ◌ ◌-ℤ◌
infix 50 ◌≤ℤ◌ ◌<ℤ◌
unfoldable pub ◌+ℤ◌ : ℤ → ℤ → ℤ
a +ℤ b = sub_ℕ (pos_part a + pos_part b) (neg_part a + neg_part b)

unfoldable pub ◌-ℤ◌ : ℤ → ℤ → ℤ
a -ℤ b = sub_ℕ (pos_part a + neg_part b) (neg_part a + pos_part b)

abbrev pub ◌≤ℤ◌ : ℤ → ℤ → Type 0
a ≤ℤ b = pos_part a + neg_part b ≤ pos_part b + neg_part a

abbrev pub ◌<ℤ◌ : ℤ → ℤ → Type 0
a <ℤ b = pos_part a + neg_part b < pos_part b + neg_part a

abbrev pub ltb_ℤ : ℤ → ℤ → Bool
ltb_ℤ a b = ltb (pos_part a + neg_part b) (pos_part b + neg_part a)

abbrev pub leb_ℤ : ℤ → ℤ → Bool
leb_ℤ a b = leb (pos_part a + neg_part b) (pos_part b + neg_part a)

abbrev pub eqb_ℤ : ℤ → ℤ → Bool
eqb_ℤ a b = (pos_part a + neg_part b) == (pos_part b + neg_part a)

abbrev pub max_ℤ : ℤ → ℤ → ℤ
max_ℤ a b = if ltb_ℤ a b then b else a

pub eqb_ℤ_iff : (a b : ℤ) → (eqb_ℤ a b ≡ true) ↔ (a ≡ b)
eqb_ℤ_iff (pos m) (pos n) = ground arith
eqb_ℤ_iff (pos m) (negsuc n) = ground arith
eqb_ℤ_iff (negsuc m) (pos n) = ground arith
eqb_ℤ_iff (negsuc m) (negsuc n) = ground arith

pub ltb_ℤ→lt : (a b : ℤ) → ltb_ℤ a b ≡ true → a <ℤ b
ltb_ℤ→lt a b h = ground arith

pub ltb_ℤ→le : (a b : ℤ) → ltb_ℤ a b ≡ false → b ≤ℤ a
ltb_ℤ→le a b h = ground arith

-- The two's-complement pattern of an integer in `bits` bits, and the integer of a pattern.
unfoldable pub to_word : ℕ → ℤ → ℕ
to_word bits (pos n) = n % 2 ^ bits
to_word bits (negsuc n) = 2 ^ bits - 1 - n % 2 ^ bits

unfoldable pub of_word : ℕ → ℕ → ℤ
of_word bits w = if ltb w (2 ^ (bits - 1)) then pos w else negsuc (2 ^ bits - 1 - w)

-- What signed arithmetic of that width leaves of an exact result.
unfoldable pub wrap : ℕ → ℤ → ℤ
unfolding to_word of_word
wrap bits z = of_word bits (to_word bits z)

abbrev pub InI32 : ℤ → Type 0
InI32 z = (negsuc 2147483647 ≤ℤ z) × (z ≤ℤ pos 2147483647)

abbrev pub InI64 : ℤ → Type 0
InI64 z = (negsuc 9223372036854775807 ≤ℤ z) × (z ≤ℤ pos 9223372036854775807)

pub wrap32_lem : (z : ℤ) → InI32 z → wrap 32 z ≡ z
unfolding wrap
wrap32_lem (pos n) h = ground arith
wrap32_lem (negsuc n) h = ground arith

pub wrap64_lem : (z : ℤ) → InI64 z → wrap 64 z ≡ z
unfolding wrap
wrap64_lem (pos n) h = ground arith
wrap64_lem (negsuc n) h = ground arith

pub of_word-to_word32 : (z : ℤ) → InI32 z → of_word 32 (to_word 32 z) ≡ z
unfolding to_word of_word
of_word-to_word32 (pos n) h = ground arith
of_word-to_word32 (negsuc n) h = ground arith

pub of_word-to_word64 : (z : ℤ) → InI64 z → of_word 64 (to_word 64 z) ≡ z
unfolding to_word of_word
of_word-to_word64 (pos n) h = ground arith
of_word-to_word64 (negsuc n) h = ground arith

pub to_word32-lt : (z : ℤ) → to_word 32 z < 2 ^ 32
unfolding to_word
to_word32-lt (pos n) = omega arith
to_word32-lt (negsuc n) = omega arith

pub to_word64-lt : (z : ℤ) → to_word 64 z < 2 ^ 64
unfolding to_word
to_word64-lt (pos n) = omega arith
to_word64-lt (negsuc n) = omega arith

-- Members of a list of integers, as `std::find` and `std::set::find` test them.
unfoldable pub mem_ℤ : ℤ → List ℤ → Bool
mem_ℤ a [] = false
mem_ℤ a (x ∷ xs) = if eqb_ℤ x a then true else mem_ℤ a xs

pub mem_ℤ-append :
    (a : ℤ) (xs ys : List ℤ) → mem_ℤ a (xs ++ ys) ≡ (if mem_ℤ a xs then true else mem_ℤ a ys)
unfolding mem_ℤ
mem_ℤ-append a [] ys = refl
mem_ℤ-append a (x ∷ xs) ys = ground (arith, mem_ℤ-append a xs ys)

-- No two entries are equal.
abbrev pub Distinct : List ℤ → Type 0
Distinct [] = Unit
Distinct (x ∷ xs) = (mem_ℤ x xs ≡ false) × Distinct xs

pub Distinct-snoc :
    (xs : List ℤ) (a : ℤ) → Distinct xs → mem_ℤ a xs ≡ false → Distinct (xs ++ a ∷ [])
unfolding mem_ℤ
Distinct-snoc [] a d h = (refl, tt)
Distinct-snoc (x ∷ xs) a d h = (
  ground (arith, mem_ℤ-append x xs (a ∷ []), d.0, eqb_ℤ_iff x a, eqb_ℤ_iff a x),
  Distinct-snoc xs a d.1 (ground arith),
)

-- What holds of every member holds of each.
pub All-mem : (P : ℤ → Type 0) (xs : List ℤ) (a : ℤ) → All P xs → mem_ℤ a xs ≡ true → P a
unfolding mem_ℤ
All-mem P [] a h m = absurd (cc)
All-mem P (x ∷ xs) a h m = elim (Bool-cases (eqb_ℤ x a)) [
  | inl e ↦ subst P ((eqb_ℤ_iff x a).0 e) h.0
  | inr e ↦ All-mem P xs a h.1 (rw e at m)
]

-- Two lists with the same members, where each is given as all of one in the other.
pub mem_ℤ_ext :
    (xs ys : List ℤ)
    → All (λ x. mem_ℤ x ys ≡ true) xs
    → All (λ y. mem_ℤ y xs ≡ true) ys
    → (z : ℤ) → mem_ℤ z xs ≡ mem_ℤ z ys
mem_ℤ_ext xs ys h k z = elim (Bool-cases (mem_ℤ z xs)) [
  | inl e ↦ e ∙ sym (All-mem (λ x. mem_ℤ x ys ≡ true) xs z h e)
  | inr e ↦ elim (Bool-cases (mem_ℤ z ys)) [
    | inl e' ↦ All-mem (λ y. mem_ℤ y xs ≡ true) ys z k e' ∙ sym e'
    | inr e' ↦ e ∙ sym e'
  ]
]
