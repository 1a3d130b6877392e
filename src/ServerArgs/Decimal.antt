-- ===== src/ServerArgs/Decimal.antt =====
-- How `strtol` and `strtoull` read the digits of a number in front of a suffix.
use attemory.ServerArgs.{convert, convert_digits, take_sign, skip_spaces, read_digits}
use attemory.Base.Text.{Bytes}
use attemory.Base.{
  ℕ, ◌+◌, ◌-◌, ◌*◌, ◌^◌, ◌≤◌, ◌<◌, ◌≡◌, refl, sym, ap, ◌∙◌, ◌⊎◌, inl, inr, Bool, true, false, ◌&&◌,
  some, [], ◌∷◌, ◌++◌, arith, leb, length, All,
}
use native.Mathlib.Nat.{add-mul, mul_assoc, pow-succ'}

-- A decimal digit, and what may follow a number.
abbrev pub IsDigit : ℕ → Type 0
IsDigit c = (b'0' ≤ c) × (c ≤ b'9')

abbrev pub Ends : Bytes → Type 0
Ends [] = Unit
Ends (c ∷ cs) = (c < b'0') ⊎ (b'9' < c)

-- The value of digits by their places.
unfoldable pub decimal : Bytes → ℕ
decimal [] = 0
decimal (c ∷ cs) = (c - b'0') * 10 ^ length cs + decimal cs

read_digits-end : (n : ℕ) (rest : Bytes) → Ends rest → read_digits n rest ≡ (n, rest)
unfolding read_digits
read_digits-end n [] h = refl
read_digits-end n (c ∷ cs) (inl h) = ground arith
read_digits-end n (c ∷ cs) (inr h) = ground arith

place_lem : (n d p v : ℕ) → (n * 10 + d) * p + v ≡ n * (10 * p) + (d * p + v)
place_lem n d p v =
    let distributed = add-mul (n * 10) d p in let associated = mul_assoc n 10 p in omega arith

read_digits-decimal :
    (n : ℕ) (ds rest : Bytes)
    → All IsDigit ds
    → Ends rest
    → read_digits n (ds ++ rest) ≡ (n * 10 ^ length ds + decimal ds, rest)
unfolding read_digits decimal
read_digits-decimal n [] rest h e =
    read_digits-end n rest e ∙ ap (λ (k : ℕ). (k, rest)) (omega arith)
read_digits-decimal n (c ∷ ds) rest (h, hs) e =
    let digit : (leb b'0' c && leb c b'9') ≡ true = ground arith in
    let next = read_digits-decimal (n * 10 + (c - b'0')) ds rest hs e in
    let place = place_lem n (c - b'0') (10 ^ length ds) (decimal ds) in
    rw digit (
      next
      ∙ ap (λ (k : ℕ). (k, rest))
          (place
            ∙ ap (λ (power : ℕ). n * power + ((c - b'0') * 10 ^ length ds + decimal ds))
                (sym (pow-succ' 10 (length ds)))))

skip_spaces-digit : (c : ℕ) (cs : Bytes) → IsDigit c → skip_spaces (c ∷ cs) ≡ c ∷ cs
unfolding skip_spaces
skip_spaces-digit c cs h = ground arith

take_sign-digit : (c : ℕ) (cs : Bytes) → IsDigit c → take_sign (c ∷ cs) ≡ (false, c ∷ cs)
unfolding take_sign
take_sign-digit c cs h = ground arith

convert_digits-digit :
    (negative : Bool) (c : ℕ) (cs : Bytes)
    → IsDigit c
    → convert_digits negative (c ∷ cs) ≡ some (negative, read_digits 0 (c ∷ cs))
unfolding convert_digits
convert_digits-digit negative c cs h = ground arith

-- Digits are read as the number that they write, and the rest is left.
pub convert-decimal :
    (c : ℕ) (ds rest : Bytes)
    → All IsDigit (c ∷ ds)
    → Ends rest
    → convert (c ∷ ds ++ rest) ≡ some (false, (decimal (c ∷ ds), rest))
unfolding convert
convert-decimal c ds rest h e =
    let skipped = skip_spaces-digit c (ds ++ rest) h.0 in
    let sign = take_sign-digit c (ds ++ rest) h.0 in
    let read = read_digits-decimal 0 (c ∷ ds) rest h e in
    rw (skipped, sign, convert_digits-digit false c (ds ++ rest) h.0)
      (ap (λ (r : ℕ × Bytes). some (false, r)) (read ∙ ap (λ (k : ℕ). (k, rest)) (omega arith)))
