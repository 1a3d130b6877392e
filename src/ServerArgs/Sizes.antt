-- ===== src/ServerArgs/Sizes.antt =====
-- The number of bytes that `parse_size_bytes` reads.
use attemory.ServerArgs.Decimal.{convert-decimal, decimal, Ends, IsDigit}
use attemory.ServerArgs.Units.{
  tib, gib, mib, suffix-multiplier, multiplier-suffix, kib, byte, IsSuffix, exponent, SizeUnit,
}
use attemory.Base.Text.{Bytes}
use attemory.ServerArgs.{
  to_unsigned_long_long, to_lower, parse_size_bytes, max_uint64, multiplier, scale,
}
use attemory.Base.{
  ◌∷◌, ◌++◌, All, ℕ, ◌*◌, ◌/◌, ◌%◌, ◌^◌, ◌≤◌, ◌<◌, ◌≡◌, sym, ap, subst, ◌∙◌, ◌↔◌, inl, inr, Bool,
  true, false, map, arith, ltb, Bool-cases, Option-cases,
}
use native.Mathlib.Nat.{le-div_iff_mul-le}

-- The quotient of the test is that of the largest product.
fits_iff :
    (parsed unit : ℕ)
    → 1 ≤ unit
    → (ltb (max_uint64 / unit) parsed ≡ false) ↔ (parsed * unit < 2 ^ 64)
unfolding max_uint64
fits_iff parsed unit u =
    let divided = le-div_iff_mul-le {k = unit} {x = parsed} {y = max_uint64} u in
    (
      λ e.
          let small : parsed ≤ max_uint64 / unit = ground arith in
          let product = divided.0 small in omega arith,
      λ f. let small = divided.1 (omega arith) in ground arith,
    )

mod_of_lt : (k : ℕ) → k < 2 ^ 64 → k % 2 ^ 64 ≡ k
mod_of_lt k h = omega arith

scale_iff :
    (parsed unit value n : ℕ)
    → 1 ≤ unit
    → (scale parsed unit value ≡ (true, n)) ↔ ((n ≡ parsed * unit) × (n < 2 ^ 64))
unfolding scale
scale_iff parsed unit value n u = elim (Bool-cases (ltb (max_uint64 / unit) parsed)) [
  | inl e ↦ (
    λ h. let refused = ap (λ (r : Bool × ℕ). r.0) (rw (scale, e) at h) in absurd (cc),
    λ (same, small).
        let fits = (fits_iff parsed unit u).1 (subst (λ k. k < 2 ^ 64) same small) in absurd (cc),
  )
  | inr e ↦
      let small = (fits_iff parsed unit u).0 e in
      let product : scale parsed unit value ≡ (true, parsed * unit) =
        rw (scale, e) (ap (λ (k : ℕ). (true, k)) (mod_of_lt (parsed * unit) small)) in
      (
        λ h.
            let same : n ≡ parsed * unit = ap (λ (r : Bool × ℕ). r.1) (sym h ∙ product) in
            (same, subst (λ k. k < 2 ^ 64) (sym same) small),
        λ (same, less). product ∙ ap (λ (k : ℕ). (true, k)) (sym same),
      )
]

power-Positive : (unit : SizeUnit) → 1 ≤ 1024 ^ exponent unit
power-Positive byte = omega arith
power-Positive kib = omega arith
power-Positive mib = omega arith
power-Positive gib = omega arith
power-Positive tib = omega arith

-- What digits and a suffix mean: a number of units that a `uint64_t` holds.
abbrev pub IsSize : Bytes → Bytes → ℕ → Type 0
IsSize digits suffix n =
    (unit : SizeUnit) × IsSuffix unit suffix
    × (n ≡ decimal digits * 1024 ^ exponent unit)
    × (n < 2 ^ 64)

module _ (c : ℕ) (ds suffix : Bytes) (value n : ℕ) (digits : All IsDigit (c ∷ ds))
    (ends : Ends suffix) (fits : decimal (c ∷ ds) < 2 ^ 64) where
  number_lem : to_unsigned_long_long false (decimal (c ∷ ds)) ≡ decimal (c ∷ ds)
  unfolding to_unsigned_long_long
  number_lem = ground arith

  accepted-IsSize : parse_size_bytes (c ∷ ds ++ suffix) value ≡ (true, n) → IsSize (c ∷ ds) suffix n
  unfolding parse_size_bytes
  accepted-IsSize h =
      let read = convert-decimal c ds suffix digits ends in
      elim (Option-cases (multiplier (map to_lower suffix))) [
        | inl f ↦
            let refused = ap (λ (r : Bool × ℕ). r.0) (rw (parse_size_bytes, read, f) at h) in
            absurd (cc)
        | inr (factor, f) ↦
            let (unit, named, power) = multiplier-suffix suffix factor f in
            let scaled : scale (decimal (c ∷ ds)) (1024 ^ exponent unit) value ≡ (true, n) =
              rw (parse_size_bytes, read, f, number_lem, power) at h in
            let size =
              (scale_iff (decimal (c ∷ ds)) (1024 ^ exponent unit) value n (power-Positive unit)).0
                scaled in
            (unit, named, size.0, size.1)
      ]

  -- For digits that write a number below 2^64 and a suffix that does not begin with a digit,
  -- `parse_size_bytes` accepts the digits with the suffix and gives `n` exactly when the suffix is
  -- empty or one of B, K, KB, KiB, M, MB, MiB, G, GB, GiB, T, TB and TiB, in letters of either case,
  -- `n` is the number times the power of 1024 of that unit, and `n` is below 2^64.
  pub parse_size_bytes_iff :
      (parse_size_bytes (c ∷ ds ++ suffix) value ≡ (true, n)) ↔ IsSize (c ∷ ds) suffix n
  unfolding parse_size_bytes
  parse_size_bytes_iff = (
    accepted-IsSize,
    λ (unit, named, same, less).
        let read = convert-decimal c ds suffix digits ends in
        rw (parse_size_bytes, read, suffix-multiplier unit suffix named, number_lem)
          ((scale_iff (decimal (c ∷ ds)) (1024 ^ exponent unit) value n (power-Positive unit)).1
            (same, less)),
  )
