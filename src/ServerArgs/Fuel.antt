-- ===== src/ServerArgs/Fuel.antt =====
-- The fuel of the loop of `parse_v`: each round moves the cursor.
use attemory.Base.Int.{pos, ltb_ℤ, ℤ}
use attemory.Base.Text.{is_empty, Bytes}
use attemory.ServerArgs.{
  max_int, is_digit, convert_digits, to_long, add_id, parse_ids, parse_rest, convert, read_digits,
  take_sign, skip_spaces,
}
use attemory.Base.{
  ℕ, zero, suc, ◌+◌, ◌-◌, ◌*◌, ◌≤◌, ◌<◌, ◌≡◌, refl, ap, subst, inl, inr, Bool, false, ◌||◌, not,
  Option, none, some, List, [], ◌∷◌, arith, ◌==◌, if◌then◌else◌, Bool-cases, Option-cases, length,
}

length-skip_spaces : (cs : Bytes) → length (skip_spaces cs) ≤ length cs
unfolding skip_spaces
length-skip_spaces [] = omega arith
length-skip_spaces (c ∷ cs) = ground (arith, length-skip_spaces cs)

length-take_sign : (cs : Bytes) → length (take_sign cs).1 ≤ length cs
unfolding take_sign
length-take_sign [] = omega arith
length-take_sign (c ∷ cs) = ground arith

length-read_digits : (n : ℕ) (cs : Bytes) → length (read_digits n cs).1 ≤ length cs
unfolding read_digits
length-read_digits n [] = omega arith
length-read_digits n (c ∷ cs) = ground (arith, length-read_digits (n * 10 + (c - b'0')) cs)

abbrev end_length : Option (Bool × (ℕ × Bytes)) → ℕ
end_length none = 0
end_length (some r) = length r.1.1

convert_digits_moves :
    (negative : Bool) (cs : Bytes) (r : Bool × (ℕ × Bytes))
    → convert_digits negative cs ≡ some r
    → length r.1.1 < length cs
unfolding convert_digits read_digits
convert_digits_moves negative [] r h = absurd (cc)
convert_digits_moves negative (c ∷ cs) r h = elim (Bool-cases (is_digit c)) [
  | inl e ↦
      let same = ap end_length (rw (convert_digits, e) at h) in
      let shorter = length-read_digits (0 * 10 + (c - b'0')) cs in
      subst (λ (k : ℕ). k < suc (length cs)) same (omega arith)
  | inr e ↦ absurd (ground arith)
]

convert_moves :
    (cursor : Bytes) (r : Bool × (ℕ × Bytes))
    → convert cursor ≡ some r
    → length r.1.1 < length cursor
unfolding convert
convert_moves cursor r h =
    let signed = take_sign (skip_spaces cursor) in
    let moved = convert_digits_moves signed.0 signed.1 r h in
    let sign = length-take_sign (skip_spaces cursor) in
    let spaces = length-skip_spaces cursor in omega arith

parse_rest_ext :
    (n m : Bytes → Bool × List ℤ) (rest : Bytes) (v : List ℤ)
    → ((cs : Bytes) → length cs < length rest → n cs ≡ m cs)
    → parse_rest n rest v ≡ parse_rest m rest v
unfolding parse_rest
parse_rest_ext n m [] v h = refl
parse_rest_ext n m (c ∷ cs) v h =
    ap (λ next. if not (c == b',') || is_empty cs then (false, v) else next) (h cs (omega arith))

-- Any two amounts of fuel above the length of the text give the same result, so that the loop never
-- runs out.
pub parse_ids-fuel :
    (n m : ℕ) (cursor : Bytes) (v : List ℤ)
    → length cursor < n
    → length cursor < m
    → parse_ids n cursor v ≡ parse_ids m cursor v
unfolding parse_ids
parse_ids-fuel zero m cursor v h k = absurd (omega arith)
parse_ids-fuel (suc n) zero cursor v h k = absurd (omega arith)
parse_ids-fuel (suc n) (suc m) cursor v h k = elim (Option-cases (convert cursor)) [
  | inl e ↦ rw (parse_ids, e) refl
  | inr (r, e) ↦
      let taken = add_id (to_long r.0 r.1.0) v in
      let moved = convert_moves cursor r e in
      let rest =
        parse_rest_ext (λ cs. parse_ids n cs taken) (λ cs. parse_ids m cs taken) r.1.1 taken
          (λ cs l. parse_ids-fuel n m cs taken (omega arith) (omega arith)) in
      let parsed = to_long r.0 r.1.0 in
      rw (parse_ids, e)
        (ap (λ next. if ltb_ℤ parsed (pos 0) || ltb_ℤ max_int parsed then (false, v) else next)
          rest)
]
