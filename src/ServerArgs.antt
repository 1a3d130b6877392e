-- ===== src/ServerArgs.antt =====
-- The numbers of the command line: `parse_port`, `parse_non_negative_int`, `parse_size_bytes`,
-- `parse_v` and their kin in src/server/server_args.cpp. An argument is a C string, which holds no
-- byte 0; a `long` has 64 bits. An out parameter comes in and goes out, since a refused argument
-- may have changed it.
pub mod Ids
pub mod Decimal
pub mod Units
pub mod Sizes
pub mod Fuel
use attemory.Base.Int.{leb_ℤ, sub_ℕ, mem_ℤ, ltb_ℤ, pos, negsuc, ℤ}
use attemory.Base.Text.{bytes_eq, is_empty, text, Bytes}
use attemory.Base.{
  ℕ, zero, suc, ◌+◌, ◌-◌, ◌*◌, ◌/◌, ◌%◌, ◌^◌, ◌≤◌, ◌<◌, ◌≡◌, refl, sym, ap, subst, ◌∙◌, ◌≢◌, ◌↔◌,
  ◌⊎◌, inl, inr, Bool, true, false, ◌&&◌, ◌||◌, not, Option, none, some, List, [], ◌∷◌, ◌++◌, map,
  arith, ltb, leb, ◌==◌, if◌then◌else◌, Bool-cases, Option-cases, length, All,
}

abbrev is_space : ℕ → Bool
is_space c = c == b' ' || (leb 9 c && leb c 13)

abbrev is_digit : ℕ → Bool
is_digit c = leb b'0' c && leb c b'9'

unfoldable pub skip_spaces : Bytes → Bytes
skip_spaces [] = []
skip_spaces (c ∷ cs) = if is_space c then skip_spaces cs else c ∷ cs

-- Whether there is a minus sign, and what follows the sign.
unfoldable pub take_sign : Bytes → Bool × Bytes
take_sign [] = (false, [])
take_sign (c ∷ cs) =
    if c == b'-' then (true, cs) else if c == b'+' then (false, cs) else (false, c ∷ cs)

-- The value of the digits in front, behind those that were read, and the end.
unfoldable pub read_digits : ℕ → Bytes → ℕ × Bytes
read_digits n [] = (n, [])
read_digits n (c ∷ cs) =
    let rest = read_digits (n * 10 + (c - b'0')) cs in if is_digit c then rest else (n, c ∷ cs)

unfoldable pub convert_digits : Bool → Bytes → Option (Bool × (ℕ × Bytes))
unfolding read_digits
convert_digits negative [] = none
convert_digits negative (c ∷ cs) =
    if is_digit c then some (negative, read_digits 0 (c ∷ cs)) else none

-- The sign, the magnitude and the end; `none` when there is no digit, where the C functions leave
-- `end` at the beginning.
unfoldable pub convert : Bytes → Option (Bool × (ℕ × Bytes))
unfolding skip_spaces take_sign convert_digits
convert chars = let signed = take_sign (skip_spaces chars) in convert_digits signed.0 signed.1

-- The result of `std::strtol`, which saturates.
unfoldable pub to_long : Bool → ℕ → ℤ
to_long negative n =
    if negative
    then (if ltb (2 ^ 63) n then negsuc (2 ^ 63 - 1) else sub_ℕ 0 n)
    else if ltb n (2 ^ 63)
    then pos n
    else pos (2 ^ 63 - 1)

-- The result of `std::strtoull`, which saturates, and negates in the unsigned type.
unfoldable pub to_unsigned_long_long : Bool → ℕ → ℕ
to_unsigned_long_long negative n =
    if ltb n (2 ^ 64) then (if negative then (2 ^ 64 - n) % 2 ^ 64 else n) else 2 ^ 64 - 1

unfoldable pub strtol : Bytes → ℤ × Bytes
unfolding convert to_long
strtol chars = elim (convert chars) [ none ↦ (pos 0, chars) | some r ↦ (to_long r.0 r.1.0, r.1.1) ]

unfoldable pub parse_port : Bytes → ℤ → Bool × ℤ
unfolding strtol
parse_port chars value =
    let r = strtol chars in
    if not (is_empty r.1) || leb_ℤ r.0 (pos 0) || ltb_ℤ (pos 65535) r.0
    then (false, value)
    else (true, r.0)

abbrev pub max_int : ℤ
max_int = pos (2 ^ 31 - 1)

unfoldable pub parse_non_negative_int : Bytes → ℤ → Bool × ℤ
unfolding strtol
parse_non_negative_int chars value =
    let r = strtol chars in
    if not (is_empty r.1) || ltb_ℤ r.0 (pos 0) || ltb_ℤ max_int r.0
    then (false, value)
    else (true, r.0)

-- An argument of 0 is refused, but written.
unfoldable pub parse_positive_int : Bytes → ℤ → Bool × ℤ
unfolding parse_non_negative_int
parse_positive_int chars value =
    let r = parse_non_negative_int chars value in
    if not r.0 then (false, r.1) else (ltb_ℤ (pos 0) r.1, r.1)

unfoldable pub parse_non_negative_i32 : Bytes → ℤ → Bool × ℤ
unfolding parse_non_negative_int
parse_non_negative_i32 chars value =
    let r = parse_non_negative_int chars (pos 0) in
    if not r.0 || ltb_ℤ max_int r.1 then (false, value) else (true, r.1)

unfoldable pub parse_positive_i32 : Bytes → ℤ → Bool × ℤ
unfolding parse_non_negative_i32
parse_positive_i32 chars value =
    let r = parse_non_negative_i32 chars value in
    if not r.0 then (false, r.1) else (ltb_ℤ (pos 0) r.1, r.1)

-- `std::tolower` of the "C" locale.
unfoldable pub to_lower : ℕ → ℕ
to_lower c = if leb b'A' c && leb c b'Z' then c + 32 else c

abbrev pub is_unit : Bytes → Bytes → Bool
is_unit suffix letter =
    bytes_eq suffix letter
    || (bytes_eq suffix (letter ++ text "b") || bytes_eq suffix (letter ++ text "ib"))

unfoldable pub multiplier : Bytes → Option ℕ
unfolding text bytes_eq is_empty
multiplier suffix =
    if is_empty suffix || bytes_eq suffix (text "b")
    then some 1
    else if is_unit suffix (text "k")
    then some (2 ^ 10)
    else if is_unit suffix (text "m")
    then some (2 ^ 20)
    else if is_unit suffix (text "g")
    then some (2 ^ 30)
    else if is_unit suffix (text "t")
    then some (2 ^ 40)
    else none

abbrev max_uint64 : ℕ
max_uint64 = 2 ^ 64 - 1

-- The test behind the suffix, and the product in a `uint64_t`.
unfoldable pub scale : ℕ → ℕ → ℕ → Bool × ℕ
scale parsed unit value =
    if ltb (max_uint64 / unit) parsed then (false, value) else (true, (parsed * unit) % 2 ^ 64)

-- The test for an empty argument is one of the cases where nothing is converted.
unfoldable pub parse_size_bytes : Bytes → ℕ → Bool × ℕ
unfolding convert to_unsigned_long_long to_lower multiplier scale
parse_size_bytes chars value = elim (convert chars) [
  | none ↦ (false, value)
  | some r ↦ elim (multiplier (map to_lower r.1.1)) [
    | none ↦ (false, value)
    | some unit ↦ scale (to_unsigned_long_long r.0 r.1.0) unit value
  ]
]

unfoldable pub add_id : ℤ → List ℤ → List ℤ
add_id id v = if mem_ℤ id v then v else v ++ id ∷ []

-- What follows a number: the end, a comma and another number, or a refusal.
unfoldable pub parse_rest : (Bytes → Bool × List ℤ) → Bytes → List ℤ → Bool × List ℤ
parse_rest next [] v = (not (is_empty v), v)
parse_rest next (c ∷ cs) v =
    let rest = next cs in if not (c == b',') || is_empty cs then (false, v) else rest

-- The loop; each round moves the cursor, so that one more than the length is enough fuel.
unfoldable pub parse_ids : ℕ → Bytes → List ℤ → Bool × List ℤ
unfolding convert to_long add_id parse_rest
parse_ids zero cursor v = (false, v)
parse_ids (suc fuel) cursor v = elim (convert cursor) [
  | none ↦ (false, v)
  | some r ↦
      let parsed = to_long r.0 r.1.0 in
      if ltb_ℤ parsed (pos 0) || ltb_ℤ max_int parsed
      then (false, v)
      else let taken = add_id parsed v in parse_rest (λ cs. parse_ids fuel cs taken) r.1.1 taken
]

unfoldable pub parse_v : Bytes → Bool × List ℤ
unfolding parse_ids
parse_v chars = parse_ids (suc (length chars)) chars []
