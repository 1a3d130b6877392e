-- ===== src/Tests/ArgsTests.antt =====
-- Arguments of the command line.
use attemory.ServerArgs.Decimal.{decimal}
use attemory.ServerArgs.Fuel.{parse_ids-fuel}
use attemory.ServerArgs.Sizes.{parse_size_bytes_iff, IsSize}
use attemory.ServerArgs.Ids.{parse_v-IsIdList, InInt}
use attemory.Base.Int.{mem_ℤ, pos, Distinct}
use attemory.ServerArgs.{
  scale, parse_rest, multiplier, to_lower, add_id, to_unsigned_long_long, to_long, read_digits,
  convert_digits, take_sign, skip_spaces, convert, parse_non_negative_i32, strtol, parse_ids,
  parse_size_bytes, parse_positive_i32, parse_non_negative_int, parse_port, parse_v,
}
use attemory.Base.Text.{bytes_eq, is_empty, text, Bytes}
use attemory.Base.{◌<◌, inr, ◌++◌, ◌-◌, ◌^◌, ◌≡◌, refl, ◌↔◌, true, false, [], ◌∷◌, arith, All}

abbrev ids : Bytes
ids = text "3,1,3,07"

ids_run : parse_v ids ≡ (true, pos 3 ∷ pos 1 ∷ pos 7 ∷ [])
unfolding parse_v parse_ids convert skip_spaces take_sign convert_digits read_digits to_long add_id
    mem_ℤ parse_rest text is_empty
ids_run = refl

trailing_comma : (parse_v (text "3,")).0 ≡ false
unfolding parse_v parse_ids convert skip_spaces take_sign convert_digits read_digits to_long add_id
    mem_ℤ parse_rest text is_empty
trailing_comma = refl

port_run : parse_port (text "8080") (pos 0) ≡ (true, pos 8080)
unfolding parse_port strtol convert skip_spaces take_sign convert_digits read_digits to_long text
    is_empty
port_run = refl

-- The empty argument is the number 0.
empty_run : parse_non_negative_int [] (pos 5) ≡ (true, pos 0)
unfolding parse_non_negative_int strtol convert skip_spaces take_sign convert_digits is_empty
empty_run = refl

positive_run : parse_positive_i32 (text "0") (pos 5) ≡ (false, pos 0)
unfolding parse_positive_i32 parse_non_negative_i32 parse_non_negative_int strtol convert
    skip_spaces take_sign convert_digits read_digits to_long text is_empty
positive_run = refl

abbrev two_mib : Bytes
two_mib = text "2MiB"

mib_run : parse_size_bytes two_mib 0 ≡ (true, 2097152)
unfolding parse_size_bytes convert skip_spaces take_sign convert_digits read_digits
    to_unsigned_long_long to_lower multiplier scale text bytes_eq is_empty
mib_run = refl

-- A negative number is a size next to 2^64.
negative_run : parse_size_bytes (text "-1") 0 ≡ (true, 2 ^ 64 - 1)
unfolding parse_size_bytes convert skip_spaces take_sign convert_digits read_digits
    to_unsigned_long_long to_lower multiplier scale text bytes_eq is_empty
negative_run = refl

parse_v-IsIdList_example :
    (Distinct (parse_v ids).1 × All InInt (parse_v ids).1)
    × ((parse_v ids).0 ≡ true → is_empty (parse_v ids).1 ≡ false)
parse_v-IsIdList_example = parse_v-IsIdList ids

below : decimal (b'1' ∷ b'6' ∷ []) < 2 ^ 64
unfolding decimal
below = omega arith

parse_size_bytes_iff_example :
    (parse_size_bytes (b'1' ∷ b'6' ∷ [] ++ text "Kb") 0 ≡ (true, 16384))
    ↔ IsSize (b'1' ∷ b'6' ∷ []) (text "Kb") 16384
unfolding text
parse_size_bytes_iff_example =
    parse_size_bytes_iff b'1' (b'6' ∷ []) (text "Kb") 0 16384
      ((omega arith, omega arith), ((omega arith, omega arith), tt)) (inr (omega arith)) below

parse_ids-fuel_example : parse_ids 9 ids [] ≡ parse_ids 20 ids []
unfolding text
parse_ids-fuel_example = parse_ids-fuel 9 20 ids [] (omega arith) (omega arith)
