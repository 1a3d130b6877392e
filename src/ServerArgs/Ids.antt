-- ===== src/ServerArgs/Ids.antt =====
-- The list of ids that `parse_v` reads.
use attemory.Base.Text.{Bytes, is_empty}
use attemory.ServerArgs.{to_long, convert, parse_v, parse_ids, max_int, parse_rest, add_id}
use attemory.Base.Int.{◌≤ℤ◌, negsuc, Distinct-snoc, ltb_ℤ, mem_ℤ, Distinct, pos, ℤ}
use attemory.Base.{
  All-append, ℕ, zero, suc, ◌≡◌, inl, inr, Bool, true, false, ◌||◌, not, List, [], ◌∷◌, arith, ◌==◌,
  Bool-cases, Option-cases, length, All,
}

abbrev pub InInt : ℤ → Type 0
InInt id = (pos 0 ≤ℤ id) × (id ≤ℤ max_int)

abbrev pub IsIdList : List ℤ → Type 0
IsIdList v = Distinct v × All InInt v

add_id-IsIdList : (id : ℤ) (v : List ℤ) → InInt id → IsIdList v → IsIdList (add_id id v)
unfolding add_id
add_id-IsIdList id v h k = elim (Bool-cases (mem_ℤ id v)) [
  | inl e ↦ rw e k
  | inr e ↦ rw e (Distinct-snoc v id k.0 e, All-append InInt v (id ∷ []) k.1 (h, tt))
]

-- Done means that the list has an id.
IsRead : Bool × List ℤ → Type 0
IsRead r = IsIdList r.1 × (r.0 ≡ true → is_empty r.1 ≡ false)

refused-IsRead : (v : List ℤ) → IsIdList v → IsRead (false, v)
unfolding IsRead
refused-IsRead v h = (h, λ e. absurd (cc))

parse_rest-IsRead :
    (next : Bytes → Bool × List ℤ) (rest : Bytes) (v : List ℤ)
    → IsIdList v
    → ((cs : Bytes) → IsRead (next cs))
    → IsRead (parse_rest next rest v)
unfolding parse_rest IsRead
parse_rest-IsRead next [] v h k = (h, λ e. ground arith)
parse_rest-IsRead next (c ∷ cs) v h k = elim (Bool-cases (not (c == b',') || is_empty cs)) [
  | inl e ↦ rw e (refused-IsRead v h)
  | inr e ↦ rw e (k cs)
]

long_InInt : (parsed : ℤ) → (ltb_ℤ parsed (pos 0) || ltb_ℤ max_int parsed) ≡ false → InInt parsed
unfolding max_int
long_InInt (pos n) h = (omega arith, ground arith)
long_InInt (negsuc n) h = absurd (ground arith)

parse_ids-IsRead :
    (fuel : ℕ) (cursor : Bytes) (v : List ℤ) → IsIdList v → IsRead (parse_ids fuel cursor v)
unfolding parse_ids
parse_ids-IsRead zero cursor v h = refused-IsRead v h
parse_ids-IsRead (suc fuel) cursor v h = elim (Option-cases (convert cursor)) [
  | inl e ↦ rw (parse_ids, e) (refused-IsRead v h)
  | inr (r, e) ↦
      let parsed = to_long r.0 r.1.0 in
      rw (parse_ids, e)
        (elim (Bool-cases (ltb_ℤ parsed (pos 0) || ltb_ℤ max_int parsed)) [
          | inl f ↦ rw f (refused-IsRead v h)
          | inr f ↦
              let taken = add_id-IsIdList parsed v (long_InInt parsed f) h in
              rw f (
                parse_rest-IsRead (λ cs. parse_ids fuel cs (add_id parsed v)) r.1.1
                  (add_id parsed v) taken (λ cs. parse_ids-IsRead fuel cs (add_id parsed v) taken))
        ])
]

-- Whatever the argument, no two of the ids that `parse_v` leaves are equal and each is between 0 and
-- the largest 32-bit integer; when it accepts the argument there is an id.
pub parse_v-IsIdList :
    (chars : Bytes)
    → (Distinct (parse_v chars).1 × All InInt (parse_v chars).1)
      × ((parse_v chars).0 ≡ true → is_empty (parse_v chars).1 ≡ false)
unfolding parse_v IsRead
parse_v-IsIdList chars = parse_ids-IsRead (suc (length chars)) chars [] (tt, tt)
