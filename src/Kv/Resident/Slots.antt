-- ===== src/Kv/Resident/Slots.antt =====
-- Laws of the slot list.
use attemory.Base.Int.{eqb_ℤ_iff, ℤ}
use attemory.Base.Text.{bytes_eq_iff, Bytes}
use attemory.Kv.Resident.{
  entry_bytes, erase_slot, put_slot, is_at, find_slot, ResidentKvEntry, Slot,
}
use attemory.Base.{
  ℕ, ◌+◌, ◌≡◌, refl, ◌∙◌, ◌↔◌, ◌⊎◌, inl, inr, true, false, none, some, List, [], ◌∷◌, arith,
  Bool-cases, length, All,
}

abbrev pub total : List Slot → ℕ
total [] = 0
total (s ∷ ss) = s.entry.bytes + total ss

-- No two slots are of one segment of one session.
abbrev pub UniqueKeys : List Slot → Type 0
UniqueKeys [] = Unit
UniqueKeys (s ∷ ss) = (find_slot ss s.session_id s.segment_id ≡ none) × UniqueKeys ss

abbrev pub Member : Slot → List Slot → Type 0
Member x [] = ⊥
Member x (s ∷ ss) = (x ≡ s) ⊎ Member x ss

pub is_at_iff :
    (i : Bytes) (z : ℤ) (s : Slot)
    → (is_at i z s ≡ true) ↔ ((s.session_id ≡ i) × (s.segment_id ≡ z))
is_at_iff i z s = ground (arith, bytes_eq_iff s.session_id i, eqb_ℤ_iff s.segment_id z)

pub is_at_self : (s : Slot) → is_at s.session_id s.segment_id s ≡ true
is_at_self s = (is_at_iff s.session_id s.segment_id s).1 (refl, refl)

module _ (i : Bytes) (z : ℤ) where
  pub total-put_slot :
      (e : ResidentKvEntry) (ss : List Slot)
      → total (put_slot ss i z e) + entry_bytes (find_slot ss i z) ≡ total ss + e.bytes
  unfolding put_slot find_slot
  total-put_slot e [] = omega arith
  total-put_slot e (s ∷ ss) = ground (arith, total-put_slot e ss)

  pub total-erase_slot :
      (ss : List Slot) → total (erase_slot ss i z) + entry_bytes (find_slot ss i z) ≡ total ss
  unfolding erase_slot find_slot
  total-erase_slot [] = omega arith
  total-erase_slot (s ∷ ss) = ground (arith, total-erase_slot ss)

  pub length-erase_slot :
      (ss : List Slot) (e : ResidentKvEntry)
      → find_slot ss i z ≡ some e
      → length (erase_slot ss i z) + 1 ≡ length ss
  unfolding erase_slot find_slot
  length-erase_slot [] e h = cc
  length-erase_slot (s ∷ ss) e h = ground (arith, length-erase_slot ss e)

  pub find_slot-put_slot :
      (e : ResidentKvEntry) (ss : List Slot) → find_slot (put_slot ss i z e) i z ≡ some e
  unfolding put_slot find_slot
  find_slot-put_slot e [] =
      ground (arith, is_at_iff i z (record { session_id = i; segment_id = z; entry = e }))
  find_slot-put_slot e (s ∷ ss) = ground (arith, find_slot-put_slot e ss)

  pub find_slot-put_slot_ne :
      (e : ResidentKvEntry) (ss : List Slot) (s : Slot)
      → is_at i z s ≡ false
      → find_slot (put_slot ss i z e) s.session_id s.segment_id
        ≡ find_slot ss s.session_id s.segment_id
  unfolding put_slot find_slot
  find_slot-put_slot_ne e [] s h = ground (
    arith,
    is_at_iff s.session_id s.segment_id (record { session_id = i; segment_id = z; entry = e }),
    is_at_iff i z s,
  )
  find_slot-put_slot_ne e (x ∷ ss) s h = ground (
    arith,
    find_slot-put_slot_ne e ss s,
    is_at_iff s.session_id s.segment_id x,
    is_at_iff i z x,
    is_at_iff i z s,
  )

  pub find_slot-erase_slot_ne :
      (ss : List Slot) (s : Slot)
      → is_at i z s ≡ false
      → find_slot (erase_slot ss i z) s.session_id s.segment_id
        ≡ find_slot ss s.session_id s.segment_id
  unfolding erase_slot find_slot
  find_slot-erase_slot_ne [] s h = refl
  find_slot-erase_slot_ne (x ∷ ss) s h = ground (
    arith,
    find_slot-erase_slot_ne ss s,
    is_at_iff s.session_id s.segment_id x,
    is_at_iff i z x,
    is_at_iff i z s,
  )

  -- What is absent stays absent when something is erased.
  find_slot-erase_slot-none :
      (ss : List Slot) (s : Slot)
      → find_slot ss s.session_id s.segment_id ≡ none
      → find_slot (erase_slot ss i z) s.session_id s.segment_id ≡ none
  unfolding erase_slot find_slot
  find_slot-erase_slot-none [] s h = refl
  find_slot-erase_slot-none (x ∷ ss) s h = ground (arith, find_slot-erase_slot-none ss s)

  pub erase_slot-UniqueKeys : (ss : List Slot) → UniqueKeys ss → UniqueKeys (erase_slot ss i z)
  unfolding erase_slot
  erase_slot-UniqueKeys [] u = tt
  erase_slot-UniqueKeys (s ∷ ss) u = elim (Bool-cases (is_at i z s)) [
    | inl e ↦ rw e u.1
    | inr e ↦ rw e (find_slot-erase_slot-none ss s u.0, erase_slot-UniqueKeys ss u.1)
  ]

  pub put_slot-UniqueKeys :
      (e : ResidentKvEntry) (ss : List Slot) → UniqueKeys ss → UniqueKeys (put_slot ss i z e)
  unfolding put_slot find_slot
  put_slot-UniqueKeys e [] u = (refl, tt)
  put_slot-UniqueKeys e (s ∷ ss) u = elim (Bool-cases (is_at i z s)) [
    | inl here ↦ rw here u
    | inr away ↦ rw away (find_slot-put_slot_ne e ss s away ∙ u.0, put_slot-UniqueKeys e ss u.1)
  ]

  pub All-erase_slot : (P : Slot → Type 0) (ss : List Slot) → All P ss → All P (erase_slot ss i z)
  unfolding erase_slot
  All-erase_slot P [] h = tt
  All-erase_slot P (s ∷ ss) h = elim (Bool-cases (is_at i z s)) [
    | inl e ↦ rw e h.1
    | inr e ↦ rw e (h.0, All-erase_slot P ss h.1)
  ]

-- With unique keys a slot of the list is the one that its key finds.
pub find_slot-Member :
    (x : Slot) (ss : List Slot)
    → UniqueKeys ss
    → Member x ss
    → find_slot ss x.session_id x.segment_id ≡ some x.entry
unfolding find_slot
find_slot-Member x (s ∷ ss) u (inl e) = ground (arith, is_at_self s)
find_slot-Member x (s ∷ ss) u (inr m) =
    ground (arith, find_slot-Member x ss u.1 m, is_at_iff x.session_id x.segment_id s)
find_slot-Member x [] u m = absurd m
