-- ===== src/Kv/Resident/Evict.antt =====
-- Which slots eviction takes, and when it stops.
use attemory.Kv.Resident.Accounting.{erase_slot-Accounted, IsAccounted}
use attemory.Kv.Resident.Slots.{
  is_at_iff, length-erase_slot, All-erase_slot, find_slot-Member, UniqueKeys, Member,
}
use attemory.Kv.Resident.{
  evict_to_budget, evict_slot, is_at, u64_max, is_protected, evict_rounds, ResidentKvStore,
  erase_slot, oldest_slot, Slot,
}
use attemory.Base.{
  ℕ, zero, suc, ◌≤◌, ◌<◌, ◌≡◌, refl, ap, subst, ◌∙◌, ◌⊎◌, inl, inr, true, false, ◌&&◌, not, Option,
  none, some, List, [], ◌∷◌, arith, ltb, ◌==◌, Bool-cases, length, All,
}
use attemory.Base.Text.{Bytes}
use attemory.Base.Int.{ℤ}

module _ (i : Bytes) (z : ℤ) where
  -- A slot that eviction may not take, or that was used at `t` or later.
  abbrev pub Spared : ℕ → Slot → Type 0
  Spared t x = (is_protected i z x ≡ true) ⊎ (t ≤ x.entry.last_access)

  -- The slot is the least recently used of those that eviction may take.
  abbrev pub IsOldest : Slot → List Slot → Type 0
  IsOldest s ss = (is_protected i z s ≡ false) × All (Spared s.entry.last_access) ss

  Spared-mono : (t : ℕ) (u : ℕ) (ss : List Slot) → t ≤ u → All (Spared u) ss → All (Spared t) ss
  Spared-mono t u [] h a = tt
  Spared-mono t u (s ∷ ss) h a = (ground arith, Spared-mono t u ss h a.1)

  oldest_slot_lem :
      (found : Option Slot) (oldest : ℕ) (ss : List Slot)
      → ((oldest_slot i z found oldest ss ≡ found) × All (Spared oldest) ss)
        ⊎ ((s : Slot) × (oldest_slot i z found oldest ss ≡ some s)
            × Member s ss
            × (s.entry.last_access < oldest)
            × IsOldest s ss)
  unfolding oldest_slot
  oldest_slot_lem found oldest [] = inl (refl, tt)
  oldest_slot_lem found oldest (x ∷ ss) =
      elim (Bool-cases (not (is_protected i z x) && ltb x.entry.last_access oldest)) [
        | inr e ↦ rw e elim (oldest_slot_lem found oldest ss) [
          | inl (h, a) ↦ inl (h, (ground arith, a))
          | inr (s, h, m, l, (p, a)) ↦ inr (s, h, inr m, l, (p, (ground arith, a)))
        ]
        | inl e ↦ rw e elim (oldest_slot_lem (some x) x.entry.last_access ss) [
          | inl (h, a) ↦ inr (x, h, inl refl, ground arith, (ground arith, (inr (omega arith), a)))
          | inr (s, h, m, l, (p, a)) ↦ inr (s, h, inr m, ground arith, (p, (inr (omega arith), a)))
        ]
      ]

  Member-erase_slot :
      (x : Slot) (ss : List Slot) (j : Bytes) (y : ℤ)
      → Member x ss
      → (is_at j y x ≡ true) ⊎ Member x (erase_slot ss j y)
  unfolding erase_slot
  Member-erase_slot x [] j y m = absurd m
  Member-erase_slot x (s ∷ ss) j y (inl e) = elim (Bool-cases (is_at j y s)) [
    | inl at ↦ inl (ap (is_at j y) e ∙ at)
    | inr away ↦ inr (rw away (inl e))
  ]
  Member-erase_slot x (s ∷ ss) j y (inr m) = elim (Bool-cases (is_at j y s)) [
    | inl at ↦ inr (rw at m)
    | inr away ↦ elim (Member-erase_slot x ss j y m) [
      | inl e ↦ inl e
      | inr n ↦ inr (rw away (inr n))
    ]
  ]

  All_none : (P : Slot → Type 0) (ss : List Slot) → length ss ≤ 0 → All P ss
  All_none P [] h = tt
  All_none P (s ∷ ss) h = absurd (omega arith)

  -- What an eviction leaves: slots of before, all of which are used no earlier than what it takes.
  abbrev pub Kept : List Slot → List Slot → Type 1
  Kept before after =
      ((P : Slot → Type 0) → All P before → All P after)
      × ((x : Slot) → Member x before → Member x after ⊎ IsOldest x after)

  abbrev pub Within : ResidentKvStore → Type 0
  Within st = (st.resident_bytes ≤ st.budget_bytes) ⊎ All (Spared u64_max) st.resident_segments

  same_slot :
      (ss : List Slot) (s : Slot) (x : Slot)
      → UniqueKeys ss
      → Member s ss
      → Member x ss
      → is_at s.session_id s.segment_id x ≡ true
      → s ≡ x
  same_slot ss s x unique m n at =
      let a = find_slot-Member s ss unique m in
      let b = find_slot-Member x ss unique n in
      let keys = (is_at_iff s.session_id s.segment_id x).0 at in ground arith

  -- Taking the oldest slot away, before an eviction that goes on.
  Kept-more :
      (ss : List Slot) (s : Slot) (after : List Slot)
      → UniqueKeys ss
      → Member s ss
      → IsOldest s ss
      → Kept (erase_slot ss s.session_id s.segment_id) after
      → Kept ss after
  Kept-more ss s after unique m (free, oldest) (keeps, goes) =
      let sub : (P : Slot → Type 0) → All P ss → All P after =
        λ P p. keeps P (All-erase_slot s.session_id s.segment_id P ss p) in
      (
        sub,
        λ x n. elim (Member-erase_slot x ss s.session_id s.segment_id n) [
          | inr rest ↦ goes x rest
          | inl at ↦ inr (
              subst (λ y. IsOldest y after) (same_slot ss s x unique m n at)
                (free, sub (Spared s.entry.last_access) oldest))
        ],
      )

  evict_rounds_lem :
      (fuel : ℕ) (st : ResidentKvStore)
      → length st.resident_segments ≤ fuel
      → IsAccounted st
      → IsAccounted (evict_rounds fuel st i z)
        × Within (evict_rounds fuel st i z)
        × Kept st.resident_segments (evict_rounds fuel st i z).resident_segments
  unfolding evict_rounds
  evict_rounds_lem zero st h a =
      (a, inr (All_none (Spared u64_max) st.resident_segments h), ((λ P p. p), (λ x m. inl m)))
  evict_rounds_lem (suc fuel) st h a = elim (Bool-cases (ltb st.budget_bytes st.resident_bytes)) [
    | inr e ↦ rw (e, evict_rounds) (a, inl (ground arith), ((λ P p. p), (λ x m. inl m)))
    | inl e ↦ elim (oldest_slot_lem none u64_max st.resident_segments) [
      | inl (none_left, spared) ↦
          rw (e, none_left, evict_rounds) (a, inr spared, ((λ P p. p), (λ x m. inl m)))
      | inr (s, chosen, m, l, oldest) ↦
          rw (e, chosen, evict_rounds)
            (let found = find_slot-Member s st.resident_segments a.2 m in
              let shorter =
                length-erase_slot s.session_id s.segment_id st.resident_segments s.entry found in
              let r = evict_rounds_lem fuel (evict_slot st s) (omega arith) (
                erase_slot-Accounted s.session_id s.segment_id st.resident_segments
                  st.resident_bytes s.entry found a) in
              (
                r.0,
                r.1,
                Kept-more st.resident_segments s
                    (evict_rounds fuel (evict_slot st s) i z).resident_segments a.2 m oldest r.2,
              ))
    ]
  ]

  -- All that an eviction does to a store whose counter is right.
  pub evict_to_budget_lem :
      (st : ResidentKvStore)
      → IsAccounted st
      → IsAccounted (evict_to_budget st i z)
        × (((evict_to_budget st i z).budget_bytes ≡ 0) ⊎ Within (evict_to_budget st i z))
        × Kept st.resident_segments (evict_to_budget st i z).resident_segments
  unfolding evict_to_budget
  evict_to_budget_lem st a = elim (Bool-cases (st.budget_bytes == 0)) [
    | inl e ↦ rw e (a, inl (ground arith), ((λ P p. p), (λ x m. inl m)))
    | inr e ↦ rw e (
        let r = evict_rounds_lem (length st.resident_segments) st (omega arith) a in
        (r.0, inr r.1, r.2))
  ]

  -- In a store whose counter is right and that has a budget, eviction stops within the budget, or
  -- when every slot that is left is protected or has the largest time.
  pub evict_to_budget-Within :
      (st : ResidentKvStore)
      → IsAccounted st
      → (st.budget_bytes == 0) ≡ false
      → Within (evict_to_budget st i z)
  unfolding evict_to_budget
  evict_to_budget-Within st a h =
      rw h (evict_rounds_lem (length st.resident_segments) st (omega arith) a).1

  -- In a store whose counter is right, a slot that eviction takes was not protected and was last
  -- used no later than any unprotected slot that stays.
  pub evict_to_budget-IsOldest :
      (st : ResidentKvStore) (x : Slot)
      → IsAccounted st
      → Member x st.resident_segments
      → Member x (evict_to_budget st i z).resident_segments
        ⊎ IsOldest x (evict_to_budget st i z).resident_segments
  evict_to_budget-IsOldest st x a m = (evict_to_budget_lem st a).2.1 x m
