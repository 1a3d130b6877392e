-- ===== src/Kv/Resident/Released.antt =====
-- What the release of live contexts does to the states and to the count of bytes.
use attemory.Kv.Resident.Slots.{All-erase_slot}
use attemory.Kv.Resident.Live.{
  released, keep_only_segment_live, evicted, keep_only_session_live, release_error, recount,
  prepend, refresh_entry_bytes, Released, release_slots,
}
use attemory.Base.Result.{ResultStatus, err, ok, Result-cases}
use attemory.Base.{
  ℕ, zero, suc, ◌≡◌, refl, sym, ap, ◌∙◌, ◌⊎◌, inl, inr, Bool, true, false, ◌||◌, not, some, List,
  [], ◌∷◌, arith, ltb, ◌==◌, Bool-cases, Option-cases, length, All,
}
use attemory.Base.Text.{Bytes, bytes_eq}
use attemory.Base.Int.{eqb_ℤ, ℤ, negsuc}
use attemory.Kv.Handle.{
  release_live_context_to_snapshot_lem, Heap, Export, release_live_context_to_snapshot,
}
use attemory.Kv.Resident.{
  count_session, evict_slot, candidate, evict_to_budget, evict_rounds, ResidentKvStore, Slot,
}

abbrev IsIdle : Heap → ℕ → Type 0
IsIdle heap a = (heap a).has_live_context ≡ false

release-IsIdle :
    (export : Export) (heap : Heap) (a : ℕ) (b : ℕ)
    → IsIdle heap b
    → IsIdle (release_live_context_to_snapshot export heap (some a)).1 b
unfolding release_live_context_to_snapshot
release-IsIdle export heap a b h = elim (Bool-cases (heap a).has_live_context) [
  | inr idle ↦ ground arith
  | inl live ↦ elim (Result-cases (export (heap a))) [
    | inr (e, failed) ↦ ground arith
    | inl (r, exported) ↦ ground arith
  ]
]

ok≢err : {e : Bytes} → Path ResultStatus (err e) (ok tt) → ⊥
ok≢err h = ground arith

module _ (export : Export) (keep : Slot → Bool) where
  abbrev pub Result_of : Heap → ℕ → List Slot → Released
  Result_of heap bytes ss = release_slots export keep heap bytes ss

  pub release_slots_none :
      (heap : Heap) (bytes : ℕ)
      → Result_of heap bytes [] ≡ record { status = ok tt; heap = heap; bytes = bytes; slots = [] }
  unfolding release_slots
  release_slots_none heap bytes = refl

  -- The three ways a round can go.
  pub release_slots_cases :
      (heap : Heap) (bytes : ℕ) (s : Slot) (ss : List Slot)
      → let r = release_live_context_to_snapshot export heap (some s.entry.handle) in
        let now = refresh_entry_bytes r.1 s in
        ((keep s ≡ true) × (Result_of heap bytes (s ∷ ss) ≡ prepend s (Result_of heap bytes ss)))
        ⊎ ((r.0 ≡ ok tt)
            × (Result_of heap bytes (s ∷ ss)
                ≡ prepend now (Result_of r.1 (recount bytes s now) ss)))
        ⊎ ((e : Bytes) × (Result_of heap bytes (s ∷ ss) ≡ record {
          status = err (release_error s e);
          heap = r.1;
          bytes = bytes;
          slots = s ∷ ss;
        }))
  unfolding release_slots
  release_slots_cases heap bytes s ss = elim (Bool-cases (keep s)) [
    | inl e ↦ inl (e, rw (release_slots, e) refl)
    | inr e ↦
        inr
          elim (Result-cases
            (release_live_context_to_snapshot export heap (some s.entry.handle)).0) [
              | inl (u, done) ↦ inl (done, rw (release_slots, e, done) refl)
              | inr (x, failed) ↦ inr (x, rw (release_slots, e, failed) refl)
            ]
  ]

  abbrev pub released_heap : Heap → Slot → Heap
  released_heap heap s = (release_live_context_to_snapshot export heap (some s.entry.handle)).1

  release_slots-IsIdle :
      (heap : Heap) (bytes : ℕ) (ss : List Slot) (b : ℕ)
      → IsIdle heap b
      → IsIdle (release_slots export keep heap bytes ss).heap b
  release_slots-IsIdle heap bytes [] b h = rw (release_slots_none heap bytes) h
  release_slots-IsIdle heap bytes (s ∷ ss) b h = elim (release_slots_cases heap bytes s ss) [
    | inl (k, e) ↦ rw e (release_slots-IsIdle heap bytes ss b h)
    | inr (inl (done, e)) ↦ rw e (
        release_slots-IsIdle (released_heap heap s)
          (recount bytes s (refresh_entry_bytes (released_heap heap s) s)) ss b
          (release-IsIdle export heap s.entry.handle b h))
    | inr (inr (x, e)) ↦ rw e (release-IsIdle export heap s.entry.handle b h)
  ]

  release_slots_lem :
      (heap : Heap) (bytes : ℕ) (ss : List Slot)
      → (release_slots export keep heap bytes ss).status ≡ ok tt
      → All
          (λ s.
            (keep s ≡ true) ⊎ IsIdle (release_slots export keep heap bytes ss).heap s.entry.handle)
          (release_slots export keep heap bytes ss).slots
  release_slots_lem heap bytes [] h = rw (release_slots_none heap bytes) tt
  release_slots_lem heap bytes (s ∷ ss) h = elim (release_slots_cases heap bytes s ss) [
    | inl (k, e) ↦ rw e (inl k, release_slots_lem heap bytes ss (ap (λ r. r.status) (sym e) ∙ h))
    | inr (inl (done, e)) ↦ rw e (
      inr (
          release_slots-IsIdle (released_heap heap s)
            (recount bytes s (refresh_entry_bytes (released_heap heap s) s)) ss s.entry.handle
            (release_live_context_to_snapshot_lem export heap s.entry.handle s.entry.handle
              done).0),
      release_slots_lem (released_heap heap s)
          (recount bytes s (refresh_entry_bytes (released_heap heap s) s)) ss
          (ap (λ r. r.status) (sym e) ∙ h),
    )
    | inr (inr (x, e)) ↦ absurd (ok≢err (ap (λ r. r.status) (sym e) ∙ h))
  ]

-- What holds of all slots still holds after an eviction.
All-evict_rounds :
    (P : Slot → Type 0) (i : Bytes) (z : ℤ) (fuel : ℕ) (st : ResidentKvStore)
    → All P st.resident_segments
    → All P (evict_rounds fuel st i z).resident_segments
unfolding evict_rounds
All-evict_rounds P i z zero st h = h
All-evict_rounds P i z (suc fuel) st h = elim (Bool-cases (ltb st.budget_bytes st.resident_bytes)) [
  | inr e ↦ rw (evict_rounds, e) h
  | inl e ↦ elim (Option-cases (candidate st i z)) [
    | inl n ↦ rw (evict_rounds, e, n) h
    | inr (s, c) ↦
        rw (evict_rounds, e, c)
          (All-evict_rounds P i z fuel (evict_slot st s)
            (All-erase_slot s.session_id s.segment_id P st.resident_segments h))
  ]
]

All-evict_to_budget :
    (P : Slot → Type 0) (i : Bytes) (z : ℤ) (st : ResidentKvStore)
    → All P st.resident_segments
    → All P (evict_to_budget st i z).resident_segments
unfolding evict_to_budget
All-evict_to_budget P i z st h = elim (Bool-cases (st.budget_bytes == 0)) [
  | inl e ↦ rw e h
  | inr e ↦ rw e (All-evict_rounds P i z (length st.resident_segments) st h)
]

module _ (export : Export) (heap : Heap) (st : ResidentKvStore) (i : Bytes) where
  -- The slots that a call may leave live, or that are idle.
  abbrev pub Quiet : (Slot → Bool) → Heap → List Slot → Type 0
  Quiet keep after ss = All (λ s. (keep s ≡ true) ⊎ IsIdle after s.entry.handle) ss

  evicted_lem :
      (keep : Slot → Bool) (r : Released) (z : ℤ)
      → (evicted r st i z).0 ≡ ok tt
      → (r.status ≡ ok tt → Quiet keep r.heap r.slots)
      → Quiet keep (evicted r st i z).1 (evicted r st i z).2.resident_segments
  evicted_lem keep r z h quiet = elim (Result-cases r.status) [
    | inl (u, e) ↦ rw e (
        All-evict_to_budget (λ s. (keep s ≡ true) ⊎ IsIdle r.heap s.entry.handle) i z
          (released st r) (quiet e))
    | inr (x, e) ↦ absurd (ground arith)
  ]

  absent :
      (z : ℤ) (ss : List Slot)
      → count_session ss i ≡ 0
      → Quiet (λ s. not (bytes_eq s.session_id i) || eqb_ℤ s.segment_id z) heap ss
  unfolding count_session
  absent z [] h = tt
  absent z (s ∷ ss) h = elim (Bool-cases (bytes_eq s.session_id i)) [
    | inl e ↦ absurd (ground arith)
    | inr e ↦ (inl (rw e refl), absent z ss (ground arith))
  ]

  -- When only one session is to stay live and that succeeds, no slot of another session has a live
  -- context behind its handle.
  pub keep_only_session_live_lem :
      (keep_only_session_live export heap st i).0 ≡ ok tt
      → Quiet
          (λ s. bytes_eq s.session_id i)
          (keep_only_session_live export heap st i).1
          (keep_only_session_live export heap st i).2.resident_segments
  unfolding keep_only_session_live
  keep_only_session_live_lem h =
      let keep = λ (s : Slot). bytes_eq s.session_id i in
      evicted_lem keep (release_slots export keep heap st.resident_bytes st.resident_segments)
        (negsuc 0) h (release_slots_lem export keep heap st.resident_bytes st.resident_segments)

  -- When only one segment of a session is to stay live and that succeeds, no other slot of that
  -- session has a live context behind its handle.
  pub keep_only_segment_live_lem :
      (z : ℤ)
      → (keep_only_segment_live export heap st i z).0 ≡ ok tt
      → Quiet
          (λ s. not (bytes_eq s.session_id i) || eqb_ℤ s.segment_id z)
          (keep_only_segment_live export heap st i z).1
          (keep_only_segment_live export heap st i z).2.resident_segments
  unfolding keep_only_segment_live
  keep_only_segment_live_lem z h =
      let keep = λ (s : Slot). not (bytes_eq s.session_id i) || eqb_ℤ s.segment_id z in
      elim (Bool-cases (count_session st.resident_segments i == 0)) [
        | inl e ↦ rw e (absent z st.resident_segments (ground arith))
        | inr e ↦ rw e (
            evicted_lem keep (release_slots export keep heap st.resident_bytes st.resident_segments)
              z (ground arith)
              (release_slots_lem export keep heap st.resident_bytes st.resident_segments))
      ]
