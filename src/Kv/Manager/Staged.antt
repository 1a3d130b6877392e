-- ===== src/Kv/Manager/Staged.antt =====
-- `stage_incremental_prefix` and `take_incremental_prefix` of src/context/kv/segment_kv_manager.cpp: a
-- segment that grows hands its KV state on as the prefix of its next one.
use attemory.Kv.Resident.Slots.{is_at_iff, find_slot-put_slot, put_slot-UniqueKeys, UniqueKeys}
use attemory.Base.Int.{ℤ}
use attemory.Base.Text.{Bytes}
use attemory.Kv.Manager.{
  prefix_entry, is_active_at, clear_active, take_incremental_prefix, stage_incremental_prefix,
  stage_handle, ContextKvState,
}
use attemory.Kv.Resident.{is_at, Slot, ResidentKvStore, peek, erase_slot, find, remove, find_slot}
use attemory.Base.{
  ℕ, ◌≡◌, refl, subst, ◌∙◌, ◌⊎◌, inl, inr, false, none, some, List, [], ◌∷◌, Bool-cases,
  Option-cases,
}

find_slot-erase_slot :
    (i : Bytes) (z : ℤ) (ss : List Slot) → UniqueKeys ss → find_slot (erase_slot ss i z) i z ≡ none
unfolding find_slot erase_slot
find_slot-erase_slot i z [] u = refl
find_slot-erase_slot i z (s ∷ ss) u = elim (Bool-cases (is_at i z s)) [
  | inr e ↦ rw (e, e) (find_slot-erase_slot i z ss u.1)
  | inl e ↦
      let (same_i, same_z) = (is_at_iff i z s).0 e in
      rw e (
        subst (λ (y : ℤ). find_slot ss i y ≡ none) same_z
          (subst (λ (x : Bytes). find_slot ss x s.segment_id ≡ none) same_i u.0))
]

remove-peek :
    (st : ResidentKvStore) (i : Bytes) (z : ℤ)
    → UniqueKeys st.resident_segments
    → peek (remove st i z) i z ≡ none
unfolding remove peek
remove-peek st i z u = elim (Option-cases (find_slot st.resident_segments i z)) [
  | inl e ↦ rw (remove, e, peek, e) refl
  | inr (entry, e) ↦ rw (remove, e, peek, find_slot-erase_slot i z st.resident_segments u) refl
]

find-peek : (st : ResidentKvStore) (i : Bytes) (z : ℤ) → (find st i z).1 ≡ peek st i z
unfolding find peek
find-peek st i z = elim (Option-cases (find_slot st.resident_segments i z)) [
  | inl e ↦ rw (find, e, peek) refl
  | inr (entry, e) ↦ rw (find, e, peek) refl
]

find-UniqueKeys :
    (st : ResidentKvStore) (i : Bytes) (z : ℤ)
    → UniqueKeys st.resident_segments
    → UniqueKeys (find st i z).0.resident_segments
unfolding find
find-UniqueKeys st i z u = elim (Option-cases (find_slot st.resident_segments i z)) [
  | inl e ↦ rw (find, e) u
  | inr (entry, e) ↦ rw (find, e) (put_slot-UniqueKeys i z _ st.resident_segments u)
]

-- What is staged is there to be taken.
abbrev pub IsStaged : ContextKvState → Bytes → ℤ → ℕ → Type 0
IsStaged kv i z handle =
    ((take_incremental_prefix kv i z).0 ≡ some handle)
    × (peek kv.resident i z ≡ none)
    × ((kv.active_segment.handle ≡ none) ⊎ (is_active_at kv i z ≡ false))

stage_handle-IsStaged :
    (kv : ContextKvState) (i : Bytes) (z : ℤ) (handle : ℕ)
    → UniqueKeys kv.resident.resident_segments
    → IsStaged (stage_handle kv i z handle) i z handle
unfolding stage_handle take_incremental_prefix clear_active
stage_handle-IsStaged kv i z handle u =
    let gone = remove-peek kv.resident i z u in
    let there = find_slot-put_slot i z (prefix_entry handle) kv.incremental_prefixes in
    elim (Bool-cases (is_active_at kv i z)) [
      | inl here ↦ rw (here, take_incremental_prefix, there) (refl, gone, inl refl)
      | inr elsewhere ↦ rw (elsewhere, take_incremental_prefix, there) (refl, gone, inr elsewhere)
    ]

-- When a resident segment is staged, its state is what the next call takes as the prefix, it is no
-- longer resident, and it is not the active segment. The keys of the resident store are unique.
pub stage_incremental_prefix-IsStaged :
    (kv : ContextKvState) (session_id : Bytes) (segment_id : ℤ) (handle : ℕ)
    → UniqueKeys kv.resident.resident_segments
    → peek kv.resident session_id segment_id ≡ some handle
    → IsStaged (stage_incremental_prefix kv session_id segment_id) session_id segment_id handle
unfolding stage_incremental_prefix
stage_incremental_prefix-IsStaged kv i z handle u h =
    rw (stage_incremental_prefix, find-peek kv.resident i z ∙ h)
      (stage_handle-IsStaged (record kv { resident = (find kv.resident i z).0 }) i z handle
        (find-UniqueKeys kv.resident i z u))
