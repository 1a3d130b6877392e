-- ===== src/Kv/Resident/Stored.antt =====
-- What `store` leaves behind.
use attemory.Kv.Resident.Evict.{Within, evict_to_budget_lem}
use attemory.Kv.Resident.Slots.{find_slot-put_slot, find_slot-Member, is_at_iff, Member}
use attemory.Kv.Resident.Accounting.{store_entry-IsAccounted, remove-IsAccounted, IsAccounted}
use attemory.Base.Result.{Result-cases, ok}
use attemory.Kv.Resident.{
  store, is_protected, next_tick, u64_max, entry_bytes, sub64, is_at, evict_to_budget,
  ResidentKvEntry, Slot, ResidentKvStore, peek, find_slot, store_entry,
}
use attemory.Base.{
  ℕ, ◌-◌, ◌≡◌, refl, ◌∙◌, ◌⊎◌, inl, inr, true, false, none, some, List, [], ◌∷◌, arith, ltb,
  Bool-cases, Option-cases,
}
use attemory.Base.Text.{Bytes}
use attemory.Base.Int.{ℤ}
use attemory.Kv.Handle.{resident_snapshot_ram_bytes, Heap, Handle}

module _ (heap : Heap) (i : Bytes) (z : ℤ) where
  store_entry_ok :
      (st : ResidentKvStore) (handle : ℕ)
      → (store_entry heap st i z handle).0 ≡ ok tt
      → peek (store_entry heap st i z handle).1 i z ≡ some handle
  unfolding store_entry peek
  store_entry_ok st handle h =
      let bytes = resident_snapshot_ram_bytes heap (some handle) in
      let rest = sub64 st.resident_bytes (entry_bytes (find_slot st.resident_segments i z)) in
      elim (Bool-cases (ltb (u64_max - rest) bytes)) [
        | inl e ↦ absurd (ground arith)
        | inr e ↦ rw e (
            rw
              (
                peek,
                find_slot-put_slot i z
                    (record {
                      handle = handle;
                      bytes = bytes;
                      last_access = next_tick st.access_clock;
                    })
                    st.resident_segments,
              )
              refl)
      ]

  slot_of :
      (ss : List Slot) (e : ResidentKvEntry)
      → find_slot ss i z ≡ some e
      → (s : Slot) × Member s ss × (s.session_id ≡ i) × (s.segment_id ≡ z) × (s.entry ≡ e)
  unfolding find_slot
  slot_of [] e found = absurd (ground arith)
  slot_of (s ∷ ss) e found = elim (Bool-cases (is_at i z s)) [
    | inl at ↦ (s, inl refl, ((is_at_iff i z s).0 at).0, ((is_at_iff i z s).0 at).1, ground arith)
    | inr away ↦
        let rest : find_slot ss i z ≡ some e = ground arith in
        let r = slot_of ss e rest in (r.0, inr r.1, r.2, r.3, r.4)
  ]

  key-is_protected : (s : Slot) → is_at i z s ≡ true → is_protected i z s ≡ false → ⊥
  key-is_protected s at free = ground arith

  peeked :
      (st : ResidentKvStore) (x : ResidentKvEntry) (handle : ℕ)
      → find_slot st.resident_segments i z ≡ some x
      → peek st i z ≡ some handle
      → some x.handle ≡ some handle
  unfolding peek
  peeked st x handle e h = (rw (peek, e) refl) ∙ h

  evict-peek :
      (st : ResidentKvStore) (handle : ℕ)
      → IsAccounted st
      → peek st i z ≡ some handle
      → peek (evict_to_budget st i z) i z ≡ some handle
  unfolding peek
  evict-peek st handle a h =
      let after = (evict_to_budget st i z).resident_segments in
      let r = evict_to_budget_lem i z st a in
      elim (Option-cases (find_slot st.resident_segments i z)) [
        | inl e ↦ absurd (ground arith)
        | inr (x, e) ↦
            let s = slot_of st.resident_segments x e in
            let stays : Member s.0 after = elim (r.2.1 s.0 s.1) [
              | inl m ↦ m
              | inr (free, old) ↦
                  absurd ((key-is_protected s.0 ((is_at_iff i z s.0).1 (s.2, s.3)) free))
            ] in
            let found = find_slot-Member s.0 after r.0.2 stays in
            let there : find_slot after i z ≡ some x = ground arith in
            rw (peek, there) (peeked st x handle e h)
      ]

  pub store-IsAccounted :
      (st : ResidentKvStore) (handle : Handle)
      → IsAccounted st
      → IsAccounted (store heap st i z handle).1
  unfolding store
  store-IsAccounted st none a = remove-IsAccounted i z st a
  store-IsAccounted st (some h) a =
      let kept = store_entry-IsAccounted i z heap st h a in
      elim (Result-cases (store_entry heap st i z h).0) [
        | inl (u, e) ↦ rw e (evict_to_budget_lem i z (store_entry heap st i z h).1 kept).0
        | inr (text, e) ↦ rw e kept
      ]

  -- Storing a segment in a store whose counter is right: when it succeeds, a look at that segment
  -- finds the stored handle; and the budget is 0, or the bytes are within it, or every slot is
  -- protected or has the largest time.
  pub store-peek :
      (st : ResidentKvStore) (handle : ℕ)
      → IsAccounted st
      → (store heap st i z (some handle)).0 ≡ ok tt
      → (peek (store heap st i z (some handle)).1 i z ≡ some handle)
        × (((store heap st i z (some handle)).1.budget_bytes ≡ 0)
            ⊎ Within i z (store heap st i z (some handle)).1)
  unfolding store
  store-peek st handle a h = elim (Result-cases (store_entry heap st i z handle).0) [
    | inr (text, e) ↦ absurd (ground arith)
    | inl (u, e) ↦
        let kept = store_entry-IsAccounted i z heap st handle a in
        let there = store_entry_ok st handle e in
        rw e (
          evict-peek (store_entry heap st i z handle).1 handle kept there,
          (evict_to_budget_lem i z (store_entry heap st i z handle).1 kept).1,
        )
  ]
