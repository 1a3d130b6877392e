-- ===== src/Kv/Resident/Accounting.antt =====
-- The count of resident bytes, and that no key stands twice.
use attemory.Kv.Resident.Slots.{
  erase_slot-UniqueKeys, put_slot-UniqueKeys, total-put_slot, total-erase_slot, UniqueKeys, total,
}
use attemory.Kv.Resident.{
  entry_bytes, store_entry, clear_session, clear_slots, add64, next_tick, put_slot, u64_max,
  erase_slot, find_slot, ResidentKvEntry, sub64, find, remove, u64, ResidentKvStore, Slot,
}
use attemory.Base.{
  ℕ, ◌+◌, ◌-◌, ◌≤◌, ◌<◌, ◌≡◌, refl, sym, ap, subst, ◌∙◌, inl, inr, false, none, some, List, [], ◌∷◌,
  arith, ltb, if◌then◌else◌, Bool-cases, Option-cases,
}
use attemory.Base.Text.{Bytes, bytes_eq}
use attemory.Base.Int.{ℤ}
use attemory.Kv.Handle.{resident_snapshot_ram_bytes, Heap}

-- The counter is the sum of the entries' sizes, it is in a `uint64_t`, and the keys are unique.
abbrev pub Accounted : List Slot → ℕ → Type 0
Accounted ss bytes = (bytes ≡ total ss) × (bytes < u64) × UniqueKeys ss

abbrev pub IsAccounted : ResidentKvStore → Type 0
IsAccounted st = Accounted st.resident_segments st.resident_bytes

sub64_exact : (a : ℕ) (b : ℕ) (t : ℕ) → t + b ≡ a → a < u64 → (sub64 a b ≡ t) × (t < u64)
sub64_exact a b t e h = (omega arith, omega arith)

module _ (i : Bytes) (z : ℤ) where
  pub erase_slot-Accounted :
      (ss : List Slot) (bytes : ℕ) (x : ResidentKvEntry)
      → find_slot ss i z ≡ some x
      → Accounted ss bytes
      → Accounted (erase_slot ss i z) (sub64 bytes x.bytes)
  erase_slot-Accounted ss bytes x found (counted, bound, unique) =
      let t = total-erase_slot i z ss in
      let balance : total (erase_slot ss i z) + x.bytes ≡ bytes =
        ap (λ o. total (erase_slot ss i z) + entry_bytes o) (sym found) ∙ t ∙ sym counted in
      let r = sub64_exact bytes x.bytes (total (erase_slot ss i z)) balance bound in
      (r.0, subst (λ n. n < u64) (sym r.0) r.1, erase_slot-UniqueKeys i z ss unique)

  put_slot-Accounted :
      (ss : List Slot) (bytes : ℕ) (e : ResidentKvEntry)
      → Accounted ss bytes
      → ltb (u64_max - sub64 bytes (entry_bytes (find_slot ss i z))) e.bytes ≡ false
      → Accounted (put_slot ss i z e) (add64 (sub64 bytes (entry_bytes (find_slot ss i z))) e.bytes)
  put_slot-Accounted ss bytes e (counted, bound, unique) fits =
      let t = total-put_slot i z e ss in
      let u = total-erase_slot i z ss in
      (ground arith, ground arith, put_slot-UniqueKeys i z e ss unique)

  same_bytes :
      (ss : List Slot) (x : ResidentKvEntry) (clock : ℕ)
      → find_slot ss i z ≡ some x
      → total (put_slot ss i z (record x { last_access = clock })) ≡ total ss
  same_bytes ss x clock found =
      let t = total-put_slot i z (record x { last_access = clock }) ss in ground arith

  pub remove-IsAccounted : (st : ResidentKvStore) → IsAccounted st → IsAccounted (remove st i z)
  unfolding remove
  remove-IsAccounted st a = elim (Option-cases (find_slot st.resident_segments i z)) [
    | inl e ↦ rw (remove, e) a
    | inr (x, e) ↦
        rw (remove, e) (erase_slot-Accounted st.resident_segments st.resident_bytes x e a)
  ]

  pub find-IsAccounted : (st : ResidentKvStore) → IsAccounted st → IsAccounted (find st i z).0
  unfolding find
  find-IsAccounted st a = elim (Option-cases (find_slot st.resident_segments i z)) [
    | inl e ↦ rw (find, e) a
    | inr (x, e) ↦
        rw (find, e)
          (
            a.0 ∙ sym (same_bytes st.resident_segments x (next_tick st.access_clock) e),
            a.1,
            put_slot-UniqueKeys i z (record x { last_access = next_tick st.access_clock })
                st.resident_segments a.2,
          )
  ]

  clear_slots-none :
      (c : ℕ) (ss : List Slot) (s : Slot)
      → find_slot ss s.session_id s.segment_id ≡ none
      → find_slot (clear_slots i c ss).1 s.session_id s.segment_id ≡ none
  unfolding clear_slots find_slot
  clear_slots-none c [] s h = refl
  clear_slots-none c (x ∷ ss) s h =
      let d = if bytes_eq x.session_id i then sub64 c x.entry.bytes else c in
      ground (arith, clear_slots-none d ss s)

  clear_slots-Accounted :
      (c : ℕ) (ss : List Slot)
      → total ss ≤ c
      → c < u64
      → UniqueKeys ss
      → ((clear_slots i c ss).0 + total ss ≡ c + total (clear_slots i c ss).1)
        × ((clear_slots i c ss).0 ≤ c)
        × UniqueKeys (clear_slots i c ss).1
  unfolding clear_slots
  clear_slots-Accounted c [] h b u = (omega arith, omega arith, tt)
  clear_slots-Accounted c (x ∷ ss) h b u = elim (Bool-cases (bytes_eq x.session_id i)) [
    | inl e ↦ rw e (
        let d = sub64_exact c x.entry.bytes (c - x.entry.bytes) (omega arith) b in
        let r =
          clear_slots-Accounted (sub64 c x.entry.bytes) ss (ground arith) (ground arith) u.1 in
        (ground arith, ground arith, r.2))
    | inr e ↦ rw e (
        let r = clear_slots-Accounted c ss (omega arith) b u.1 in
        (omega arith, r.1, (clear_slots-none c ss x u.0, r.2)))
  ]

  pub clear_session-IsAccounted :
      (st : ResidentKvStore) → IsAccounted st → IsAccounted (clear_session st i)
  unfolding clear_session
  clear_session-IsAccounted st (counted, bound, unique) =
      let r =
        clear_slots-Accounted st.resident_bytes st.resident_segments (omega arith) bound unique in
      (omega arith, omega arith, r.2)

  pub store_entry-IsAccounted :
      (heap : Heap) (st : ResidentKvStore) (handle : ℕ)
      → IsAccounted st
      → IsAccounted (store_entry heap st i z handle).1
  unfolding store_entry
  store_entry-IsAccounted heap st handle a =
      let bytes = resident_snapshot_ram_bytes heap (some handle) in
      let rest = sub64 st.resident_bytes (entry_bytes (find_slot st.resident_segments i z)) in
      elim (Bool-cases (ltb (u64_max - rest) bytes)) [
        | inl e ↦ rw e a
        | inr e ↦ rw e (
            put_slot-Accounted st.resident_segments st.resident_bytes
              (record { handle = handle; bytes = bytes; last_access = next_tick st.access_clock }) a
              e)
      ]
