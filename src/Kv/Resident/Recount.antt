-- ===== src/Kv/Resident/Recount.antt =====
-- The count of bytes through a release of live contexts, which takes sizes anew without a guard.
use attemory.Kv.Resident.Evict.{evict_to_budget_lem}
use attemory.Base.Result.{Result-cases}
use attemory.Kv.Resident.Released.{release_slots_cases, released_heap, release_slots_none}
use attemory.Kv.Resident.Live.{
  released, refresh_entry_bytes, recount, evicted, release_slots, Released,
}
use attemory.Kv.Resident.Accounting.{IsAccounted, Accounted}
use attemory.Kv.Resident.Slots.{UniqueKeys, total}
use attemory.Base.{ℕ, ◌+◌, ◌%◌, ◌<◌, ◌≡◌, refl, inl, inr, Bool, none, List, [], ◌∷◌, arith}
use attemory.Base.Text.{Bytes}
use attemory.Base.Int.{ℤ}
use attemory.Kv.Handle.{Heap, Export}
use attemory.Kv.Resident.{sub64, add64, find_slot, u64, ResidentKvStore, Slot}

-- One round keeps the counter's distance to the sum, modulo 2^64.
round_lem :
    (bytes : ℕ) (old : ℕ) (new : ℕ) (t : ℕ) (t' : ℕ) (r : ℕ)
    → old < u64
    → (r + t) % u64 ≡ (add64 (sub64 bytes old) new + t') % u64
    → (r + (old + t)) % u64 ≡ (bytes + (new + t')) % u64
round_lem bytes old new t t' r h e = omega arith

kept_lem :
    (bytes : ℕ) (old : ℕ) (t : ℕ) (t' : ℕ) (r : ℕ)
    → (r + t) % u64 ≡ (bytes + t') % u64
    → (r + (old + t)) % u64 ≡ (bytes + (old + t')) % u64
kept_lem bytes old t t' r e = omega arith

module _ (export : Export) (keep : Slot → Bool) where
  release_slots-keys :
      (heap : Heap) (bytes : ℕ) (ss : List Slot) (s : Slot)
      → find_slot ss s.session_id s.segment_id ≡ none
      → find_slot (release_slots export keep heap bytes ss).slots s.session_id s.segment_id ≡ none
  unfolding find_slot
  release_slots-keys heap bytes [] s h = rw (release_slots_none export keep heap bytes) refl
  release_slots-keys heap bytes (x ∷ ss) s h =
      let sub = recount bytes x (refresh_entry_bytes (released_heap export keep heap x) x) in
      elim (release_slots_cases export keep heap bytes x ss) [
        | inl (k, e) ↦ rw e (ground (arith, release_slots-keys heap bytes ss s))
        | inr (inl (done, e)) ↦
            rw e (ground (arith, release_slots-keys (released_heap export keep heap x) sub ss s))
        | inr (inr (y, e)) ↦ rw e h
      ]

  release_slots_count :
      (heap : Heap) (bytes : ℕ) (ss : List Slot)
      → total ss < u64
      → bytes < u64
      → UniqueKeys ss
      → let r = release_slots export keep heap bytes ss in
        ((r.bytes + total ss) % u64 ≡ (bytes + total r.slots) % u64)
        × (r.bytes < u64)
        × UniqueKeys r.slots
  release_slots_count heap bytes [] h b u =
      rw (release_slots_none export keep heap bytes) (refl, b, tt)
  release_slots_count heap bytes (x ∷ ss) h b u =
      let there = released_heap export keep heap x in
      let now = refresh_entry_bytes there x in
      elim (release_slots_cases export keep heap bytes x ss) [
        | inl (k, e) ↦
            let r = release_slots_count heap bytes ss (omega arith) b u.1 in
            rw e (
              kept_lem bytes x.entry.bytes (total ss)
                  (total (release_slots export keep heap bytes ss).slots)
                  (release_slots export keep heap bytes ss).bytes r.0,
              r.1,
              (release_slots-keys heap bytes ss x u.0, r.2),
            )
        | inr (inl (done, e)) ↦
            let r =
              release_slots_count there (recount bytes x now) ss (omega arith) (omega arith) u.1 in
            rw e (
              round_lem bytes x.entry.bytes now.entry.bytes (total ss)
                  (total (release_slots export keep there (recount bytes x now) ss).slots)
                  (release_slots export keep there (recount bytes x now) ss).bytes (omega arith)
                  r.0,
              r.1,
              (release_slots-keys there (recount bytes x now) ss x u.0, r.2),
            )
        | inr (inr (y, e)) ↦ rw e (refl, b, u)
      ]

  -- Where the sizes after the release still sum below 2^64, the counter is their sum again.
  pub release_slots-Accounted :
      (heap : Heap) (bytes : ℕ) (ss : List Slot)
      → Accounted ss bytes
      → total (release_slots export keep heap bytes ss).slots < u64
      → Accounted
          (release_slots export keep heap bytes ss).slots
          (release_slots export keep heap bytes ss).bytes
  release_slots-Accounted heap bytes ss (counted, bound, unique) fits =
      let r = release_slots_count heap bytes ss (omega arith) bound unique in
      (omega arith, r.1, r.2)

module _ (export : Export) (heap : Heap) (st : ResidentKvStore) (i : Bytes) where
  pub evicted-IsAccounted :
      (r : Released) (z : ℤ) → Accounted r.slots r.bytes → IsAccounted (evicted r st i z).2
  evicted-IsAccounted r z a = elim (Result-cases r.status) [
    | inl (u, e) ↦ rw e (evict_to_budget_lem i z (released st r) a).0
    | inr (x, e) ↦ rw e a
  ]
