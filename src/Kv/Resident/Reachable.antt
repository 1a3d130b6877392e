-- ===== src/Kv/Resident/Reachable.antt =====
-- The states that the operations of the store reach.
use attemory.Kv.Resident.Recount.{evicted-IsAccounted, release_slots-Accounted}
use attemory.Kv.Resident.Evict.{evict_to_budget_lem}
use attemory.Kv.Resident.Stored.{store-IsAccounted}
use attemory.Kv.Resident.Live.{
  keep_only_segment_live, keep_only_session_live, release_all_live_contexts, release_slots,
}
use attemory.Kv.Resident.Accounting.{
  clear_session-IsAccounted, remove-IsAccounted, find-IsAccounted, IsAccounted,
}
use attemory.Kv.Resident.Slots.{total}
use attemory.Kv.Resident.{
  count_session, evict_to_budget, clear_session, remove, u64, store, clear, find, empty,
  set_budget_bytes, ResidentKvStore, Slot,
}
use attemory.Base.{ℕ, ◌<◌, refl, inl, inr, Bool, false, ◌||◌, not, arith, ◌==◌, Bool-cases}
use attemory.Base.Text.{Bytes, bytes_eq}
use attemory.Base.Int.{negsuc, eqb_ℤ, ℤ, pos}
use attemory.Kv.Handle.{Heap, Handle, Export}

-- The slots after a release: their snapshots are in memory, so their sizes sum below 2^64.
abbrev pub Fits : Export → Heap → (Slot → Bool) → ResidentKvStore → Type 0
Fits export heap keep st =
    total (release_slots export keep heap st.resident_bytes st.resident_segments).slots < u64

-- One call of an operation that changes the store.
pub data Step (heap : Heap) : ResidentKvStore → ResidentKvStore → Type 0 where
  by_find : (st : ResidentKvStore) (i : Bytes) (z : ℤ) → Step heap st (find st i z).0
  by_store :
      (st : ResidentKvStore) (i : Bytes) (z : ℤ) (handle : Handle)
      → Step heap st (store heap st i z handle).1
  by_remove : (st : ResidentKvStore) (i : Bytes) (z : ℤ) → Step heap st (remove st i z)
  by_clear_session : (st : ResidentKvStore) (i : Bytes) → Step heap st (clear_session st i)
  by_clear : (st : ResidentKvStore) → Step heap st (clear st)
  by_evict_to_budget :
      (st : ResidentKvStore) (i : Bytes) (z : ℤ) → Step heap st (evict_to_budget st i z)
  by_release_all :
      (export : Export) (st : ResidentKvStore)
      → Fits export heap (λ s. false) st
      → Step heap st (release_all_live_contexts export heap st).2
  by_keep_only_session_live :
      (export : Export) (st : ResidentKvStore) (i : Bytes)
      → Fits export heap (λ s. bytes_eq s.session_id i) st
      → Step heap st (keep_only_session_live export heap st i).2
  by_keep_only_segment_live :
      (export : Export) (st : ResidentKvStore) (i : Bytes) (z : ℤ)
      → Fits export heap (λ s. not (bytes_eq s.session_id i) || eqb_ℤ s.segment_id z) st
      → Step heap st (keep_only_segment_live export heap st i z).2
  by_set_budget_bytes : (st : ResidentKvStore) (b : ℕ) → Step heap st (set_budget_bytes st b)

-- What calls reach from the empty store, while other code changes the states behind the handles.
pub data Reachable : ResidentKvStore → Type 0 where
  start : Reachable empty
  after :
      (heap : Heap) (before : ResidentKvStore) (st : ResidentKvStore)
      → Reachable before
      → Step heap before st
      → Reachable st

Step-IsAccounted :
    (heap : Heap) (before : ResidentKvStore) (st : ResidentKvStore)
    → Step heap before st
    → IsAccounted before
    → IsAccounted st
unfolding set_budget_bytes clear release_all_live_contexts keep_only_session_live
    keep_only_segment_live
Step-IsAccounted heap before st (by_find x i z) a = find-IsAccounted i z x a
Step-IsAccounted heap before st (by_store x i z handle) a = store-IsAccounted heap i z x handle a
Step-IsAccounted heap before st (by_remove x i z) a = remove-IsAccounted i z x a
Step-IsAccounted heap before st (by_clear_session x i) a = clear_session-IsAccounted i (pos 0) x a
Step-IsAccounted heap before st (by_clear x) a = (refl, omega arith, tt)
Step-IsAccounted heap before st (by_evict_to_budget x i z) a = (evict_to_budget_lem i z x a).0
Step-IsAccounted heap before st (by_release_all export x fits) a =
    release_slots-Accounted export (λ s. false) heap x.resident_bytes x.resident_segments a fits
Step-IsAccounted heap before st (by_keep_only_session_live export x i fits) a =
    let keep = λ (s : Slot). bytes_eq s.session_id i in
    evicted-IsAccounted export heap x i
      (release_slots export keep heap x.resident_bytes x.resident_segments) (negsuc 0)
      (release_slots-Accounted export keep heap x.resident_bytes x.resident_segments a fits)
Step-IsAccounted heap before st (by_keep_only_segment_live export x i z fits) a =
    let keep = λ (s : Slot). not (bytes_eq s.session_id i) || eqb_ℤ s.segment_id z in
    elim (Bool-cases (count_session x.resident_segments i == 0)) [
      | inl e ↦ rw e a
      | inr e ↦ rw e (
          evicted-IsAccounted export heap x i
            (release_slots export keep heap x.resident_bytes x.resident_segments) z
            (release_slots-Accounted export keep heap x.resident_bytes x.resident_segments a fits))
    ]
Step-IsAccounted heap before st (by_set_budget_bytes x b) a = a

-- In every store that calls reach from the empty one, where the snapshots that a release of live
-- contexts leaves sum below 2^64, the counter of resident bytes is the sum of the sizes of the
-- slots, that sum is below 2^64, and no segment of a session has two slots.
pub Reachable-IsAccounted : (st : ResidentKvStore) → Reachable st → IsAccounted st
unfolding empty
Reachable-IsAccounted st start = (refl, omega arith, tt)
Reachable-IsAccounted st (after heap before now r step) =
    Step-IsAccounted heap before now step (Reachable-IsAccounted before r)
