-- ===== src/Search/Oneshot.antt =====
-- The session of a one-shot search: `build_oneshot_session` of
-- src/context/search/search_service.cpp, and its plan.
use attemory.Planner.Partition.{rebuild_segment_plan_fast-partition, planned}
use attemory.Persistent.Lookup.{find_memory-scan}
use attemory.Base.Result.{ok}
use attemory.Core.{Core}
use attemory.Planner.{rebuild_segment_plan_fast_for_oneshot}
use attemory.Base.Int.{eqb_ℤ, eqb_ℤ_iff, pos, Distinct, mem_ℤ, ℤ}
use attemory.Session.{MemoryInput, Session, new_session}
use attemory.Persistent.{find_memory, empty_store, scan_memory, indices, MemoryRecord}
use attemory.Base.Text.{text, Bytes}
use attemory.Base.{
  get_elem?, ℕ, zero, suc, ◌+◌, ◌<◌, ◌≡◌, refl, sym, ap, subst, ◌∙◌, true, false, some, List, [],
  ◌∷◌, arith, length,
}

unfoldable pub oneshot_records : ℕ → List MemoryInput → List MemoryRecord
oneshot_records i [] = []
oneshot_records i (m ∷ ms) =
    record { memory_idx = pos i; has_id = false; id = []; text = m.text; estimated_tokens = pos 0 }
    ∷ oneshot_records (suc i) ms

unfoldable pub build_oneshot_session : Bytes → List MemoryInput → Session
unfolding new_session empty_store oneshot_records
build_oneshot_session system memories = record new_session {
  store = record empty_store {
    session_id = text "__oneshot__";
    system_text = system;
    system_locked = true;
    next_memory_idx = pos (length memories);
    memories = oneshot_records 0 memories;
  };
}

-- The positions from `i` on.
abbrev pub positions : ℕ → List MemoryInput → List ℤ
positions i [] = []
positions i (m ∷ ms) = pos i ∷ positions (suc i) ms

indices-oneshot_records :
    (i : ℕ) (ms : List MemoryInput) → indices (oneshot_records i ms) ≡ positions i ms
unfolding oneshot_records
indices-oneshot_records i [] = refl
indices-oneshot_records i (m ∷ ms) = ap (λ r. pos i ∷ r) (indices-oneshot_records (suc i) ms)

later-absent : (z i : ℕ) (ms : List MemoryInput) → z < i → mem_ℤ (pos z) (positions i ms) ≡ false
unfolding mem_ℤ
later-absent z i [] h = refl
later-absent z i (m ∷ ms) h =
    ground (arith, later-absent z (suc i) ms, eqb_ℤ_iff (pos i) (pos z), eqb_ℤ_iff (pos z) (pos i))

positions-Distinct : (i : ℕ) (ms : List MemoryInput) → Distinct (positions i ms)
positions-Distinct i [] = tt
positions-Distinct i (m ∷ ms) =
    (later-absent i (suc i) ms (omega arith), positions-Distinct (suc i) ms)

scan-oneshot_records :
    (n i k : ℕ) (ms : List MemoryInput) (m : MemoryInput)
    → n ≡ i + k
    → get_elem? ms k ≡ some m
    → (r : MemoryRecord) × (scan_memory (oneshot_records i ms) (pos n) ≡ some r) × (r.text ≡ m.text)
unfolding oneshot_records scan_memory
scan-oneshot_records n i k [] m e h = absurd (ground arith)
scan-oneshot_records n i zero (x ∷ ms) m e h =
    let same : eqb_ℤ (pos i) (pos n) ≡ true = ground (arith, eqb_ℤ_iff (pos i) (pos n)) in
    let it : x ≡ m = ground arith in
    (
      record {
        memory_idx = pos i;
        has_id = false;
        id = [];
        text = x.text;
        estimated_tokens = pos 0;
      },
      rw same refl,
      ap (λ y. y.text) it,
    )
scan-oneshot_records n i (suc k) (x ∷ ms) m e h =
    let other : eqb_ℤ (pos i) (pos n) ≡ false = ground (arith, eqb_ℤ_iff (pos i) (pos n)) in
    let r = scan-oneshot_records n (suc i) k ms m (omega arith) h in (r.0, rw other r.1, r.2)

-- In the session of a one-shot search the memory with index `k` is the `k`-th input.
pub find_memory-build_oneshot_session :
    (system : Bytes) (ms : List MemoryInput) (k : ℕ) (m : MemoryInput)
    → get_elem? ms k ≡ some m
    → (r : MemoryRecord) × (find_memory (build_oneshot_session system ms).store (pos k) ≡ some r)
      × (r.text ≡ m.text)
unfolding build_oneshot_session
find_memory-build_oneshot_session system ms k m h =
    let r = scan-oneshot_records k 0 k ms m (omega arith) h in
    let d = subst Distinct (sym (indices-oneshot_records 0 ms)) (positions-Distinct 0 ms) in
    (r.0, find_memory-scan (build_oneshot_session system ms).store (pos k) d ∙ r.1, r.2)

-- When planning a one-shot search succeeds, the segments hold the positions of all inputs, each
-- once and in their order.
pub build_oneshot_session-plan :
    (core : Core) (model_key : Bytes) (system : Bytes) (ms : List MemoryInput)
    → (rebuild_segment_plan_fast_for_oneshot core model_key (build_oneshot_session system ms)).0
      ≡ ok tt
    → planned
        (rebuild_segment_plan_fast_for_oneshot core model_key
          (build_oneshot_session system ms)).1.segment_plan.segments
      ≡ positions 0 ms
unfolding rebuild_segment_plan_fast_for_oneshot build_oneshot_session
build_oneshot_session-plan core model_key system ms h =
    (rebuild_segment_plan_fast-partition core false true core.context_length model_key
      (build_oneshot_session system ms) h).0
    ∙ indices-oneshot_records 0 ms
