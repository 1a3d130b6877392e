-- ===== src/Tests/KvTests.antt =====
-- The KV manager on the store with one resident state.
use attemory.Kv.Status.Counts.{has_kv}
use attemory.Tests.AppendTests.{planned_two}
use attemory.Tests.Fixtures.{key, bare_disk}
use attemory.Base.Result.{ok}
use attemory.Planner.{segment_soft_limit, initialize_empty_segment_plan, rebuild_segment_plan_fast}
use attemory.Kv.Resident.Reachable.{Reachable-IsAccounted}
use attemory.Base.Int.{pos}
use attemory.Kv.Handle.{
  write, ensure_segment_kv_snapshot, segment_kv_has_live_context, release_live_context_to_snapshot,
  resident_snapshot_ram_bytes,
}
use attemory.Kv.Status.{status, build_session_status, SessionStatus}
use attemory.Planner.Prepare.{session_plan_ready}
use attemory.Kv.Manager.Staged.{IsStaged}
use attemory.Kv.Resident.Slots.{UniqueKeys}
use attemory.Kv.Manager.Kept.{IsQuiet}
use attemory.Tests.ResidentTests.{first-Reachable, heap, first, export}
use attemory.Kv.Manager.{ContextKvState}
use attemory.Base.Text.{is_empty, bytes_eq}
use attemory.Base.{◌≤◌, ◌≡◌, refl, ◌↔◌, true, none, some, [], ◌∷◌, length, All}
use attemory.Kv.Manager.Kept
use attemory.Kv.Manager.Staged
use attemory.Kv.Status.Counts
use attemory.Kv.Manager
use attemory.Kv.Resident
use attemory.Kv.Resident.Live

resident : Unit {0}
unfolding Resident.store Resident.store_entry Resident.put_slot Resident.find_slot Resident.peek
    Resident.evict_to_budget Resident.evict_rounds Resident.next_tick Resident.next_clock
    Resident.set_budget_bytes Resident.empty bytes_eq resident_snapshot_ram_bytes
    Resident.oldest_slot Live.release_slots Live.keep_only_segment_live
    release_live_context_to_snapshot segment_kv_has_live_context ensure_segment_kv_snapshot write
    Resident.count_session Manager.keep_only_segment_live Manager.release_prefixes
    Manager.keep_active Manager.clear_active
resident = tt

abbrev pub one_resident : ContextKvState
one_resident = record {
  heap = heap;
  resident = first;
  active_segment = record { session_id = b's' ∷ []; segment_id = pos 0; handle = some 1 };
  incremental_prefixes = [];
}

kept_ok : (Manager.keep_only_segment_live export one_resident (b's' ∷ []) (pos 1)).0 ≡ ok tt
unfolding resident
kept_ok = refl

keep_only_segment_live-IsQuiet_example :
    IsQuiet
      (Manager.keep_only_segment_live export one_resident (b's' ∷ []) (pos 1)).1
      (b's' ∷ [])
      (pos 1)
keep_only_segment_live-IsQuiet_example =
    Kept.keep_only_segment_live-IsQuiet export one_resident (b's' ∷ []) (pos 1) kept_ok

unique : UniqueKeys first.resident_segments
unique = (Reachable-IsAccounted first first-Reachable).2

peeked : Resident.peek first (b's' ∷ []) (pos 0) ≡ some 1
unfolding resident
peeked = refl

stage_incremental_prefix-IsStaged_example :
    IsStaged
      (Manager.stage_incremental_prefix one_resident (b's' ∷ []) (pos 0))
      (b's' ∷ [])
      (pos 0)
      1
stage_incremental_prefix-IsStaged_example =
    Staged.stage_incremental_prefix-IsStaged one_resident (b's' ∷ []) (pos 0) 1 unique peeked

two_ready : session_plan_ready key planned_two ≡ true
unfolding session_plan_ready rebuild_segment_plan_fast initialize_empty_segment_plan bytes_eq
    is_empty segment_soft_limit
two_ready = refl

abbrev report : SessionStatus
report = build_session_status bare_disk key one_resident planned_two

build_session_status_lem_example :
    (report.resident_segments ≤ report.indexed_segments)
    × (report.saved_segments ≤ report.indexed_segments)
    × (report.indexed_segments ≤ length planned_two.segment_plan.segments)
    × ((report.indexed ≡ true) ↔ (
        (1 ≤ length planned_two.segment_plan.segments)
        × All
            (λ s. has_kv (status bare_disk one_resident planned_two s.segment_id none) ≡ true)
            planned_two.segment_plan.segments))
    × (report.disk_cached ≡ true → report.indexed ≡ true)
build_session_status_lem_example =
    Counts.build_session_status_lem bare_disk key one_resident planned_two two_ready
