-- ===== src/Tests/PlannerTests.antt =====
-- The planner on a small session.
use attemory.Kv.Metadata.{refresh_session_kv_metadata}
use attemory.Planner.Prepare.Failure.{prepare_session_plan_after_failure}
use attemory.Planner.Prepare.Covering.{initialize_session_plan-Covering}
use attemory.Planner.Progress.{Answers}
use attemory.Planner.Restore.{sort_by_id, restore_segment_plan_from_cache_manifest}
use attemory.Planner.Limits.{IsSoundPlan}
use attemory.Planner.Restore.Sound.{restore_segment_plan-Covering, Matches, All₂, Covering}
use attemory.Planner.Prepare.{
  session_plan_ready, restore_or_rebuild, drop_stale_plan, prepare_session_plan,
  initialize_session_plan,
}
use attemory.Tests.Fixtures.{key, broken_core, bare_disk, two, bytes_core, kv_count}
use attemory.Planner.Limits
use attemory.Planner.Progress
use attemory.Planner.Arithmetic
use attemory.Base.Int.{max_ℤ, ◌<ℤ◌, Distinct, wrap, ◌-ℤ◌, ◌+ℤ◌, mem_ℤ, pos}
use attemory.Base.Result.{err, ok, ResultStatus}
use attemory.Planner.{
  initialize_empty_segment_plan, estimate_segment_token_count_with_extra_memory,
  append_token_estimate, refresh_estimate, place_memory, plan_memories, segment_soft_limit,
  rebuild_segment_plan_fast,
}
use attemory.Core.{Core}
use attemory.Base.Text.{bytes_eq, text, is_empty}
use attemory.Base.{◌<◌, ◌≡◌, refl, ◌⊎◌, Bool, true, false, ◌&&◌, [], ◌∷◌, map, arith, length}
use attemory.Session.{collect_segment_memory_texts, Session}
use attemory.Persistent.{CacheManifest, indices, scan_memory, find_memory}
use attemory.Planner.Partition.{planned, facts}
use attemory.Planner.Partition

program : Unit {0}
unfolding rebuild_segment_plan_fast segment_soft_limit plan_memories place_memory refresh_estimate
    append_token_estimate kv_count is_empty collect_segment_memory_texts initialize_session_plan
    drop_stale_plan restore_or_rebuild restore_segment_plan_from_cache_manifest session_plan_ready
    prepare_session_plan text bytes_eq refresh_session_kv_metadata initialize_empty_segment_plan
    estimate_segment_token_count_with_extra_memory find_memory scan_memory mem_ℤ ◌+ℤ◌ ◌-ℤ◌ wrap
program = tt

abbrev planning : ResultStatus × Session
planning = rebuild_segment_plan_fast bytes_core true false (pos 17) (b'k' ∷ []) two

planning_ok : planning.0 ≡ ok tt
unfolding program
planning_ok = refl

planning_segments : length planning.1.segment_plan.segments ≡ 1
unfolding program
planning_segments = refl

rebuild_segment_plan_fast-partition_example :
    (planned planning.1.segment_plan.segments ≡ pos 0 ∷ pos 1 ∷ [])
    × (map facts planning.1.store.memories ≡ map facts two.store.memories)
rebuild_segment_plan_fast-partition_example =
    Partition.rebuild_segment_plan_fast-partition bytes_core true false (pos 17) (b'k' ∷ []) two
      planning_ok

abbrev prepared : ResultStatus × Session
prepared = initialize_session_plan bytes_core bare_disk key two

prepared_ok : prepared.0 ≡ ok tt
unfolding program
prepared_ok = refl

two-Distinct : Distinct (indices two.store.memories)
unfolding program
two-Distinct = (refl, (refl, tt))

initialize_session_plan-Covering_example :
    Covering two.store prepared.1.segment_plan.segments
    × (map facts prepared.1.store.memories ≡ map facts two.store.memories)
initialize_session_plan-Covering_example =
    initialize_session_plan-Covering bytes_core bare_disk key two two-Distinct prepared_ok

rebuild_segment_plan_fast-IsSoundPlan_example :
    IsSoundPlan
      (max_ℤ (segment_soft_limit bytes_core) (pos 17))
      (λ z. true && mem_ℤ z two.store.manual_segment_boundaries)
      planning.1.segment_plan.segments
rebuild_segment_plan_fast-IsSoundPlan_example =
    Limits.rebuild_segment_plan_fast-IsSoundPlan bytes_core true false (pos 17) (b'k' ∷ []) two

abbrev restored : Session × Bool
restored = restore_segment_plan_from_cache_manifest bytes_core bare_disk key two

restore_segment_plan-Covering_example :
    (restored ≡ (two, false))
    ⊎ ((restored.1 ≡ true)
        × (restored.0.store ≡ two.store)
        × Covering two.store restored.0.segment_plan.segments
        × ((two.store.memories ≡ [])
            ⊎ ((manifest : CacheManifest) × (bare_disk.manifest ≡ ok manifest)
                × All₂
                    (Matches two.store bytes_core.context_length)
                    (sort_by_id manifest.segments)
                    restored.0.segment_plan.segments)))
restore_segment_plan-Covering_example = restore_segment_plan-Covering bytes_core bare_disk key two

bytes_core-Answers : Answers bytes_core
bytes_core-Answers = record {
  text_answer = λ t. (pos (length t), refl);
  kv_answer = λ s ts. (pos (kv_count ts), refl);
}

rebuild_segment_plan_fast_succeeds_example : planning.0 ≡ ok tt
unfolding kv_count
rebuild_segment_plan_fast_succeeds_example =
    Progress.rebuild_segment_plan_fast_succeeds bytes_core true false (pos 17) (b'k' ∷ []) two
      bytes_core-Answers (omega arith) (omega arith) (omega arith)
      ((pos 6, refl, omega arith), ((pos 5, refl, omega arith), tt))

abbrev failed : ResultStatus × Session
failed = prepare_session_plan broken_core bare_disk key two

failed_at : failed ≡ (err (text "no model"), failed.1)
unfolding program
failed_at = refl

prepare_session_plan_after_failure_example :
    (length (planned failed.1.segment_plan.segments) < length failed.1.store.memories)
    × (prepare_session_plan bytes_core bare_disk key failed.1 ≡ (ok tt, failed.1))
prepare_session_plan_after_failure_example =
    prepare_session_plan_after_failure broken_core bytes_core bare_disk bare_disk key two failed.1
      (text "no model") failed_at

abbrev huge_core : Core
huge_core = record bytes_core { context_length = pos 25264514 }

segment_soft_limit_overflow_example : segment_soft_limit huge_core ≡ pos 1
segment_soft_limit_overflow_example =
    Arithmetic.segment_soft_limit_overflow huge_core 25264514 refl (omega arith) (omega arith)

append_token_estimate_overflow_example :
    append_token_estimate (pos 10) (pos 0) (pos 2147483646) <ℤ pos 10
append_token_estimate_overflow_example =
    Arithmetic.append_token_estimate_overflow 10 0 2147483646 (omega arith) (omega arith)
      (omega arith)
