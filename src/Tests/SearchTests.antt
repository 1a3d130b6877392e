-- ===== src/Tests/SearchTests.antt =====
-- Searches of a small session.
use attemory.Planner.Partition.{planned}
use attemory.Search.Oneshot.{build_oneshot_session-plan, build_oneshot_session}
use attemory.Persistent.{scan_memory, find_memory}
use attemory.Search.Order.{KnownResults}
use attemory.Planner.{
  estimate_segment_token_count_with_extra_memory, append_token_estimate, refresh_estimate,
  place_memory, plan_memories, segment_soft_limit, rebuild_segment_plan_fast_for_oneshot,
  rebuild_segment_plan_fast,
}
use attemory.Search.Merge.{IsResultOf, results}
use attemory.Base.Result.{ResultStatus, Result, ok}
use attemory.Base.Text.{is_empty, Bytes}
use attemory.Tests.Fixtures.{kv_count, bytes_core, two}
use attemory.Search.Limit.{take, of_segment}
use attemory.Base.Int.{wrap, ◌-ℤ◌, ◌+ℤ◌, mem_ℤ, ℤ, pos, Distinct}
use attemory.Search.{
  at_index, segment_memory_ref, memory_ref_exists, merge_one, merge_segment_ranked_results,
  run_segments, sorted_segments_by_id, apply_search_result_limits, SearchConfig, run_ephemeral,
  AttentionMemoryRef,
}
use attemory.Session.{MemoryInput, collect_segment_memory_texts, empty_plan, Session, Segment}
use attemory.Base.{ℕ, ◌≡◌, refl, true, false, List, [], ◌∷◌, ◌++◌, arith, All}
use attemory.Search.Order
use attemory.Search.Merge
use attemory.Search.Limit

abbrev segment : Segment
segment = record {
  segment_id = pos 0;
  memory_indices = pos 0 ∷ pos 1 ∷ [];
  estimated_tokens = pos 9;
  exact_tokens = pos 9;
  manual_start = false;
  auto_split_start = false;
}

abbrev planned_two : Session
planned_two = record two { segment_plan = record empty_plan { segments = segment ∷ [] } }

-- The core ranks the second memory first, a position out of range, and one twice.
abbrev rank : Segment → List Bytes → Result (List ℤ)
rank s texts = ok (pos 1 ∷ pos 7 ∷ pos 0 ∷ pos 1 ∷ [])

abbrev result : ℕ → ℕ → AttentionMemoryRef
result n s = record { memory_index = pos n; segment_id = pos s }

abbrev found : List AttentionMemoryRef
found = result 1 0 ∷ result 0 0 ∷ []

searching : Unit {0}
unfolding run_ephemeral run_segments merge_segment_ranked_results merge_one memory_ref_exists
    segment_memory_ref at_index find_memory scan_memory sorted_segments_by_id
    collect_segment_memory_texts empty_plan mem_ℤ
searching = tt

run_found : run_ephemeral rank planned_two ≡ ok found
unfolding searching
run_found = refl

run_ephemeral-Distinct_example : Distinct (results found) × KnownResults two.store found
run_ephemeral-Distinct_example = Order.run_ephemeral-Distinct rank planned_two found run_found

merge_segment_ranked_results-append_example :
    (new : List AttentionMemoryRef) × (merge_segment_ranked_results two.store segment
        (pos 1 ∷ [])
        (result 0 0 ∷ [])
      ≡ (result 0 0 ∷ []) ++ new)
    × All (IsResultOf two.store segment) new
merge_segment_ranked_results-append_example =
    Merge.merge_segment_ranked_results-append two.store segment (pos 1 ∷ []) (result 0 0 ∷ [])

one-Distinct : Distinct (results (result 0 0 ∷ []))
unfolding searching
one-Distinct = (refl, tt)

abbrev one_each : SearchConfig
one_each = record { candidate_top_k = pos 25; top_k = pos 1 }

abbrev no_limit : SearchConfig
no_limit = record { candidate_top_k = pos 25; top_k = pos 0 }

apply_search_result_limits-take_example :
    of_segment (pos 0) (apply_search_result_limits found one_each)
    ≡ take 1 (of_segment (pos 0) found)
apply_search_result_limits-take_example =
    Limit.apply_search_result_limits-take found one_each 1 refl (omega arith) (pos 0)

abbrev replanned : Session
replanned = (rebuild_segment_plan_fast bytes_core true false (pos 17) (b'k' ∷ []) two).1

abbrev input : Bytes → MemoryInput
input t = record { has_id = true; id = b'i' ∷ []; text = t }

abbrev inputs : List MemoryInput
inputs = input (1 ∷ 2 ∷ []) ∷ input (3 ∷ []) ∷ []

abbrev oneshot : ResultStatus × Session
oneshot =
    rebuild_segment_plan_fast_for_oneshot bytes_core (b'k' ∷ []) (build_oneshot_session [] inputs)

oneshot_program : Unit {0}
unfolding rebuild_segment_plan_fast_for_oneshot rebuild_segment_plan_fast build_oneshot_session
    segment_soft_limit plan_memories place_memory refresh_estimate append_token_estimate kv_count
    is_empty collect_segment_memory_texts estimate_segment_token_count_with_extra_memory find_memory
    scan_memory mem_ℤ ◌+ℤ◌ ◌-ℤ◌ wrap
oneshot_program = tt

oneshot_ok : oneshot.0 ≡ ok tt
unfolding oneshot_program
oneshot_ok = refl

build_oneshot_session-plan_example : planned oneshot.1.segment_plan.segments ≡ pos 0 ∷ pos 1 ∷ []
build_oneshot_session-plan_example =
    build_oneshot_session-plan bytes_core (b'k' ∷ []) [] inputs oneshot_ok
