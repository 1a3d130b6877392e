-- ===== src/Tests/AppendTests.antt =====
-- Appending to small sessions.
use attemory.Kv.Metadata.{mark_segment_kv_missing}
use attemory.Base.Text.{bytes_eq, text, is_empty}
use attemory.Base.Result.{ok}
use attemory.Base.Int.{wrap, ◌-ℤ◌, ◌+ℤ◌, mem_ℤ, pos}
use attemory.Persistent.{scan_memory, find_memory, is_valid_session_id}
use attemory.Tests.Fixtures.{kv_count, bare_disk, key, two, bytes_core}
use attemory.SessionAppend.Limits.{IsPlanned}
use attemory.Persistent.Validity.{validate_loaded_store_iff, IsValidStore, validate_loaded_store}
use attemory.SessionAppend.Replan.{Replans}
use attemory.Session.{MemoryInput, collect_segment_memory_texts, Segment, Session}
use attemory.SessionAppend.{
  new_record, append_record, write_appended, write_choice, choose_in_last, choose_segment,
  starts_manual_segment, append_memory_and_update_plan,
}
use attemory.Planner.{
  estimate_segment_token_count_with_extra_memory, initialize_empty_segment_plan,
  append_token_estimate, refresh_estimate, place_memory, plan_memories, segment_soft_limit,
  rebuild_segment_plan_fast,
}
use attemory.Base.{◌≡◌, refl, true, false, [], ◌∷◌, ◌++◌, arith, length}
use attemory.SessionAppend.Limits
use attemory.SessionAppend.Replan

program : Unit {0}
unfolding rebuild_segment_plan_fast segment_soft_limit plan_memories place_memory refresh_estimate
    append_token_estimate kv_count is_empty collect_segment_memory_texts text bytes_eq
    initialize_empty_segment_plan estimate_segment_token_count_with_extra_memory find_memory
    scan_memory mem_ℤ ◌+ℤ◌ ◌-ℤ◌ wrap append_memory_and_update_plan choose_segment choose_in_last
    write_choice write_appended mark_segment_kv_missing append_record new_record
program = tt

abbrev pub short : MemoryInput
short = record { has_id = false; id = []; text = 6 ∷ [] }

-- The session with two memories, planned.
abbrev pub planned_two : Session
planned_two = (rebuild_segment_plan_fast bytes_core true false (pos 17) key.value two).1

appended_ok :
    (append_memory_and_update_plan bytes_core bare_disk key planned_two short).status ≡ ok tt
unfolding program
appended_ok = refl

appended_tokens :
    (append_memory_and_update_plan bytes_core bare_disk key planned_two short).token_count ≡ pos 11
unfolding program
appended_tokens = refl

replans : Replans bytes_core key.value planned_two
unfolding program
replans = (refl, refl)

no_text : bytes_core.kv_tokens planned_two.store.system_text [] ≡ ok (pos 2)
unfolding program
no_text = refl

planned_two-IsValidStore : IsValidStore planned_two.store
unfolding program validate_loaded_store is_valid_session_id
planned_two-IsValidStore = (validate_loaded_store_iff planned_two.store).0 refl

append_memory_and_update_plan-Replans_example :
    Replans bytes_core key.value
      (append_memory_and_update_plan bytes_core bare_disk key planned_two short).session
append_memory_and_update_plan-Replans_example =
    Replan.append_memory_and_update_plan-Replans bytes_core bare_disk key key.value planned_two
      short (pos 2) (pos 1) no_text refl planned_two-IsValidStore replans appended_ok

-- A session without memories.
abbrev bare : Session
bare = record two { store = record two.store { memories = []; next_memory_idx = pos 0 } }

bare-IsPlanned : IsPlanned bytes_core bare
bare-IsPlanned = record {
  sound = record { bounded = omega arith; numbered = tt; each = tt };
  whole = refl;
}

append_memory_and_update_plan-IsPlanned_example :
    IsPlanned bytes_core (append_memory_and_update_plan bytes_core bare_disk key bare short).session
append_memory_and_update_plan-IsPlanned_example =
    Limits.append_memory_and_update_plan-IsPlanned bytes_core bare_disk key bare short
      bare-IsPlanned

-- The same two memories, and a boundary behind them.
abbrev sealed_two : Session
sealed_two = record planned_two {
  store = record planned_two.store { manual_segment_boundaries = pos 2 ∷ [] };
}

sealed_manual : starts_manual_segment sealed_two.store ≡ true
unfolding program
sealed_manual = refl

sealed_ok : (append_memory_and_update_plan bytes_core bare_disk key sealed_two short).status ≡ ok tt
unfolding program
sealed_ok = refl

append_memory_and_update_plan-manual_example :
    (s : Segment) × ((append_memory_and_update_plan bytes_core bare_disk key sealed_two
        short).session.segment_plan.segments
      ≡ sealed_two.segment_plan.segments ++ s ∷ [])
    × (s.memory_indices ≡ pos 2 ∷ [])
    × (s.segment_id ≡ pos (length sealed_two.segment_plan.segments))
unfolding program
append_memory_and_update_plan-manual_example =
    Limits.append_memory_and_update_plan-manual bytes_core bare_disk key sealed_two short
      sealed_manual sealed_ok
