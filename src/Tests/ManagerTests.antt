-- ===== src/Tests/ManagerTests.antt =====
-- Commands on small sessions.
use attemory.SessionManager.Errors.{Refusal, IsInferred}
use attemory.Kv.Handle.{
  release_segment_kv_context, release_live_context_to_snapshot, resident_snapshot_ram_bytes,
}
use attemory.Planner.Prepare.{session_plan_ready, prepare_session_plan}
use attemory.Persistent.Paths.{
  drop_back, drop_front, clean, sanitize_storage_component, safe_storage_component,
  layout_session_id,
}
use attemory.SessionManager.Quiet.{IsOnlyLive}
use attemory.Session.{collect_segment_memory_texts, Session}
use attemory.Base.Result.{ok}
use attemory.SessionManager.Refinement.Whole.{on_disk}
use attemory.Tests.KvTests.{one_resident}
use attemory.Tests.ResidentTests.{export}
use attemory.SessionManager.Abstract.{view, facts_loaded}
use attemory.Planner.{
  estimate_segment_token_count_with_extra_memory, append_token_estimate, refresh_estimate,
  place_memory, plan_memories, segment_soft_limit, initialize_empty_segment_plan,
  rebuild_segment_plan_fast,
}
use attemory.Base.Int.{wrap, ◌-ℤ◌, ◌+ℤ◌, mem_ℤ}
use attemory.Tests.AppendTests.{short, planned_two}
use attemory.Tests.Fixtures.{kv_count, two, bare_disk, key, bytes_core}
use attemory.Tests.PersistentTests.{
  apart_temp, apart, two-IsStorable, blank, good_io, memories, meta,
}
use attemory.Command.{success_result}
use attemory.SessionManager.Consistent.{IsKeyed-IsConsistent, IsConsistent}
use attemory.SessionManager.Invariant.{HasRoom}
use attemory.Persistent.{id_char, scan_memory, find_memory, is_valid_session_id}
use attemory.SessionManager.Refinement.{Refined}
use attemory.Persistent.Validity.{validate_loaded_store_iff, IsValidStore, validate_loaded_store}
use attemory.SessionManager.{
  persist_session_store, persist, put_session, passes, require_session, command_scope,
  require_planned_session, find_session, ContextState, Environment,
}
use attemory.Persistent.Replace.{Files}
use attemory.Base.Text.{bytes_eq_iff, is_empty, text, bytes_eq, Bytes}
use attemory.Base.{◌≡◌, refl, subst, inl, inr, true, false, none, some, [], ◌∷◌, arith, Bool-cases}
use attemory.SessionManager.Steps.{run, adding_memory, sealing, restoring}
use attemory.Kv.Manager.{evict_active_for_command, add_memory}
use attemory.Kv.Manager
use attemory.Kv.Resident
use attemory.Kv.Resident.Live
use attemory.Persistent.Replace
use attemory.SessionManager.Commands
use attemory.SessionManager.Refinement.Whole
use attemory.SessionManager.Consistent
use attemory.SessionManager.Sealed
use attemory.SessionManager.Alias
use attemory.SessionManager.Errors
use attemory.SessionManager.Quiet
use attemory.Persistent.Replace.Saved

abbrev own : Bytes
own = b's' ∷ []

-- The files of the session with two memories.
abbrev files : Files
files = (Replace.save_session own meta memories (ok tt) good_io good_io blank two.store).1

abbrev env : Environment
env = record {
  core = bytes_core;
  export = export;
  model_key = key;
  disk = bare_disk;
  layout_id = own;
  meta_path = meta;
  memories_path = memories;
  directory_exists = true;
  directory = ok tt;
  memories_io = good_io;
  meta_io = good_io;
  remove_session = λ f. (ok tt, f);
  delete_session_kv_cache = λ f. f;
}

abbrev st : ContextState
st = record { sessions = (own, planned_two) ∷ []; kv = one_resident; files = files }

checks : Unit {0}
unfolding validate_loaded_store is_valid_session_id mem_ℤ bytes_eq text is_empty
    Replace.save_session Replace.replace_file Replace.put_file Replace.check_save find_session
    rebuild_segment_plan_fast segment_soft_limit plan_memories place_memory refresh_estimate
    append_token_estimate kv_count collect_segment_memory_texts initialize_empty_segment_plan
    estimate_segment_token_count_with_extra_memory find_memory scan_memory ◌+ℤ◌ ◌-ℤ◌ wrap
checks = tt

two_valid : IsValidStore planned_two.store
unfolding checks
two_valid = (validate_loaded_store_iff planned_two.store).0 refl

st-IsConsistent : IsConsistent st
unfolding find_session rebuild_segment_plan_fast initialize_empty_segment_plan checks
st-IsConsistent i session f = elim (Bool-cases (bytes_eq own i)) [
  | inr e ↦ absurd (ground arith)
  | inl e ↦
      let same : planned_two ≡ session = ground arith in
      subst (λ (s : Session). (s.store.session_id ≡ i) × IsValidStore s.store) same
        ((bytes_eq_iff own i).0 e, two_valid)
]

run-Refined_example :
    Refined
      (facts_loaded (on_disk env st))
      own
      (adding_memory short)
      st
      (run env own (adding_memory short) st)
run-Refined_example =
    Whole.run-Refined env own (adding_memory short) st (IsKeyed-IsConsistent st st-IsConsistent)

own_valid : is_valid_session_id own ≡ true
unfolding checks
own_valid = refl

has_room : HasRoom (view st own)
unfolding checks
has_room = omega arith

run-IsConsistent_example : IsConsistent (run env own (adding_memory short) st).1
run-IsConsistent_example =
    Consistent.run-IsConsistent env own (adding_memory short) st own_valid refl has_room
      st-IsConsistent

commands-IsInferred_example :
    IsInferred (Commands.create_session env own true st).0
    × IsInferred (Commands.restore_session env own st).0
    × Refusal IsInferred (require_session env add_memory own st).0
commands-IsInferred_example = Errors.commands-IsInferred env own true add_memory st

-- The session is sealed, and saved.
commands : Unit {0}
unfolding checks run Commands.next_segment Commands.seal_segment require_planned_session
    require_session command_scope prepare_session_plan session_plan_ready put_session persist
    persist_session_store success_result evict_active_for_command Manager.keep_only_session_live
    Live.keep_only_session_live Live.release_slots Resident.store Resident.store_entry
    Resident.put_slot Resident.evict_to_budget Resident.evict_rounds Resident.set_budget_bytes
    Resident.empty Resident.find_slot Resident.next_tick Resident.next_clock
    resident_snapshot_ram_bytes
commands = tt

sealed_ok : (run env own sealing st).0.is_ok ≡ true
unfolding commands
sealed_ok = refl

next_segment_twice_example : (run env own sealing (run env own sealing st).1).0.is_ok ≡ false
next_segment_twice_example = Sealed.next_segment_twice env env own st sealed_ok

-- The scope of a command on another session, whose slot gives up its live context.
abbrev other : Bytes
other = b't' ∷ []

scope_ok : (command_scope env add_memory other st).0 ≡ passes tt
unfolding commands Manager.clear_active release_live_context_to_snapshot release_segment_kv_context
scope_ok = refl

command_scope-IsOnlyLive_example : IsOnlyLive other (command_scope env add_memory other st).1.kv
command_scope-IsOnlyLive_example =
    Quiet.command_scope-IsOnlyLive env add_memory other st refl scope_ok

-- The directory of the session is found under another id.
names : Unit {0}
unfolding checks layout_session_id safe_storage_component sanitize_storage_component clean
    drop_front drop_back id_char
names = tt

underscored_valid : is_valid_session_id (b'_' ∷ own) ≡ true
unfolding names
underscored_valid = refl

-- What stands outside a session's directory; only one directory is there.
abbrev outside : Bytes → Environment
outside name = record env { layout_id = name; directory_exists = bytes_eq name own }

-- After a start nothing is in memory.
abbrev started : ContextState
started = record { sessions = []; kv = one_resident; files = files }

absent : (i : Bytes) → find_session started.sessions i ≡ none
unfolding find_session
absent i = refl

saved_ok :
    (Replace.save_session own meta memories (ok tt) good_io good_io blank two.store).0 ≡ ok tt
unfolding checks
saved_ok = refl

-- The files hold the session that is restored.
read_back : on_disk (outside own) started ≡ ok two.store
read_back =
    Saved.save_session-load own meta memories (ok tt) good_io good_io blank two.store two-IsStorable
      apart apart_temp saved_ok

restore_session-aliases_example :
    let plain = run (outside (layout_session_id own)) own restoring started in
    let underscored =
      run (outside (layout_session_id (b'_' ∷ own))) (b'_' ∷ own) restoring started in
    (underscored.0.is_ok ≡ plain.0.is_ok)
    × (find_session underscored.1.sessions (b'_' ∷ own) ≡ find_session plain.1.sessions own)
    × ((s : Session)
        → find_session underscored.1.sessions (b'_' ∷ own) ≡ some s
        → s.store.session_id ≡ layout_session_id own)
restore_session-aliases_example =
    Alias.restore_session-aliases outside started own (λ name. refl) own_valid underscored_valid
      (absent own) (absent (b'_' ∷ own))
