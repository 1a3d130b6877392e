-- ===== src/SessionManager/Commands.antt =====
-- The commands of src/context/session/session_manager.cpp that create, change and delete sessions.
-- Saving and searching segments are commands of other files.
use attemory.Planner.Prepare.{initialize_session_plan}
use attemory.Kv.Status.{summarize_session}
use attemory.SessionAppend.{starts_manual_segment, append_memory_and_update_plan, Appended}
use attemory.Base.Result.{on_result, err, ok, Result}
use attemory.Base.Text.{text, is_empty, Bytes}
use attemory.Base.Int.{pos, wrap, negsuc, eqb_ℤ, ℤ}
use attemory.SessionManager.{
  erase_session, find_session, write_session, on_checked, persist, require_planned_session,
  require_session, ContextState, Environment,
}
use attemory.Persistent.{
  empty_store, SessionStore, is_valid_session_id, missing, disk_only, resident, KvCacheEntry,
}
use attemory.Session.{MemoryInput, new_session, Segment, empty_plan, Session}
use attemory.Kv.Metadata.{kv_cache_state_exists, Disk}
use attemory.Base.{
  last?, Bool, true, false, ◌&&◌, ◌||◌, not, Option, none, some, [], ◌∷◌, ◌++◌, map, ◌==◌,
  if◌then◌else◌, length,
}
use attemory.Command.{
  session_already_exists, internal_error, detail, invalid_request, invalid_session_id, make_error,
  session_not_found, error_result, token_usage_result, empty_result, make_error_info,
  success_result, ErrorInfo, CommandResult, restore_summary, no_payload,
}
use attemory.Kv.Manager.{
  ContextKvState, clear_resident_session, evict_session, stage_incremental_prefix,
}
use attemory.Kv.Manager
use attemory.Persistent.Replace
use attemory.Persistent.SessionFile

unfoldable pub reset_session_derived_state : ContextKvState → Session → ContextKvState × Session
reset_session_derived_state kv session = (
  clear_resident_session (evict_session kv session.store.session_id) session.store.session_id,
  record session { segment_plan = empty_plan; segment_kv_metadata = [] },
)

unfoldable pub evict_session_runtime_state : ContextKvState → Session → ContextKvState
evict_session_runtime_state kv session =
    clear_resident_session (evict_session kv session.store.session_id) session.store.session_id

unfoldable pub cleared_entry : Disk → KvCacheEntry → KvCacheEntry
cleared_entry disk cache =
    let has_disk_cache = kv_cache_state_exists disk cache in
    elim cache.state [
      | resident ↦ record cache { state = if has_disk_cache then disk_only else missing }
      | other ↦ cache
    ]

unfoldable pub mark_resident_segment_kv_metadata_cleared : Disk → Session → Session
unfolding cleared_entry
mark_resident_segment_kv_metadata_cleared disk session = record session {
  segment_kv_metadata = map (λ e. (e.0, cleared_entry disk e.1)) session.segment_kv_metadata;
}

abbrev pub has_session : Option Session → Bool
has_session none = false
has_session (some session) = true

unfoldable pub create_session :
    Environment → Bytes → Bool → ContextState → CommandResult × ContextState
create_session env session_id kv_persist st =
    let fresh : Session = record new_session {
      store = record empty_store { session_id = session_id; kv_persist = kv_persist };
    } in
    if not (is_valid_session_id session_id)
    then (make_error invalid_session_id (text "invalid session id") [], st)
    else if has_session (find_session st.sessions session_id) || env.directory_exists
    then (
      make_error session_already_exists (text "session already exists: " ++ session_id)
          (detail (text "session_id") session_id ∷ []),
      st,
    )
    else let saved =
        Replace.save_session_metadata env.layout_id env.meta_path env.directory env.meta_io st.files
          fresh.store in
      let planned = (initialize_session_plan env.core env.disk env.model_key fresh).1 in
      on_result saved.0 (λ e. (make_error internal_error e [], record st { files = saved.1 }))
        (λ _. (
          token_usage_result env.core 0 (pos 0) (negsuc 0) (negsuc 0),
          write_session (record st { files = saved.1 }) session_id planned,
        ))

abbrev no_restore : Environment → ContextState → ErrorInfo → CommandResult × ContextState
no_restore env st info = (record (error_result info) { payload = restore_summary }, st)

abbrev restored_summary : Environment → ContextState → Session → CommandResult × ContextState
restored_summary env st session = (
  record (success_result restore_summary) {
    restored = true;
    summary = summarize_session env.disk st.kv (some session);
  },
  st,
)

-- A session that is not there yet, read from the disk.
unfoldable pub restore_from_disk : Environment → Bytes → ContextState → CommandResult × ContextState
restore_from_disk env session_id st =
    if not env.directory_exists
    then no_restore env st (
        make_error_info session_not_found (text "session not found: " ++ session_id)
          (detail (text "session_id") session_id ∷ []))
    else on_result
        (SessionFile.load_session env.layout_id env.meta_path env.memories_path
          (st.files env.meta_path) (st.files env.memories_path))
        (λ e. no_restore env st (make_error_info internal_error e []))
        (λ store.
          let session : Session = record new_session { store = store } in
          restored_summary env
            (write_session
              (record st {
                kv = clear_resident_session (evict_session st.kv session_id) session_id;
              })
              session_id session)
            session)

unfoldable pub restore_session : Environment → Bytes → ContextState → CommandResult × ContextState
unfolding restore_from_disk
restore_session env session_id st =
    if not (is_valid_session_id session_id)
    then (make_error invalid_session_id (text "invalid session id") [], st)
    else elim (find_session st.sessions session_id) [
      | some current ↦ restored_summary env st current
      | none ↦ restore_from_disk env session_id st
    ]

-- A failed count of the tokens is reported as -1.
abbrev count_or : ℤ → Result ℤ → ℤ
count_or default (ok n) = n
count_or default (err e) = default

-- The body of `add_system`, behind the scope.
unfoldable pub set_system :
    Environment → Bytes → Bytes → ContextState → Session → CommandResult × ContextState
unfolding reset_session_derived_state
set_system env session_id system st session =
    let store : SessionStore = record session.store {
      system_text = system;
      system_locked = true;
    } in
    let r =
      reset_session_derived_state st.kv (record session { store = store; facts_dirty = true }) in
    let saved =
      Replace.save_session_metadata env.layout_id env.meta_path env.directory env.meta_io st.files
        store in
    let st' : ContextState = record st { kv = r.0; files = saved.1 } in
    if not (is_empty session.store.memories)
    then (make_error invalid_request (text "add-system is only allowed before add-memory") [], st)
    else on_result saved.0 (λ e. (make_error internal_error e [], write_session st' session_id r.1))
        (λ _. (
          token_usage_result env.core (length r.1.segment_plan.segments)
              (count_or (negsuc 0) (env.core.kv_tokens system [])) (negsuc 0) (negsuc 0),
          write_session st' session_id (record r.1 { facts_dirty = false }),
        ))

unfoldable pub add_system :
    Environment → Bytes → Bytes → ContextState → CommandResult × ContextState
unfolding set_system
add_system env session_id system st =
    let s = require_session env Manager.add_system session_id st in
    on_checked s.0 (λ r. (r, s.1)) (set_system env session_id system s.1)

-- `result.ok = false; result.error = error;` and nothing else.
abbrev plain_failure : Bytes → CommandResult
plain_failure e = record empty_result { error = e }

unfoldable pub memory_usage : Environment → Appended → Session → CommandResult
memory_usage env a session =
    let result =
      token_usage_result env.core (length session.segment_plan.segments) a.token_count a.segment_id
        (negsuc 0) in
    elim (last? session.store.memories) [
      | none ↦ result
      | some m ↦ record result {
        usage = record result.usage {
          memory_index = wrap 32 m.memory_idx;
          has_memory_id = m.has_id;
          memory_id = m.id;
        };
      }
    ]

-- The KV states of a session that has got a memory: its last segment, if it has grown, is staged.
unfoldable pub stage_grown : ContextKvState → Session → Appended → ContextKvState
stage_grown kv session a =
    let evicted = evict_session kv a.session.store.session_id in
    if not (eqb_ℤ a.segment_id (negsuc 0))
      && (length a.session.segment_plan.segments == length session.segment_plan.segments)
    then stage_incremental_prefix evicted a.session.store.session_id a.segment_id
    else evicted

-- The body of `add_memory`, behind the scope.
unfoldable pub append_memory :
    Environment → Bytes → MemoryInput → ContextState → Session → CommandResult × ContextState
unfolding stage_grown memory_usage
append_memory env session_id memory st session =
    let a = append_memory_and_update_plan env.core env.disk env.model_key session memory in
    let dirty : Session = record a.session { facts_dirty = true } in
    let st' = write_session (record st { kv = stage_grown st.kv session a }) session_id dirty in
    on_result a.status (λ e. (plain_failure e, write_session st session_id a.session))
      (λ _.
        if a.persist_session_facts
        then (let p = persist env st' session_id dirty in
            on_checked p.0 (λ r. (r, p.1)) (λ _. (memory_usage env a dirty, p.1)))
        else (memory_usage env a dirty, st'))

unfoldable pub add_memory :
    Environment → Bytes → MemoryInput → ContextState → CommandResult × ContextState
unfolding append_memory
add_memory env session_id memory st =
    let s = require_planned_session env Manager.add_memory session_id st in
    on_checked s.0 (λ r. (r, s.1)) (append_memory env session_id memory s.1)

abbrev pub is_sealable : Option Segment → Bool
is_sealable none = false
is_sealable (some last) = not (is_empty last.memory_indices)

-- The body of `next_segment`, behind the scope.
unfoldable pub seal_segment :
    Environment → Bytes → ContextState → Session → CommandResult × ContextState
seal_segment env session_id st session =
    let store = session.store in
    let sealed : Session = record session {
      store = record store {
        manual_segment_boundaries = store.manual_segment_boundaries ++ store.next_memory_idx ∷ [];
      };
      facts_dirty = true;
    } in
    let p =
      persist env (record st { kv = evict_session st.kv store.session_id }) session_id sealed in
    if not (is_sealable (last? session.segment_plan.segments))
    then (make_error invalid_request (text "session has no current segment to seal") [], st)
    else if starts_manual_segment store
    then (make_error invalid_request (text "next segment has already been requested") [], st)
    else on_checked p.0 (λ r. (r, p.1)) (λ _. (success_result no_payload, p.1))

unfoldable pub next_segment : Environment → Bytes → ContextState → CommandResult × ContextState
unfolding seal_segment
next_segment env session_id st =
    let s = require_planned_session env Manager.next_segment session_id st in
    on_checked s.0 (λ r. (r, s.1)) (seal_segment env session_id s.1)

unfoldable pub clear_session : Environment → Bytes → ContextState → CommandResult × ContextState
unfolding evict_session_runtime_state mark_resident_segment_kv_metadata_cleared
clear_session env session_id st =
    let s = require_session env Manager.clear_session session_id st in
    on_checked s.0 (λ r. (r, s.1))
      (λ session. (
        success_result no_payload,
        write_session (record s.1 { kv = evict_session_runtime_state s.1.kv session }) session_id
            (mark_resident_segment_kv_metadata_cleared env.disk session),
      ))

-- The cache goes in any case, and the session only if its directory could be removed.
unfoldable pub delete_session : Environment → Bytes → ContextState → CommandResult × ContextState
unfolding evict_session_runtime_state
delete_session env session_id st =
    let s = require_session env Manager.delete_session session_id st in
    on_checked s.0 (λ r. (r, s.1))
      (λ session.
        let removed = env.remove_session s.1.files in
        let st' : ContextState = record s.1 {
          kv = evict_session_runtime_state s.1.kv session;
          files = env.delete_session_kv_cache removed.1;
        } in
        on_result removed.0 (λ e. (make_error internal_error e [], st'))
          (λ _. (
            record empty_result { is_ok = true },
            record st' { sessions = erase_session st'.sessions session.store.session_id },
          )))
