-- ===== src/SessionManager.antt =====
-- The state of src/context/session/session_manager.cpp, and src/context/command/command_scope.cpp: what
-- every command on a session does before its own work, and how it saves the session. The map of
-- sessions is an association list; a scope's pointer into it is the session itself, which is put
-- back under the command's id. What a call asks of the machine is an `Environment`.
pub mod Map
pub mod Commands
pub mod Scope
pub mod Steps
pub mod Abstract
pub mod Refinement
pub mod Invariant
pub mod Consistent
pub mod Sealed
pub mod Alias
pub mod Errors
pub mod Quiet
use attemory.Kv.Metadata.{Disk}
use attemory.Base.Result.{ok, err, on_result, ResultStatus}
use attemory.Planner.Prepare.{prepare_session_plan}
use attemory.Persistent.{is_valid_session_id, ModelCacheKey}
use attemory.Kv.Handle.{Export}
use attemory.Session.{Session}
use attemory.Persistent.Replace.{Io, Files}
use attemory.Kv.Manager.{creates, evict_active_for_command, ContextKvState, AttemoryCommand}
use attemory.Core.{Core}
use attemory.Base.Text.{text, is_empty, bytes_eq, Bytes}
use attemory.Base.{
  ℕ, zero, suc, ◌+◌, ◌-◌, ◌*◌, ◌/◌, ◌%◌, ◌^◌, ◌≤◌, ◌<◌, ◌≡◌, refl, sym, ap, subst, ◌∙◌, ◌≢◌, ◌↔◌,
  ◌⊎◌, inl, inr, Bool, true, false, ◌&&◌, ◌||◌, not, Option, none, some, List, [], ◌∷◌, ◌++◌, map,
  arith, ltb, leb, ◌==◌, if◌then◌else◌, Bool-cases, Option-cases, length, All,
}
use attemory.Command.{
  invalid_session_id, internal_error, detail, inferred_error, session_not_found, make_error,
  not_found_prefix, CommandResult, token_usage,
}
use attemory.Kv.Manager.{
  add_system, add_memory, restore, clear_session, create_session, delete_session, search,
  next_segment, save_session, index_session, oneshot_search,
}
use attemory.Kv.Manager
use attemory.Persistent.Replace

pub record ContextState : Type 0 where
  pub sessions : List (Bytes × Session)
  pub kv : ContextKvState
  pub files : Files

-- What one command finds outside: the core, the caches, and the disk under the session's id.
pub record Environment : Type 0 where
  pub core : Core
  pub export : Export
  pub model_key : ModelCacheKey
  -- `cache_layout_for_session`
  pub disk : Disk
  -- `session_storage_layout`
  pub layout_id : Bytes
  pub meta_path : Bytes
  pub memories_path : Bytes
  -- `std::filesystem::exists(session_dir_path(layout))`, and `ensure_directory` of it
  pub directory_exists : Bool
  pub directory : ResultStatus
  pub memories_io : Io
  pub meta_io : Io
  -- `remove_session(layout)` and `delete_session_kv_cache`
  pub remove_session : Files → ResultStatus × Files
  pub delete_session_kv_cache : Files → Files

unfoldable pub find_session : List (Bytes × Session) → Bytes → Option Session
find_session [] session_id = none
find_session ((k, session) ∷ rest) session_id =
    if bytes_eq k session_id then some session else find_session rest session_id

-- `sessions[session_id] = session`, also what a write through the pointer does.
unfoldable pub put_session : List (Bytes × Session) → Bytes → Session → List (Bytes × Session)
put_session [] session_id session = (session_id, session) ∷ []
put_session ((k, old) ∷ rest) session_id session =
    if bytes_eq k session_id
    then (k, session) ∷ rest
    else (k, old) ∷ put_session rest session_id session

unfoldable pub erase_session : List (Bytes × Session) → Bytes → List (Bytes × Session)
erase_session [] session_id = []
erase_session ((k, old) ∷ rest) session_id =
    let others = erase_session rest session_id in
    if bytes_eq k session_id then others else (k, old) ∷ others

-- The session in its place.
abbrev pub write_session : ContextState → Bytes → Session → ContextState
write_session st session_id session = record st {
  sessions = put_session st.sessions session_id session;
}

-- Go on with a value, or return this.
pub data Checked {ℓ} (A : Type ℓ) : Type ℓ where
  passes : A → Checked A
  refuses : CommandResult → Checked A

unfoldable pub unknown_session : Bytes → CommandResult
unfolding make_error
unknown_session session_id =
    make_error session_not_found (text "session not found: " ++ session_id)
      (detail (text "session_id") session_id ∷ [])

-- `status_.error_info = make_error_info(InternalError, status_.error)` and `failure_result`.
unfoldable pub internal_failure : Bytes → CommandResult
unfolding make_error inferred_error
internal_failure error =
    if is_empty error then inferred_error error else make_error internal_error error []

-- The constructor of `CommandScope`.
unfoldable pub command_scope :
    Environment → AttemoryCommand → Bytes → ContextState → Checked (Unit {0}) × ContextState
unfolding make_error inferred_error
command_scope env command session_id st =
    if not (is_valid_session_id session_id)
    then (refuses (make_error invalid_session_id (text "invalid session id") []), st)
    else let kv = evict_active_for_command st.kv command session_id in
      if creates command
      then (passes tt, record st { kv = kv })
      else let r = Manager.keep_only_session_live env.export kv session_id in
        on_result r.0 (λ e. (refuses (inferred_error e), record st { kv = r.1 }))
          (λ _. (passes tt, record st { kv = r.1 }))

-- Continue a scope's work.
abbrev pub on_checked {ℓ κ} :
    {A : Type ℓ} {B : Type κ} → Checked A → (CommandResult → B) → (A → B) → B
on_checked (passes a) refused done = done a
on_checked (refuses r) refused done = refused r

abbrev found : ContextState → Bytes → Option Session → Checked Session × ContextState
found st session_id none = (refuses (unknown_session session_id), st)
found st session_id (some session) = (passes session, st)

-- A scope, and `require_session` on it.
unfoldable pub require_session :
    Environment → AttemoryCommand → Bytes → ContextState → Checked Session × ContextState
unfolding command_scope find_session unknown_session
require_session env command session_id st =
    let s = command_scope env command session_id st in
    on_checked s.0 (λ r. (refuses r, s.1))
      (λ _. found s.1 session_id (find_session s.1.sessions session_id))

-- A failure to plan is reported, and the session keeps what planning has left of it.
unfoldable pub require_planned_session :
    Environment → AttemoryCommand → Bytes → ContextState → Checked Session × ContextState
unfolding require_session put_session internal_failure
require_planned_session env command session_id st =
    let s = require_session env command session_id st in
    on_checked s.0 (λ r. (refuses r, s.1))
      (λ session.
        let p = prepare_session_plan env.core env.disk env.model_key session in
        let st' = write_session s.1 session_id p.1 in
        on_result p.0 (λ e. (refuses (internal_failure e), st')) (λ _. (passes p.1, st')))

-- `persist_session_store`: whether the session is saved is remembered in it.
unfoldable pub persist_session_store :
    Environment → Files → Session → ResultStatus × Files × Session
persist_session_store env files session =
    let r =
      Replace.save_session env.layout_id env.meta_path env.memories_path env.directory
        env.memories_io env.meta_io files session.store in
    on_result r.0 (λ e. (err e, r.1, record session { facts_dirty = true }))
      (λ _. (ok tt, r.1, record session { facts_dirty = false }))

unfoldable pub persist_session_store_if_dirty :
    Environment → Files → Session → ResultStatus × Files × Session
unfolding persist_session_store
persist_session_store_if_dirty env files session =
    if not session.facts_dirty
    then (ok tt, files, session)
    else persist_session_store env files session

-- `persist` of a scope whose session is there.
unfoldable pub persist :
    Environment → ContextState → Bytes → Session → Checked (Unit {0}) × ContextState
unfolding persist_session_store put_session internal_failure
persist env st session_id session =
    let r = persist_session_store env st.files session in
    let st' : ContextState = record st {
      files = r.1;
      sessions = put_session st.sessions session_id r.2;
    } in
    on_result r.0 (λ e. (refuses (internal_failure e), st')) (λ _. (passes tt, st'))
