-- ===== src/SessionManager/Scope.antt =====
-- What the scopes of src/context/command/command_scope.cpp do to the sessions.
use attemory.Base.Result.{Result-cases}
use attemory.Planner.Prepare.{prepare_session_plan}
use attemory.Planner.Prepare.Facts.{facts_store, prepare_session_plan-SameFacts}
use attemory.Session.{Session}
use attemory.Persistent.{is_valid_session_id}
use attemory.Kv.Manager.{creates, evict_active_for_command, AttemoryCommand}
use attemory.Base.Text.{text, is_empty, Bytes}
use attemory.Command.{invalid_session_id, CommandResult, error_result, inferred_error, make_error}
use attemory.SessionManager.{
  put_session, refuses, find_session, passes, Checked, unknown_session, Environment,
  require_planned_session, internal_failure, require_session, ContextState, command_scope,
}
use attemory.Base.{◌≡◌, refl, ◌⊎◌, inl, inr, false, some, [], Bool-cases, Option-cases}
use attemory.Kv.Manager

command_scope-sessions :
    (env : Environment) (command : AttemoryCommand) (i : Bytes) (st : ContextState)
    → (command_scope env command i st).1.sessions ≡ st.sessions
unfolding command_scope
command_scope-sessions env command i st = elim (Bool-cases (is_valid_session_id i)) [
  | inr e ↦ rw e refl
  | inl e ↦ elim (Bool-cases (creates command)) [
    | inl c ↦ rw (e, c) refl
    | inr c ↦
        elim (Result-cases
          (Manager.keep_only_session_live env.export (evict_active_for_command st.kv command i)
            i).0) [ inl (u, f) ↦ rw (e, c, f) refl | inr (x, f) ↦ rw (e, c, f) refl ]
  ]
]

command_scope-refuses :
    (env : Environment) (command : AttemoryCommand) (i : Bytes) (st : ContextState)
    → ((command_scope env command i st).0 ≡ passes tt)
      ⊎ ((r : CommandResult) × ((command_scope env command i st).0 ≡ refuses r) × (r.is_ok ≡ false))
unfolding command_scope make_error inferred_error error_result
command_scope-refuses env command i st = elim (Bool-cases (is_valid_session_id i)) [
  | inr e ↦ inr (make_error invalid_session_id (text "invalid session id") [], rw e refl, refl)
  | inl e ↦ elim (Bool-cases (creates command)) [
    | inl c ↦ inl (rw (e, c) refl)
    | inr c ↦
        elim (Result-cases
          (Manager.keep_only_session_live env.export (evict_active_for_command st.kv command i)
            i).0) [
              | inl (u, f) ↦ inl (rw (e, c, f) refl)
              | inr (x, f) ↦ inr (inferred_error x, rw (e, c, f) refl, refl)
            ]
  ]
]

-- A scope that has the session, or a refusal that has changed no session.
pub data Required (st : ContextState) (i : Bytes) (s : Checked Session × ContextState)
    : Type 0 where
  denied :
      (r : CommandResult)
      → s.0 ≡ refuses r
      → r.is_ok ≡ false
      → s.1.sessions ≡ st.sessions
      → Required st i s
  there :
      (session : Session)
      → s.0 ≡ passes session
      → find_session st.sessions i ≡ some session
      → s.1.sessions ≡ st.sessions
      → Required st i s

pub require_session-Required :
    (env : Environment) (command : AttemoryCommand) (i : Bytes) (st : ContextState)
    → Required st i (require_session env command i st)
unfolding require_session unknown_session make_error error_result
require_session-Required env command i st =
    let same = command_scope-sessions env command i st in
    elim (command_scope-refuses env command i st) [
      | inr (r, e, not_ok) ↦ denied r (rw e refl) not_ok (rw e same)
      | inl e ↦ elim (Option-cases (find_session st.sessions i)) [
        | inl f ↦ denied (unknown_session i) (rw (e, same, f) refl) refl (rw (e, same, f) same)
        | inr (session, f) ↦ there session (rw (e, same, f) refl) f (rw (e, same, f) same)
      ]
    ]

-- The same with a plan: the session may have been written, with the facts that it had.
pub data PlannedScope (st : ContextState) (i : Bytes) (s : Checked Session × ContextState)
    : Type 0 where
  rejected :
      (r : CommandResult)
      → s.0 ≡ refuses r
      → r.is_ok ≡ false
      → s.1.sessions ≡ st.sessions
      → PlannedScope st i s
  unplanned :
      (r : CommandResult) (session planned : Session)
      → s.0 ≡ refuses r
      → r.is_ok ≡ false
      → find_session st.sessions i ≡ some session
      → facts_store planned.store ≡ facts_store session.store
      → s.1.sessions ≡ put_session st.sessions i planned
      → PlannedScope st i s
  ready :
      (session planned : Session)
      → s.0 ≡ passes planned
      → find_session st.sessions i ≡ some session
      → facts_store planned.store ≡ facts_store session.store
      → s.1.sessions ≡ put_session st.sessions i planned
      → PlannedScope st i s

pub internal_failure-error : (e : Bytes) → (internal_failure e).is_ok ≡ false
unfolding internal_failure inferred_error make_error error_result
internal_failure-error e = elim (Bool-cases (is_empty e)) [ inl h ↦ rw h refl | inr h ↦ rw h refl ]

pub require_planned_session-PlannedScope :
    (env : Environment) (command : AttemoryCommand) (i : Bytes) (st : ContextState)
    → PlannedScope st i (require_planned_session env command i st)
unfolding require_planned_session
require_planned_session-PlannedScope env command i st =
    elim (require_session-Required env command i st) [
      | denied r e not_ok same ↦ rejected r (rw e refl) not_ok (rw e same)
      | there session e f same ↦
          let facts_same = prepare_session_plan-SameFacts env.core env.disk env.model_key session in
          let planned = (prepare_session_plan env.core env.disk env.model_key session).1 in
          elim (Result-cases (prepare_session_plan env.core env.disk env.model_key session).0) [
            | inr (x, g) ↦
                unplanned (internal_failure x) session planned (rw (e, g) refl)
                  (internal_failure-error x) f facts_same (rw (e, g, same) refl)
            | inl (u, g) ↦
                ready session planned (rw (e, g) refl) f facts_same (rw (e, g, same) refl)
          ]
    ]
