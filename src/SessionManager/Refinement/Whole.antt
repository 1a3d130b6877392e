-- ===== src/SessionManager/Refinement/Whole.antt =====
-- Every command refines what its client may know of the sessions.
use attemory.SessionManager.Map.{find_session-erase_session_ne, find_session-erase_session}
use attemory.SessionManager.Refinement.Segments.{next_segment-Refined, add_memory-Refined}
use attemory.SessionManager.Refinement.{
  view-find, clear_session-Refined, written-Refined, add_system-Refined, refused-Refined,
  create_session-Refined, Refined,
}
use attemory.Session.{new_session}
use attemory.Persistent.{is_valid_session_id, SessionStore}
use attemory.Command.{success_result, CommandResult, make_error, error_result}
use attemory.Base.Result.{Result-cases, Result}
use attemory.Base.Text.{Bytes}
use attemory.SessionManager.{
  erase_session, require_session, find_session, ContextState, Environment,
}
use attemory.SessionManager.Abstract.{
  IsKeyed, session_facts, spec, view, facts_loaded, SessionFacts,
}
use attemory.Base.{◌≡◌, refl, sym, subst, inl, inr, Option, none, some, Bool-cases, Option-cases}
use attemory.Kv.Manager
use attemory.Persistent.SessionFile
use attemory.SessionManager.Commands
use attemory.SessionManager.Scope.{require_session-Required, denied, there}
use attemory.SessionManager.Steps.{
  Request, run, creating, restoring, setting_system, adding_memory, sealing, clearing, deleting,
}

-- A command that reads.
same-Refined :
    (loaded : Option SessionFacts) (i : Bytes) (req : Request) (st : ContextState)
    (r : CommandResult × ContextState)
    → r.1.sessions ≡ st.sessions
    → view st i ≡ spec i loaded req (view st i)
    → Refined loaded i req st r
same-Refined loaded i req st r same step =
    (λ h. rw same step, inl (rw same refl), λ j ne. rw same refl)

-- What the files of the environment hold.
abbrev pub on_disk : Environment → ContextState → Result SessionStore
on_disk env st =
    SessionFile.load_session env.layout_id env.meta_path env.memories_path (st.files env.meta_path)
      (st.files env.memories_path)

module _ (env : Environment) (i : Bytes) (st : ContextState) where
  abbrev loaded : Option SessionFacts
  loaded = facts_loaded (on_disk env st)

  restore_from_disk-Refined :
      find_session st.sessions i ≡ none
      → Refined loaded i restoring st (Commands.restore_from_disk env i st)
  unfolding Commands.restore_from_disk error_result success_result new_session
  restore_from_disk-Refined absent =
      let r = Commands.restore_from_disk env i st in
      elim (Bool-cases env.directory_exists) [
        | inr e ↦ refused-Refined loaded i restoring st r (rw e refl) (rw e refl)
        | inl e ↦ elim (Result-cases (on_disk env st)) [
          | inr (x, f) ↦ refused-Refined loaded i restoring st r (rw (e, f) refl) (rw (e, f) refl)
          | inl (store, f) ↦
              let step : some (session_facts store) ≡ spec i loaded restoring (view st i) =
                rw (absent, f) refl in
              written-Refined loaded i restoring st r (record new_session { store = store })
                (rw (e, f) refl) (λ h. step) (inr step)
        ]
      ]

  restore_session-Refined : Refined loaded i restoring st (Commands.restore_session env i st)
  unfolding Commands.restore_session error_result success_result make_error
  restore_session-Refined =
      let r = Commands.restore_session env i st in
      elim (Bool-cases (is_valid_session_id i)) [
        | inr e ↦ refused-Refined loaded i restoring st r (rw e refl) (rw e refl)
        | inl e ↦ elim (Option-cases (find_session st.sessions i)) [
          | inl absent ↦
              let read : r ≡ Commands.restore_from_disk env i st = rw (e, absent) refl in
              subst (Refined loaded i restoring st) (sym read) (restore_from_disk-Refined absent)
          | inr (session, f) ↦ same-Refined loaded i restoring st r (rw (e, f) refl) (rw f refl)
        ]
      ]

  delete_session-Refined :
      IsKeyed st → Refined loaded i deleting st (Commands.delete_session env i st)
  unfolding Commands.delete_session make_error error_result
  delete_session-Refined keyed =
      let r = Commands.delete_session env i st in
      let files = (require_session env Manager.delete_session i st).1.files in
      elim (require_session-Required env Manager.delete_session i st) [
        | denied x e not_ok same ↦ refused-Refined loaded i deleting st r (rw e not_ok) (rw e same)
        | there session e f same ↦ elim (Result-cases (env.remove_session files).0) [
          | inr (x, g) ↦ refused-Refined loaded i deleting st r (rw (e, g) refl) (rw (e, g) same)
          | inl (u, g) ↦
              let own : session.store.session_id ≡ i =
                keyed i (session_facts session.store) (view-find st i session f) in
              let erased : r.1.sessions ≡ erase_session st.sessions i = rw (e, g, same, own) refl in
              let gone : view r.1 i ≡ none =
                rw (erased, find_session-erase_session i st.sessions) refl in
              (
                λ h. gone,
                inr gone,
                λ j ne. rw erased (find_session-erase_session_ne i j ne st.sessions),
              )
        ]
      ]

-- Every command of the session manager refines one step on the facts of its session, for any core,
-- disk and state in which the sessions stand under their own ids. When it returns ok, the session's
-- system text, memories and manual boundaries are what that step makes of them: a session with
-- nothing in it, what the files hold, the new system text, one memory more under the next index, one
-- boundary more at that index, the same facts, or no session. When it fails, they are as before or
-- what the step makes of them. No other session is changed.
pub run-Refined :
    (env : Environment) (session_id : Bytes) (request : Request) (st : ContextState)
    → IsKeyed st
    → Refined (facts_loaded (on_disk env st)) session_id request st (run env session_id request st)
unfolding run
run-Refined env i (creating kv_persist) st keyed =
    create_session-Refined env i st (facts_loaded (on_disk env st)) kv_persist
run-Refined env i restoring st keyed = restore_session-Refined env i st
run-Refined env i (setting_system system) st keyed =
    add_system-Refined env i st (facts_loaded (on_disk env st)) system
run-Refined env i (adding_memory memory) st keyed =
    add_memory-Refined env i st (facts_loaded (on_disk env st)) memory
run-Refined env i sealing st keyed = next_segment-Refined env i st (facts_loaded (on_disk env st))
run-Refined env i clearing st keyed = clear_session-Refined env i st (facts_loaded (on_disk env st))
run-Refined env i deleting st keyed = delete_session-Refined env i st keyed
