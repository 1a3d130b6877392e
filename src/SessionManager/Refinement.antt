-- ===== src/SessionManager/Refinement.antt =====
-- The commands refine what their client may know of the sessions.
use attemory.Planner.Prepare.{initialize_session_plan}
use attemory.Base.Result.{Result-cases}
use attemory.SessionAppend.Limits.{refused}
use attemory.SessionManager.Map.{find_session-put_session_ne, find_session-put_session}
use attemory.Persistent.{SessionStore, empty_store, is_valid_session_id}
use attemory.SessionManager.Scope.{denied, there, require_session-Required}
use attemory.Planner.Prepare.Facts.{initialize_session_plan-SameFacts, facts_store}
use attemory.SessionManager.Commands.{
  reset_session_derived_state, set_system, mark_resident_segment_kv_metadata_cleared,
}
use attemory.Command.{token_usage_result, error_result, CommandResult, success_result, make_error}
use attemory.Session.{empty_plan, new_session, Session}
use attemory.Base.Text.{is_empty, bytes_eq, Bytes}
use attemory.SessionManager.{require_session, put_session, find_session, Environment, ContextState}
use attemory.SessionManager.Abstract.{session_facts_same, session_facts, spec, view, SessionFacts}
pub mod Segments
pub mod Whole
use mathlib.Core.List.{map-append}
use attemory.Base.{
  ℕ, zero, suc, ◌+◌, ◌-◌, ◌*◌, ◌/◌, ◌%◌, ◌^◌, ◌≤◌, ◌<◌, ◌≡◌, refl, sym, ap, subst, ◌∙◌, ◌≢◌, ◌↔◌,
  ◌⊎◌, inl, inr, Bool, true, false, ◌&&◌, ◌||◌, not, Option, none, some, List, [], ◌∷◌, ◌++◌, map,
  arith, ltb, leb, ◌==◌, if◌then◌else◌, Bool-cases, Option-cases, length, All,
}
use attemory.Persistent.Replace
use attemory.Kv.Manager
use attemory.Persistent.SessionFile
use attemory.SessionManager.Commands
use attemory.SessionManager.Steps.{
  Request, creating, restoring, setting_system, adding_memory, sealing, clearing, deleting,
}

-- What a command that returns this has done to the facts: on success its own step, and on a failure
-- that step or none; and nothing to other sessions.
abbrev pub Refined :
    Option SessionFacts → Bytes → Request → ContextState → CommandResult × ContextState → Type 0
Refined loaded i req st r =
    (r.0.is_ok ≡ true → view r.1 i ≡ spec i loaded req (view st i))
    × ((view r.1 i ≡ view st i) ⊎ (view r.1 i ≡ spec i loaded req (view st i)))
    × ((j : Bytes)
        → bytes_eq i j ≡ false
        → find_session r.1.sessions j ≡ find_session st.sessions j)

module _ (loaded : Option SessionFacts) (i : Bytes) (req : Request) (st : ContextState) where
  pub refused-Refined :
      (r : CommandResult × ContextState)
      → r.0.is_ok ≡ false
      → r.1.sessions ≡ st.sessions
      → Refined loaded i req st r
  refused-Refined r not_ok same = (λ h. ground arith, inl (rw same refl), λ j ne. rw same refl)

  -- A write that changes no facts, under a failure or where the request changes none.
  pub written-Refined :
      (r : CommandResult × ContextState) (session : Session)
      → r.1.sessions ≡ put_session st.sessions i session
      → (r.0.is_ok ≡ true → some (session_facts session.store) ≡ spec i loaded req (view st i))
      → (some (session_facts session.store) ≡ view st i)
        ⊎ (some (session_facts session.store) ≡ spec i loaded req (view st i))
      → Refined loaded i req st r
  written-Refined r session put done either =
      let there : view r.1 i ≡ some (session_facts session.store) =
        rw (put, find_session-put_session i st.sessions session) refl in
      (
        λ h. there ∙ done h,
        elim either [ inl e ↦ inl (there ∙ e) | inr e ↦ inr (there ∙ e) ],
        λ j ne. rw put (find_session-put_session_ne i j ne st.sessions session),
      )

pub unchanged-Refined :
    (loaded : Option SessionFacts) (i : Bytes) (req : Request) (st : ContextState)
    (r : CommandResult × ContextState) (session : Session)
    → r.0.is_ok ≡ false
    → r.1.sessions ≡ put_session st.sessions i session
    → view st i ≡ some (session_facts session.store)
    → Refined loaded i req st r
unchanged-Refined loaded i req st r session not_ok put same =
    written-Refined loaded i req st r session put (λ h. absurd (ground arith)) (inl (sym same))

pub view-find :
    (st : ContextState) (i : Bytes) (session : Session)
    → find_session st.sessions i ≡ some session
    → view st i ≡ some (session_facts session.store)
view-find st i session f = rw f refl

module _ (env : Environment) (i : Bytes) (st : ContextState) (loaded : Option SessionFacts) where
  -- What a scope refuses.
  pub planned_facts :
      (session planned : Session)
      → find_session st.sessions i ≡ some session
      → facts_store planned.store ≡ facts_store session.store
      → view st i ≡ some (session_facts planned.store)
  planned_facts session planned f same =
      view-find st i session f ∙ ap some (sym (session_facts_same planned.store session.store same))

  pub create_session-Refined :
      (kv_persist : Bool)
      → Refined loaded i (creating kv_persist) st (Commands.create_session env i kv_persist st)
  unfolding Commands.create_session make_error error_result token_usage_result success_result
      empty_store
  create_session-Refined kv_persist =
      let req = creating kv_persist in
      let r = Commands.create_session env i kv_persist st in
      let refuse = refused-Refined loaded i req st r in
      elim (Bool-cases (is_valid_session_id i)) [
        | inr e ↦ refuse (rw e refl) (rw e refl)
        | inl e ↦
            elim (Bool-cases
              (Commands.has_session (find_session st.sessions i) || env.directory_exists)) [
                | inl e' ↦ refuse (rw (e, e') refl) (rw (e, e') refl)
                | inr e' ↦
                    let fresh : Session = record new_session {
                      store = record empty_store { session_id = i; kv_persist = kv_persist };
                    } in
                    elim (Result-cases
                      (Replace.save_session_metadata env.layout_id env.meta_path env.directory
                        env.meta_io st.files fresh.store).0) [
                          | inr (x, f) ↦ refuse (rw (e, e', f) refl) (rw (e, e', f) refl)
                          | inl (u, f) ↦
                              let planned =
                                (initialize_session_plan env.core env.disk env.model_key fresh).1 in
                              let same : some (session_facts planned.store)
                                  ≡ spec i loaded req (view st i) =
                                ap some (
                                  session_facts_same planned.store fresh.store (
                                    initialize_session_plan-SameFacts env.core env.disk
                                      env.model_key fresh)) in
                              written-Refined loaded i req st r planned (rw (e, e', f) refl)
                                (λ h. same) (inr same)
                        ]
              ]
      ]

  pub clear_session-Refined : Refined loaded i clearing st (Commands.clear_session env i st)
  unfolding Commands.clear_session success_result mark_resident_segment_kv_metadata_cleared
  clear_session-Refined =
      let r = Commands.clear_session env i st in
      elim (require_session-Required env Manager.clear_session i st) [
        | denied x e not_ok same ↦ refused-Refined loaded i clearing st r (rw e not_ok) (rw e same)
        | there session e f same ↦
            written-Refined loaded i clearing st r
              (Commands.mark_resident_segment_kv_metadata_cleared env.disk session)
              (rw (e, same) refl) (λ h. sym (view-find st i session f))
              (inl (sym (view-find st i session f)))
      ]

  pub add_system-Refined :
      (system : Bytes)
      → Refined loaded i (setting_system system) st (Commands.add_system env i system st)
  unfolding Commands.add_system set_system make_error error_result reset_session_derived_state
  add_system-Refined system =
      let r = Commands.add_system env i system st in
      let req = setting_system system in
      elim (require_session-Required env Manager.add_system i st) [
        | denied x e not_ok same ↦ refused-Refined loaded i req st r (rw e not_ok) (rw e same)
        | there session e f same ↦ elim (Bool-cases (is_empty session.store.memories)) [
          | inr n ↦ refused-Refined loaded i req st r (rw (e, n) refl) (rw (e, n) same)
          | inl n ↦
              let store : SessionStore = record session.store {
                system_text = system;
                system_locked = true;
              } in
              let new : some (session_facts store) ≡ spec i loaded req (view st i) =
                rw (view-find st i session f) refl in
              elim (Result-cases
                (Replace.save_session_metadata env.layout_id env.meta_path env.directory env.meta_io
                  (require_session env Manager.add_system i st).1.files store).0) [
                    | inr (y, g) ↦
                        written-Refined loaded i req st r
                          (record session {
                            store = store;
                            segment_plan = empty_plan;
                            segment_kv_metadata = [];
                            facts_dirty = true;
                          })
                          (rw (e, n, g, same) refl) (λ h. new) (inr new)
                    | inl (u, g) ↦
                        written-Refined loaded i req st r
                          (record session {
                            store = store;
                            segment_plan = empty_plan;
                            segment_kv_metadata = [];
                            facts_dirty = false;
                          })
                          (rw (e, n, g, same) refl) (λ h. new) (inr new)
                  ]
        ]
      ]
