-- ===== src/SessionManager/Refinement/Segments.antt =====
-- `add_memory` and `next_segment` refine what their client may know of the session.
use attemory.Kv.Metadata.{mark_segment_kv_missing}
use attemory.SessionManager.Map.{put_session-put_session}
use attemory.SessionAppend.{
  append_memory_and_update_plan, new_record, starts_manual_segment, append_record, write_appended,
}
use attemory.Planner.Prepare.Facts.{facts_store}
use attemory.Base.Result.{Result-cases}
use attemory.SessionManager.Refinement.{
  unchanged-Refined, written-Refined, planned_facts, refused-Refined, Refined,
}
use attemory.Command.{success_result, error_result, CommandResult, make_error}
use attemory.SessionManager.Abstract.{view, spec, session_facts, SessionFacts}
use attemory.Base.Text.{Bytes}
use attemory.SessionManager.{
  write_session, internal_failure, find_session, refuses, put_session, passes, ContextState,
  persist_session_store, Environment, persist,
}
use attemory.Session.{MemoryInput, Session}
use mathlib.Core.List.{map-append}
use attemory.Base.{
  last?, ◌≡◌, refl, ◌∙◌, ◌⊎◌, inl, inr, Bool, true, false, Option, some, [], ◌∷◌, ◌++◌, Bool-cases,
}
use attemory.Kv.Manager
use attemory.Persistent.Replace
use attemory.SessionManager.Commands
use attemory.SessionManager.Scope.{
  internal_failure-error, require_planned_session-PlannedScope, rejected, unplanned, ready,
}
use attemory.SessionManager.Steps.{adding_memory, sealing}
use attemory.SessionAppend.Limits.{append_memory_and_update_plan-Outcome, refused, written}

abbrev marked : Session → Bool → Session
marked session dirty = record session { facts_dirty = dirty }

persist_cases :
    (env : Environment) (st : ContextState) (i : Bytes) (session : Session)
    → let p = persist env st i session in
      ((p.0 ≡ passes tt) × (p.1.sessions ≡ put_session st.sessions i (marked session false)))
      ⊎ ((r : CommandResult) × (p.0 ≡ refuses r)
          × (r.is_ok ≡ false)
          × (p.1.sessions ≡ put_session st.sessions i (marked session true)))
unfolding persist persist_session_store
persist_cases env st i session =
    elim (Result-cases
      (Replace.save_session env.layout_id env.meta_path env.memories_path env.directory
        env.memories_io env.meta_io st.files session.store).0) [
          | inl (u, f) ↦ inl (rw f refl, rw f refl)
          | inr (e, f) ↦ inr (internal_failure e, rw f refl, internal_failure-error e, rw f refl)
        ]

module _ (env : Environment) (i : Bytes) (st : ContextState) (loaded : Option SessionFacts) where
  seal_segment-Refined :
      (st' : ContextState) (session planned : Session)
      → find_session st.sessions i ≡ some session
      → facts_store planned.store ≡ facts_store session.store
      → st'.sessions ≡ put_session st.sessions i planned
      → Refined loaded i sealing st (Commands.seal_segment env i st' planned)
  unfolding Commands.seal_segment make_error error_result success_result
  seal_segment-Refined st' session planned f facts_same put =
      let r = Commands.seal_segment env i st' planned in
      let before = planned_facts env i st loaded session planned f facts_same in
      let store = planned.store in
      let sealed : Session = record planned {
        store = record store {
          manual_segment_boundaries = store.manual_segment_boundaries ++ store.next_memory_idx ∷ [];
        };
        facts_dirty = true;
      } in
      let after : some (session_facts sealed.store) ≡ spec i loaded sealing (view st i) =
        rw before refl in
      let unchanged = λ (not_ok : r.0.is_ok ≡ false) (same : r.1.sessions ≡ st'.sessions).
        unchanged-Refined loaded i sealing st r planned not_ok (same ∙ put) before in
      let st'' : ContextState = record st' { kv = Manager.evict_session st'.kv store.session_id } in
      elim (Bool-cases (Commands.is_sealable (last? planned.segment_plan.segments))) [
        | inr e ↦ unchanged (rw e refl) (rw e refl)
        | inl e ↦ elim (Bool-cases (starts_manual_segment store)) [
          | inl k ↦ unchanged (rw (e, k) refl) (rw (e, k) refl)
          | inr k ↦ elim (persist_cases env st'' i sealed) [
            | inl (done, p) ↦
                written-Refined loaded i sealing st r (marked sealed false)
                  (rw (e, k, done, p, put) (put_session-put_session st.sessions i planned _))
                  (λ h. after) (inr after)
            | inr (x, failed, not_ok, p) ↦
                written-Refined loaded i sealing st r (marked sealed true)
                  (rw (e, k, failed, p, put) (put_session-put_session st.sessions i planned _))
                  (λ h. after) (inr after)
          ]
        ]
      ]

  pub next_segment-Refined : Refined loaded i sealing st (Commands.next_segment env i st)
  unfolding Commands.next_segment
  next_segment-Refined =
      let r = Commands.next_segment env i st in
      elim (require_planned_session-PlannedScope env Manager.next_segment i st) [
        | rejected x e not_ok same ↦ refused-Refined loaded i sealing st r (rw e not_ok) (rw e same)
        | unplanned x session planned e not_ok f facts_same put ↦
            unchanged-Refined loaded i sealing st r planned (rw e not_ok) (rw e put)
              (planned_facts env i st loaded session planned f facts_same)
        | ready session planned e f facts_same put ↦
            rw e (seal_segment-Refined _ session planned f facts_same put)
      ]

  append_memory-Refined :
      (memory : MemoryInput) (st' : ContextState) (session planned : Session)
      → find_session st.sessions i ≡ some session
      → facts_store planned.store ≡ facts_store session.store
      → st'.sessions ≡ put_session st.sessions i planned
      → Refined loaded i (adding_memory memory) st (Commands.append_memory env i memory st' planned)
  unfolding Commands.append_memory write_appended append_record new_record mark_segment_kv_missing
  append_memory-Refined memory st' session planned f facts_same put =
      let req = adding_memory memory in
      let r = Commands.append_memory env i memory st' planned in
      let a = append_memory_and_update_plan env.core env.disk env.model_key planned memory in
      let before = planned_facts env i st loaded session planned f facts_same in
      let again = λ (s : Session). put_session-put_session st.sessions i planned s in
      elim (append_memory_and_update_plan-Outcome env.core env.disk env.model_key planned memory) [
        | refused x same ↦
            unchanged-Refined loaded i req st r planned (rw same refl)
              (rw (same, put) (again planned)) before
        | written segments segment placed status same _ _ ↦
            let after : some (session_facts a.session.store) ≡ spec i loaded req (view st i) =
              rw (same, before, map-append) refl in
            let dirty = marked a.session true in
            let kv = Commands.stage_grown st'.kv planned a in
            let st'' = write_session (record st' { kv = kv }) i dirty in
            let twice : (s : Session)
                → put_session st''.sessions i s ≡ put_session st.sessions i s =
              λ s. put_session-put_session st'.sessions i dirty s ∙ rw put (again s) in
            elim (Bool-cases a.persist_session_facts) [
              | inr p ↦
                  written-Refined loaded i req st r dirty (rw (status, p, put) (again dirty))
                    (λ h. after) (inr after)
              | inl p ↦ elim (persist_cases env st'' i dirty) [
                | inl (done, q) ↦
                    written-Refined loaded i req st r (marked dirty false)
                      (rw (status, p, done, q) (twice (marked dirty false))) (λ h. after)
                      (inr after)
                | inr (x, failed, not_ok, q) ↦
                    written-Refined loaded i req st r (marked dirty true)
                      (rw (status, p, failed, q) (twice (marked dirty true))) (λ h. after)
                      (inr after)
              ]
            ]
      ]

  pub add_memory-Refined :
      (memory : MemoryInput)
      → Refined loaded i (adding_memory memory) st (Commands.add_memory env i memory st)
  unfolding Commands.add_memory
  add_memory-Refined memory =
      let r = Commands.add_memory env i memory st in
      let req = adding_memory memory in
      elim (require_planned_session-PlannedScope env Manager.add_memory i st) [
        | rejected x e not_ok same ↦ refused-Refined loaded i req st r (rw e not_ok) (rw e same)
        | unplanned x session planned e not_ok f facts_same put ↦
            unchanged-Refined loaded i req st r planned (rw e not_ok) (rw e put)
              (planned_facts env i st loaded session planned f facts_same)
        | ready session planned e f facts_same put ↦
            rw e (append_memory-Refined memory _ session planned f facts_same put)
      ]
