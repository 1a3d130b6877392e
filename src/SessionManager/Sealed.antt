-- ===== src/SessionManager/Sealed.antt =====
-- A `next_segment` right after one that succeeded.
use attemory.SessionManager.Refinement.{planned_facts}
use attemory.SessionAppend.{starts_manual_segment}
use attemory.SessionManager.Refinement.Segments.{next_segment-Refined}
use attemory.Session.{Session}
use attemory.Base.Text.{Bytes}
use attemory.Base.Int.{eqb_ℤ_iff, mem_ℤ-append, mem_ℤ}
use attemory.SessionManager.{ContextState, Environment}
use attemory.Command.{error_result, make_error}
use attemory.SessionManager.Abstract.{view, SessionFacts}
use attemory.Base.{
  last?, ◌≡◌, refl, sym, subst, ◌∙◌, inl, inr, true, false, Option, none, some, arith, Bool-cases,
  Option-cases,
}
use attemory.Kv.Manager
use attemory.SessionManager.Commands
use attemory.SessionManager.Scope.{require_planned_session-PlannedScope, rejected, unplanned, ready}
use attemory.SessionManager.Steps.{run, sealing}

-- No session, or one with a boundary at its next index.
abbrev IsSealed : Option SessionFacts → Type 0
IsSealed none = Unit
IsSealed (some f) = mem_ℤ f.next_memory_idx f.manual_segment_boundaries ≡ true

seal_segment-refuses :
    (env : Environment) (i : Bytes) (st : ContextState) (session : Session)
    → starts_manual_segment session.store ≡ true
    → (Commands.seal_segment env i st session).0.is_ok ≡ false
unfolding Commands.seal_segment make_error error_result
seal_segment-refuses env i st session e =
    elim (Bool-cases (Commands.is_sealable (last? session.segment_plan.segments))) [
      | inl k ↦ rw (k, e) refl
      | inr k ↦ rw k refl
    ]

next_segment-refuses :
    (env : Environment) (i : Bytes) (st : ContextState)
    → IsSealed (view st i)
    → (Commands.next_segment env i st).0.is_ok ≡ false
unfolding Commands.next_segment
next_segment-refuses env i st h =
    elim (require_planned_session-PlannedScope env Manager.next_segment i st) [
      | rejected x e not_ok same ↦ rw e not_ok
      | unplanned x session planned e not_ok f facts_same put ↦ rw e not_ok
      | ready session planned e f facts_same put ↦ rw e (
          seal_segment-refuses env i _ planned
            (rw (planned_facts env i st none session planned f facts_same) at h))
    ]

-- After a `next_segment` that returned ok, the next one on the same session fails, whatever the core,
-- the disk and the plan are by then.
pub next_segment_twice :
    (env env' : Environment) (session_id : Bytes) (st : ContextState)
    → let first = run env session_id sealing st in
      first.0.is_ok ≡ true → (run env' session_id sealing first.1).0.is_ok ≡ false
unfolding run mem_ℤ
next_segment_twice env env' i st h =
    let (done, _, _) = next_segment-Refined env i st none in
    next_segment-refuses env' i (Commands.next_segment env i st).1 (
      subst IsSealed (sym (done h)) (elim (Option-cases (view st i)) [
        | inl e ↦ rw e tt
        | inr (f, e) ↦ rw e (
            mem_ℤ-append f.next_memory_idx f.manual_segment_boundaries _
            ∙ ground (arith, eqb_ℤ_iff f.next_memory_idx f.next_memory_idx))
      ]))
