-- ===== src/SessionAppend/Replan.antt =====
-- Appending is planning again: the plan that a new start of the program would make of the longer store.
use attemory.SessionAppend.OneRound.{append_memory_and_update_plan-place}
use attemory.SessionAppend.Valid.{next_is_new}
use attemory.SessionAppend.Limits.{written, refused, append_memory_and_update_plan-Outcome}
use attemory.Persistent.Validity.{IsValidStore}
use attemory.SessionAppend.Texts.{texts_of-facts}
use attemory.SessionAppend.Rounds.{plan_memories-snoc, place_memory-store, place_memory-snoc}
use attemory.Planner.Partition.{indices_of_facts, plan_memories-Covers, planned, facts}
use attemory.Kv.Metadata.{mark_segment_kv_missing, Disk}
use attemory.Persistent.{SessionStore, ModelCacheKey, MemoryRecord}
use attemory.Base.Int.{mem_ℤ, pos, leb_ℤ, ℤ}
use attemory.Base.Result.{ok}
use attemory.Planner.{
  Planned, initialize_empty_segment_plan, refresh_estimate, plan_memories, place_memory,
  segment_soft_limit, rebuild_segment_plan_fast,
}
use attemory.Base.Text.{is_empty-nil, is_empty, Bytes}
use attemory.Session.{MemoryInput, Segment, Session}
use attemory.Core.{Core}
use attemory.Base.{
  ◌≡◌, refl, sym, ap, ◌∙◌, inl, inr, true, false, List, [], ◌∷◌, ◌++◌, map, arith, Bool-cases,
}
use attemory.SessionAppend.{
  append_record, new_record, write_appended, append_memory_and_update_plan,
}

-- Planning the store from scratch succeeds with the segments that the session has.
abbrev pub Replans : Core → Bytes → Session → Type 0
Replans core key session =
    let r = rebuild_segment_plan_fast core true false (segment_soft_limit core) key session in
    (r.0 ≡ ok tt) × (r.1.segment_plan.segments ≡ session.segment_plan.segments)

-- What planning from scratch does to a session behind its tests.
rebuild-plan :
    (core : Core) (key : Bytes) (session : Session) (empty : ℤ)
    → core.kv_tokens session.store.system_text [] ≡ ok empty
    → leb_ℤ (segment_soft_limit core) (pos 0) ≡ false
    → let limit = segment_soft_limit core in
      let r = rebuild_segment_plan_fast core true false limit key session in
      let p =
        plan_memories core true false limit limit empty session.store [] []
          session.store.memories in
      (r.0 ≡ p.status) × (r.1.segment_plan.segments ≡ p.segments)
unfolding rebuild_segment_plan_fast plan_memories initialize_empty_segment_plan
rebuild-plan core key session empty counted fits =
    elim (Bool-cases (is_empty session.store.memories)) [
      | inl e ↦ let nothing = is_empty-nil session.store.memories e in rw (e, nothing) (refl, refl)
      | inr e ↦ rw (e, fits, counted) (refl, refl)
    ]

refresh_estimate-new_record :
    (core : Core) (idx : ℤ) (memory : MemoryInput) (tokens : ℤ)
    → core.text_tokens memory.text ≡ ok tokens
    → refresh_estimate core false (new_record core idx memory)
      ≡ ok (record (new_record core idx memory) { estimated_tokens = tokens })
unfolding refresh_estimate new_record
refresh_estimate-new_record core idx memory tokens h = elim (Bool-cases (leb_ℤ tokens (pos 0))) [
  | inl e ↦ rw (h, e) refl
  | inr e ↦ rw (h, e) refl
]

module _ (core : Core) (disk : Disk) (model_key : ModelCacheKey) (key : Bytes) (session : Session)
    (memory : MemoryInput) (empty tokens : ℤ) where
  abbrev limit : ℤ
  limit = segment_soft_limit core

  abbrev next : ℤ
  next = session.store.next_memory_idx

  abbrev rounds_of : SessionStore → List MemoryRecord → List Segment → List MemoryRecord → Planned
  rounds_of = plan_memories core true false limit limit empty

  abbrev m1 : MemoryRecord
  m1 = record (new_record core next memory) { estimated_tokens = tokens }

  -- The last round, on the records as the rounds before it have left them.
  last_round :
      (done : List MemoryRecord) (next' : ℤ) (all : List MemoryRecord) (segments' : List Segment)
      → core.text_tokens memory.text ≡ ok tokens
      → map facts done ≡ map facts session.store.memories
      → mem_ℤ next (planned session.segment_plan.segments) ≡ false
      → place_memory core true limit limit empty session.store session.segment_plan.segments m1
        ≡ ok segments'
      → let store' : SessionStore = record session.store {
        memories = all;
        next_memory_idx = next';
        system_locked = true;
      } in
        let p =
          rounds_of store' done session.segment_plan.segments (new_record core next memory ∷ []) in
        (p.status ≡ ok tt) × (p.segments ≡ segments')
  unfolding plan_memories new_record
  last_round done next' all segments' counted same new placed =
      let placed' =
        place_memory-snoc core limit limit empty session.store next' true all m1
          session.segment_plan.segments m1 done (done ++ m1 ∷ []) refl new
        ∙ place_memory-store core limit limit empty session.store done next
            session.store.system_locked session.segment_plan.segments m1
            (λ last back.
              texts_of-facts session.store (record session.store { memories = done }) same
                last.memory_indices)
        ∙ placed in
      rw (refresh_estimate-new_record core next memory tokens counted, placed') (refl, refl)

  written-Replans :
      (segments : List Segment) (segment : Segment)
      → core.kv_tokens session.store.system_text [] ≡ ok empty
      → core.text_tokens memory.text ≡ ok tokens
      → IsValidStore session.store
      → Replans core key session
      → leb_ℤ limit (pos 0) ≡ false
      → place_memory core true limit limit empty session.store session.segment_plan.segments m1
        ≡ ok segments
      → Replans core key (write_appended core disk model_key session memory segments segment)
  unfolding write_appended mark_segment_kv_missing append_record new_record mem_ℤ
  written-Replans segments segment counted counted' valid (planned_ok, same) fits placed =
      let s' = write_appended core disk model_key session memory segments segment in
      let (status, plan) = rebuild-plan core key session empty counted fits in
      let (status', plan') = rebuild-plan core key s' empty counted fits in
      let p = rounds_of session.store [] [] session.store.memories in
      let segments_same : p.segments ≡ session.segment_plan.segments = sym plan ∙ same in
      let (whole, facts_same) =
        plan_memories-Covers core true false limit limit empty session.store session.store.memories
          (sym status ∙ planned_ok) in
      let members = ap planned (sym segments_same) ∙ whole ∙ indices_of_facts _ _ facts_same in
      let new = next_is_new session.store valid in
      let (ended, left) =
        last_round p.memories s'.store.next_memory_idx s'.store.memories segments counted'
          facts_same (ap (mem_ℤ next) members ∙ new) placed in
      let run =
        plan_memories-snoc core limit limit empty session.store s'.store.next_memory_idx true
          s'.store.memories (new_record core next memory) [] [] session.store.memories refl new
          (sym status ∙ planned_ok)
        ∙ ap (λ segs. rounds_of s'.store p.memories segs (new_record core next memory ∷ []))
            segments_same in
      (
        status' ∙ ap (λ (r : Planned). r.status) run ∙ ended,
        plan' ∙ ap (λ (r : Planned). r.segments) run ∙ left,
      )

  -- A plan that is as planning from scratch makes it stays so: where that succeeds on the session
  -- with the session's own segments, and a memory is appended with success, planning the longer
  -- store from scratch succeeds with the segments that the append has left. The store is valid, and
  -- the core counts the tokens of the empty segment and of the memory alone.
  pub append_memory_and_update_plan-Replans :
      core.kv_tokens session.store.system_text [] ≡ ok empty
      → core.text_tokens memory.text ≡ ok tokens
      → IsValidStore session.store
      → Replans core key session
      → let a = append_memory_and_update_plan core disk model_key session memory in
        a.status ≡ ok tt → Replans core key a.session
  unfolding write_appended mark_segment_kv_missing append_record new_record
  append_memory_and_update_plan-Replans counted counted' valid replans done =
      let (fits, placed) =
        append_memory_and_update_plan-place core session memory empty counted tokens disk model_key
          done in
      elim (append_memory_and_update_plan-Outcome core disk model_key session memory) [
        | refused e r ↦ absurd (ground arith)
        | written segments segment _ _ r _ _ ↦
            rw r (
              written-Replans segments segment counted counted' valid replans fits (rw r at placed))
      ]
