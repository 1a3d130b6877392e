-- ===== src/Planner/Rounds.antt =====
-- Induction over the rounds of the planning loop.
use attemory.Base.Text.{is_empty-nil, is_empty, Bytes}
use attemory.Base.{false, ◌||◌, Bool-cases, ◌≡◌, refl, inl, inr, Bool, List, [], ◌∷◌, ◌++◌, arith}
use attemory.Base.Int.{pos, leb_ℤ, ℤ}
use attemory.Base.Result.{ResultStatus, ok, err, Result-cases}
use attemory.Core.{Core}
use attemory.Persistent.{MemoryRecord, SessionStore}
use attemory.Session.{Session, Segment}
use attemory.Planner.{
  write_planned, segment_soft_limit, initialize_empty_segment_plan, rebuild_segment_plan_fast,
  Planned, place_memory, plan_memories, refresh_estimate,
}

module _ (core : Core) (honor refresh : Bool) (soft fresh empty : ℤ) (store : SessionStore) where
  abbrev rounds : List MemoryRecord → List Segment → List MemoryRecord → Planned
  rounds = plan_memories core honor refresh soft fresh empty store

  -- A fact that every round keeps holds when the loop has ended well.
  pub plan_memories_done :
      (P : List MemoryRecord → List Segment → List MemoryRecord → Type 0)
      → ((done : List MemoryRecord) (segments : List Segment) (rest : List MemoryRecord)
            (m m' : MemoryRecord) (segments' : List Segment)
          → refresh_estimate core refresh m ≡ ok m'
          → place_memory core honor soft fresh empty
              (record store { memories = done ++ m' ∷ rest })
              segments
              m'
            ≡ ok segments'
          → P done segments (m ∷ rest)
          → P (done ++ m' ∷ []) segments' rest)
      → (done : List MemoryRecord) (segments : List Segment) (rest : List MemoryRecord)
      → P done segments rest
      → (rounds done segments rest).status ≡ ok tt
      → P (rounds done segments rest).memories (rounds done segments rest).segments []
  unfolding plan_memories
  plan_memories_done P keep done segments [] p h = p
  plan_memories_done P keep done segments (m ∷ rest) p h =
      elim (Result-cases (refresh_estimate core refresh m)) [
        | inr (e, failed) ↦ absurd (ground arith)
        | inl (m', counted) ↦
            elim (Result-cases (
              place_memory core honor soft fresh empty
                (record store { memories = done ++ m' ∷ rest }) segments m')) [
                  | inr (e, failed) ↦ absurd (ground arith)
                  | inl (segments', placed) ↦
                      rw (counted, placed)
                        (plan_memories_done P keep (done ++ m' ∷ []) segments' rest
                          (keep done segments rest m m' segments' counted placed p)
                          (rw (counted, placed) at h))
                ]
      ]

  -- A fact about the segments that every round keeps holds however the loop ends.
  pub plan_memories_segments :
      (P : List Segment → Type 0)
      → ((store' : SessionStore) (segments : List Segment) (m : MemoryRecord)
            (segments' : List Segment)
          → place_memory core honor soft fresh empty store' segments m ≡ ok segments'
          → store'.manual_segment_boundaries ≡ store.manual_segment_boundaries
          → P segments
          → P segments')
      → (done : List MemoryRecord) (segments : List Segment) (rest : List MemoryRecord) → P segments
      → P (rounds done segments rest).segments
  unfolding plan_memories
  plan_memories_segments P keep done segments [] p = p
  plan_memories_segments P keep done segments (m ∷ rest) p =
      elim (Result-cases (refresh_estimate core refresh m)) [
        | inr (e, failed) ↦ rw failed p
        | inl (m', counted) ↦
            let store' : SessionStore = record store { memories = done ++ m' ∷ rest } in
            elim (Result-cases (place_memory core honor soft fresh empty store' segments m')) [
              | inr (e, failed) ↦ rw (counted, failed) p
              | inl (segments', placed) ↦
                  rw (counted, placed)
                    (plan_memories_segments P keep (done ++ m' ∷ []) segments' rest
                      (keep store' segments m' segments' placed refl p))
            ]
      ]

-- The ways out of `rebuild_segment_plan_fast`.
pub rebuild_cases :
    (core : Core) (honor refresh : Bool) (fresh : ℤ) (model_key : Bytes) (session : Session)
    (P : ResultStatus × Session → Type 0)
    → let started = initialize_empty_segment_plan core model_key session in
      let store = session.store in
      (store.memories ≡ [] → P (ok tt, started))
      → ((e : Bytes) → is_empty session.store.memories ≡ false → P (err e, started))
      → ((empty : ℤ)
          → let p =
              plan_memories core honor refresh
                (segment_soft_limit core)
                fresh
                empty
                store
                []
                []
                store.memories in
            P (p.status, write_planned started p))
      → P (rebuild_segment_plan_fast core honor refresh fresh model_key session)
unfolding rebuild_segment_plan_fast
rebuild_cases core honor refresh fresh model_key session P none_case failed planned =
    elim (Bool-cases (is_empty session.store.memories)) [
      | inl e ↦ rw e (none_case (is_empty-nil _ e))
      | inr e ↦ elim (Bool-cases (leb_ℤ (segment_soft_limit core) (pos 0) || leb_ℤ fresh (pos 0))) [
        | inl e' ↦ rw (e, e') (failed _ e)
        | inr e' ↦ elim (Result-cases (core.kv_tokens session.store.system_text [])) [
          | inr (e'', f) ↦ rw (e, e', f) (failed e'' e)
          | inl (empty, f) ↦ rw (e, e', f) (planned empty)
        ]
      ]
    ]
