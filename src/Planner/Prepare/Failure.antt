-- ===== src/Planner/Prepare/Failure.antt =====
-- What a failed preparation leaves behind.
use attemory.Planner.Place.{place_memory-Placed}
use attemory.Planner.Restore.Sound.{restore_segment_plan-Covering}
use attemory.Planner.Rounds.{rebuild_cases}
use attemory.Base.Result.{Result-cases, ok, err, ResultStatus}
use attemory.Kv.Metadata.{Disk}
use attemory.Session.{Segment, Session}
use attemory.Planner.Restore.{restore_segment_plan_from_cache_manifest}
use attemory.Base.Text.{is_empty, bytes_eq_self, Bytes}
use attemory.Persistent.{MemoryRecord, SessionStore, ModelCacheKey}
use attemory.Base.Int.{ℤ}
use attemory.Core.{Core}
use attemory.Planner.{
  place_memory, refresh_estimate, segment_soft_limit, initialize_empty_segment_plan,
  rebuild_segment_plan_fast, plan_memories,
}
use attemory.Planner.Prepare.{
  drop_stale_plan, initialize_session_plan, prepare_session_plan, restore_or_rebuild,
  session_plan_ready,
}
use attemory.Base.{
  length-append, ◌<◌, ◌≡◌, refl, ap, subst, inl, inr, Bool, true, false, List, [], ◌∷◌, ◌++◌, arith,
  Bool-cases, length,
}
use attemory.Planner.Partition.{Placed-planned, planned}

-- However planning ends, the session is then marked as planned for the model.
rebuild_segment_plan_fast_ready :
    (core : Core) (honor refresh : Bool) (fresh : ℤ) (model_key : ModelCacheKey) (session : Session)
    → session_plan_ready model_key
        (rebuild_segment_plan_fast core honor refresh fresh model_key.value session).1
      ≡ true
unfolding session_plan_ready
rebuild_segment_plan_fast_ready core honor refresh fresh model_key session =
    rebuild_cases core honor refresh fresh model_key.value session
      (λ r. session_plan_ready model_key r.1 ≡ true) (λ e. ready) (λ e _. ready) (λ empty. ready)
  where
    ready :
        session_plan_ready model_key (initialize_empty_segment_plan core model_key.value session)
        ≡ true
    ready =
        unfold initialize_empty_segment_plan in
        rw (bytes_eq_self session.store.session_id, bytes_eq_self model_key.value)

-- A loop that fails has planned fewer memories than there are.
plan_memories_failed :
    (core : Core) (honor refresh : Bool) (soft fresh empty : ℤ) (store : SessionStore)
    (done : List MemoryRecord) (segments : List Segment) (rest : List MemoryRecord) (e : Bytes)
    → length (planned segments) ≡ length done
    → let p = plan_memories core honor refresh soft fresh empty store done segments rest in
      p.status ≡ err e → length (planned p.segments) < length p.memories
unfolding plan_memories
plan_memories_failed core honor refresh soft fresh empty store done segments [] e same h =
    absurd (cc)
plan_memories_failed core honor refresh soft fresh empty store done segments (m ∷ rest) e same h =
    elim (Result-cases (refresh_estimate core refresh m)) [
      | inr (e', failed) ↦ rw failed (omega (arith, length-append done (m ∷ rest)))
      | inl (m', counted) ↦
          let store' : SessionStore = record store { memories = done ++ m' ∷ rest } in
          elim (Result-cases (place_memory core honor soft fresh empty store' segments m')) [
            | inr (e', failed) ↦
                rw (counted, failed) (omega (arith, length-append done (m' ∷ rest)))
            | inl (segments', placed) ↦
                rw (counted, placed)
                  (plan_memories_failed core honor refresh soft fresh empty store (done ++ m' ∷ [])
                    segments' rest e
                    (omega (
                      arith,
                      same,
                      ap length (
                          Placed-planned (
                            place_memory-Placed core honor soft fresh empty store' segments m'
                              segments' placed)),
                      length-append (planned segments) (m'.memory_idx ∷ []),
                      length-append done (m' ∷ []),
                    ))
                    (rw (counted, placed) at h))
          ]
    ]

-- Where planning fails the store has memories, and some are in no segment.
rebuild_segment_plan_fast_failed :
    (core : Core) (honor refresh : Bool) (fresh : ℤ) (model_key : Bytes) (session : Session)
    (e : Bytes)
    → let r = rebuild_segment_plan_fast core honor refresh fresh model_key session in
      r.0 ≡ err e → length (planned r.1.segment_plan.segments) < length r.1.store.memories
unfolding is_empty
rebuild_segment_plan_fast_failed core honor refresh fresh model_key session e =
    rebuild_cases core honor refresh fresh model_key session
      (λ r. r.0 ≡ err e → length (planned r.1.segment_plan.segments) < length r.1.store.memories)
      (λ none_there h. absurd (ground arith))
      (λ e' some_there h.
        unfold initialize_empty_segment_plan in positive session.store.memories some_there)
      λ empty h.
        plan_memories_failed core honor refresh _ fresh empty session.store [] []
          session.store.memories e refl h
  where
    positive : (ms : List MemoryRecord) → is_empty ms ≡ false → 0 < length ms
    positive [] h = absurd (cc)
    positive (m ∷ ms) h = omega arith

pub restore_or_rebuild_cases :
    (core : Core) (disk : Disk) (model_key : ModelCacheKey) (session : Session)
    (P : ResultStatus × Session → Type 0)
    → let r = restore_segment_plan_from_cache_manifest core disk model_key session in
      (r.1 ≡ true → P (ok tt, r.0))
      → P (
          rebuild_segment_plan_fast core true false
            (segment_soft_limit core)
            model_key.value
            session)
      → P (restore_or_rebuild core disk model_key session)
unfolding restore_or_rebuild
restore_or_rebuild_cases core disk model_key session P restored rebuilt =
    elim (Bool-cases (restore_segment_plan_from_cache_manifest core disk model_key session).1) [
      | inl e ↦ rw e (restored e)
      | inr e ↦ elim (restore_segment_plan-Covering core disk model_key session) [
        | inl same ↦ rw (same) rebuilt
        | inr (done, _, _, _) ↦ absurd (cc)
      ]
    ]

-- A session as a failed planning leaves it.
abbrev IsLeft : ModelCacheKey → Session → Type 0
IsLeft model_key s =
    (session_plan_ready model_key s ≡ true)
    × (length (planned s.segment_plan.segments) < length s.store.memories)

restore_or_rebuild_failed :
    (core : Core) (disk : Disk) (model_key : ModelCacheKey) (session : Session) (e : Bytes)
    → (restore_or_rebuild core disk model_key session).0 ≡ err e
    → IsLeft model_key (restore_or_rebuild core disk model_key session).1
restore_or_rebuild_failed core disk model_key session e =
    restore_or_rebuild_cases core disk model_key session (λ r. r.0 ≡ err e → IsLeft model_key r.1)
      (λ _ h. absurd (ground arith))
      λ h. (
        rebuild_segment_plan_fast_ready core true false (segment_soft_limit core) model_key session,
        rebuild_segment_plan_fast_failed core true false (segment_soft_limit core) model_key.value
            session e h,
      )

initialize_session_plan_failed :
    (core : Core) (disk : Disk) (model_key : ModelCacheKey) (session session' : Session) (e : Bytes)
    → initialize_session_plan core disk model_key session ≡ (err e, session')
    → IsLeft model_key session'
unfolding initialize_session_plan
initialize_session_plan_failed core disk model_key session session' e h =
    let fresh = drop_stale_plan model_key session in
    elim (Result-cases (restore_or_rebuild core disk model_key fresh).0) [
      | inl (_, good) ↦ absurd (ground arith)
      | inr (e', failed) ↦
          let same : (restore_or_rebuild core disk model_key fresh).1 ≡ session' = ground arith in
          subst (IsLeft model_key) same
            (restore_or_rebuild_failed core disk model_key fresh e' failed)
    ]

-- When `prepare_session_plan` fails, some memory of the session is in no segment, and yet the next
-- call of `prepare_session_plan` for the same model succeeds at once, on any core and disk, and
-- leaves the session with that plan.
pub prepare_session_plan_after_failure :
    (core core' : Core) (disk disk' : Disk) (model_key : ModelCacheKey) (session session' : Session)
    (e : Bytes)
    → prepare_session_plan core disk model_key session ≡ (err e, session')
    → (length (planned session'.segment_plan.segments) < length session'.store.memories)
      × (prepare_session_plan core' disk' model_key session' ≡ (ok tt, session'))
unfolding prepare_session_plan
prepare_session_plan_after_failure core core' disk disk' model_key session session' e h =
    elim (Bool-cases (session_plan_ready model_key session)) [
      | inl ready ↦ absurd (ground arith)
      | inr stale ↦
          let (ready, few) =
            initialize_session_plan_failed core disk model_key session session' e (rw stale at h) in
          (few, rw ready)
    ]
