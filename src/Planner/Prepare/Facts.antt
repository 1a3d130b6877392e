-- ===== src/Planner/Prepare/Facts.antt =====
-- Planning changes nothing that the user has said: of the store only the estimates, whatever happens.
use attemory.Planner.Rounds.{rebuild_cases}
use attemory.Base.Result.{Result-cases}
use attemory.Base.Text.{bytes_eq, is_empty, Bytes}
use attemory.Base.Int.{ℤ}
use attemory.Kv.Metadata.{refresh_session_kv_metadata, Disk}
use attemory.Planner.Partition.{refresh_estimate-facts, facts}
use attemory.Planner.Prepare.{
  session_plan_ready, prepare_session_plan, initialize_session_plan, drop_stale_plan,
  restore_or_rebuild,
}
use attemory.Planner.{
  place_memory, refresh_estimate, rebuild_segment_plan_fast, plan_memories,
  initialize_empty_segment_plan,
}
use attemory.Core.{Core}
use attemory.Planner.Restore.{manifest_plan, Check-cases, restore_segment_plan_from_cache_manifest}
use attemory.Session.{Segment, clear_session_resident_kv_metadata, Session}
use attemory.Persistent.{MemoryRecord, ModelCacheKey, SessionStore}
use mathlib.Core.List.{append_assoc, append-nil, map-append}
use attemory.Base.{
  ◌≡◌, refl, sym, ap, ◌∙◌, inl, inr, Bool, true, false, ◌&&◌, not, List, [], ◌∷◌, ◌++◌, map,
  Bool-cases,
}

-- A store without the estimates of its records.
abbrev pub facts_store : SessionStore → SessionStore
facts_store store = record store { memories = map facts store.memories }

abbrev SameFacts : Session → Session → Type 0
SameFacts session session' = facts_store session'.store ≡ facts_store session.store

restore-SameFacts :
    (core : Core) (disk : Disk) (model_key : ModelCacheKey) (session : Session)
    → (restore_segment_plan_from_cache_manifest core disk model_key session).0.store ≡ session.store
unfolding restore_segment_plan_from_cache_manifest initialize_empty_segment_plan
restore-SameFacts core disk model_key session =
    elim (Bool-cases (is_empty session.store.memories)) [
      | inl e ↦ rw e refl
      | inr e ↦ elim (Result-cases disk.manifest) [
        | inr (x, f) ↦ rw (e, f) refl
        | inl (m, f) ↦ elim (Check-cases (manifest_plan core model_key session.store m)) [
          | inl (segments, g) ↦ rw (e, f, g) refl
          | inr (s, g) ↦ rw (e, f, g) refl
        ]
      ]
    ]

module _ (core : Core) (honor refresh : Bool) (soft fresh empty : ℤ) (store : SessionStore) where
  plan_memories-facts :
      (done : List MemoryRecord) (segments : List Segment) (rest : List MemoryRecord)
      → map facts
          (plan_memories core honor refresh soft fresh empty store done segments rest).memories
        ≡ map facts done ++ map facts rest
  unfolding plan_memories
  plan_memories-facts done segments [] = sym (append-nil (map facts done))
  plan_memories-facts done segments (m ∷ rest) =
      elim (Result-cases (refresh_estimate core refresh m)) [
        | inr (e, f) ↦ rw (f, map-append) refl
        | inl (m', f) ↦
            let store' : SessionStore = record store { memories = done ++ m' ∷ rest } in
            let same = refresh_estimate-facts core refresh m m' f in
            elim (Result-cases (place_memory core honor soft fresh empty store' segments m')) [
              | inr (e, g) ↦ rw (f, g, map-append) (rw same refl)
              | inl (segments', g) ↦
                  rw (f, g)
                    (plan_memories-facts (done ++ m' ∷ []) segments' rest
                      ∙ rw (map-append, same, append_assoc) refl)
            ]
      ]

rebuild-SameFacts :
    (core : Core) (honor refresh : Bool) (fresh : ℤ) (key : Bytes) (session : Session)
    → SameFacts session (rebuild_segment_plan_fast core honor refresh fresh key session).1
unfolding initialize_empty_segment_plan
rebuild-SameFacts core honor refresh fresh key session =
    rebuild_cases core honor refresh fresh key session (λ r. SameFacts session r.1) (λ e. refl)
      (λ e _. refl)
      (λ empty.
        ap (λ (ms : List MemoryRecord). record session.store { memories = ms })
          (plan_memories-facts core honor refresh _ fresh empty session.store [] []
            session.store.memories))

restore_or_rebuild-SameFacts :
    (core : Core) (disk : Disk) (model_key : ModelCacheKey) (session : Session)
    → SameFacts session (restore_or_rebuild core disk model_key session).1
unfolding restore_or_rebuild
restore_or_rebuild-SameFacts core disk model_key session =
    let r = restore_segment_plan_from_cache_manifest core disk model_key session in
    let same = ap facts_store (restore-SameFacts core disk model_key session) in
    elim (Bool-cases r.1) [
      | inl e ↦ rw e same
      | inr e ↦ rw e (rebuild-SameFacts core true false _ model_key.value r.0 ∙ same)
    ]

drop_stale_plan-SameFacts :
    (model_key : ModelCacheKey) (session : Session)
    → SameFacts session (drop_stale_plan model_key session)
unfolding drop_stale_plan clear_session_resident_kv_metadata
drop_stale_plan-SameFacts model_key session =
    let key = session.segment_plan.config.model_cache_key in
    elim (Bool-cases (not (is_empty key) && not (bytes_eq key model_key.value))) [
      | inl e ↦ rw e refl
      | inr e ↦ rw e refl
    ]

-- `initialize_session_plan` and `prepare_session_plan`, whether they succeed or fail, leave the
-- store as it is but for the estimates of its records.
pub initialize_session_plan-SameFacts :
    (core : Core) (disk : Disk) (model_key : ModelCacheKey) (session : Session)
    → SameFacts session (initialize_session_plan core disk model_key session).1
unfolding initialize_session_plan refresh_session_kv_metadata
initialize_session_plan-SameFacts core disk model_key session =
    let dropped = drop_stale_plan model_key session in
    let same =
      restore_or_rebuild-SameFacts core disk model_key dropped
      ∙ drop_stale_plan-SameFacts model_key session in
    elim (Result-cases (restore_or_rebuild core disk model_key dropped).0) [
      | inl (u, e) ↦ rw e same
      | inr (x, e) ↦ rw e same
    ]

pub prepare_session_plan-SameFacts :
    (core : Core) (disk : Disk) (model_key : ModelCacheKey) (session : Session)
    → SameFacts session (prepare_session_plan core disk model_key session).1
unfolding prepare_session_plan
prepare_session_plan-SameFacts core disk model_key session =
    elim (Bool-cases (session_plan_ready model_key session)) [
      | inl e ↦ rw e refl
      | inr e ↦ rw e (initialize_session_plan-SameFacts core disk model_key session)
    ]
