-- ===== src/Planner/Prepare/Covering.antt =====
-- What a successful preparation gives: a plan of all the memories, from the manifest or anew.
use attemory.Planner.{segment_soft_limit}
use attemory.Planner.Prepare.Failure.{restore_or_rebuild_cases}
use attemory.Base.Result.{Result-cases, ok}
use attemory.Planner.Restore.Sound.{restore_segment_plan-Covering, Covering}
use attemory.Base.Int.{mem_ℤ, Distinct}
use attemory.Kv.Metadata.{refresh_session_kv_metadata, Disk}
use attemory.Session.{clear_session_resident_kv_metadata, Session, Segment}
use attemory.Planner.Prepare.{restore_or_rebuild, drop_stale_plan, initialize_session_plan}
use attemory.Core.{Core}
use attemory.Persistent.{ModelCacheKey, indices, SessionStore, MemoryRecord}
use attemory.Base.{
  suc, ◌≡◌, refl, sym, ap, subst, ◌∙◌, inl, inr, true, false, List, [], ◌∷◌, map, arith, length,
}
use attemory.Planner.Partition.{rebuild_segment_plan_fast-partition, planned, facts}

length-indices : (ms : List MemoryRecord) → length (indices ms) ≡ length ms
length-indices [] = refl
length-indices (m ∷ ms) = ap suc (length-indices ms)

-- A plan that holds the indices in their order covers a store whose indices are distinct.
planned-Covering :
    (store : SessionStore) (segments : List Segment)
    → Distinct (indices store.memories)
    → planned segments ≡ indices store.memories
    → Covering store segments
planned-Covering store segments d e = record {
  distinct = rw e d;
  counted = ap length e ∙ length-indices store.memories;
  same_members = λ z. ap (mem_ℤ z) e;
}

restore_or_rebuild-Covering :
    (core : Core) (disk : Disk) (model_key : ModelCacheKey) (session : Session)
    → Distinct (indices session.store.memories)
    → let r = restore_or_rebuild core disk model_key session in
      r.0 ≡ ok tt
      → Covering session.store r.1.segment_plan.segments
        × (map facts r.1.store.memories ≡ map facts session.store.memories)
restore_or_rebuild-Covering core disk model_key session d =
    restore_or_rebuild_cases core disk model_key session
      (λ r.
        r.0 ≡ ok tt
        → Covering session.store r.1.segment_plan.segments
          × (map facts r.1.store.memories ≡ map facts session.store.memories))
      (λ restored _. elim (restore_segment_plan-Covering core disk model_key session) [
        | inl same ↦ absurd (ground arith)
        | inr (_, same, covering, _) ↦ (covering, ap (λ s. map facts s.memories) same)
      ])
      λ h.
        let (whole, same) =
          rebuild_segment_plan_fast-partition core true false (segment_soft_limit core)
            model_key.value session h in
        (planned-Covering session.store _ d whole, same)

store-drop_stale_plan :
    (model_key : ModelCacheKey) (session : Session)
    → (drop_stale_plan model_key session).store ≡ session.store
unfolding drop_stale_plan clear_session_resident_kv_metadata
store-drop_stale_plan model_key session = ground arith

-- When `initialize_session_plan` succeeds on a session whose memory indices are distinct, each
-- memory of the store is in exactly one segment and the plan holds nothing else, and the records
-- are unchanged but for their token estimates, whatever plan the session had, the core and the disk.
pub initialize_session_plan-Covering :
    (core : Core) (disk : Disk) (model_key : ModelCacheKey) (session : Session)
    → Distinct (indices session.store.memories)
    → let r = initialize_session_plan core disk model_key session in
      r.0 ≡ ok tt
      → Covering session.store r.1.segment_plan.segments
        × (map facts r.1.store.memories ≡ map facts session.store.memories)
unfolding initialize_session_plan
initialize_session_plan-Covering core disk model_key session d h =
    let fresh = drop_stale_plan model_key session in
    let same = store-drop_stale_plan model_key session in
    elim (Result-cases (restore_or_rebuild core disk model_key fresh).0) [
      | inr (e, failed) ↦ absurd (ground arith)
      | inl (_, good) ↦ rw good (
          unfold refresh_session_kv_metadata in
          subst
            (λ store.
              Covering store (restore_or_rebuild core disk model_key fresh).1.segment_plan.segments
              × (map facts (restore_or_rebuild core disk model_key fresh).1.store.memories
                  ≡ map facts store.memories))
            same
            (restore_or_rebuild-Covering core disk model_key fresh
              (subst (λ store. Distinct (indices store.memories)) (sym same) d) good))
    ]
