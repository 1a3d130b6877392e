-- ===== src/Planner/Prepare.antt =====
-- `initialize_session_plan` and `prepare_session_plan` of
-- src/context/session/segment_planner.cpp, which every command on a session's segments runs.
pub mod Failure
pub mod Covering
pub mod Facts
use attemory.Base.Text.{is_empty, bytes_eq}
use attemory.Base.Result.{ok, err, on_result, ResultStatus}
use attemory.Planner.{segment_soft_limit, rebuild_segment_plan_fast}
use attemory.Core.{Core}
use attemory.Persistent.{ModelCacheKey}
use attemory.Kv.Metadata.{Disk, refresh_session_kv_metadata}
use attemory.Planner.Restore.{restore_segment_plan_from_cache_manifest}
use attemory.Session.{Session, empty_plan, clear_session_resident_kv_metadata}
use attemory.Base.{Bool, true, false, ◌&&◌, not, [], if◌then◌else◌}

-- A plan that was made for another model goes, with what is known of its caches.
unfoldable pub drop_stale_plan : ModelCacheKey → Session → Session
drop_stale_plan model_key session =
    let planned_key = session.segment_plan.config.model_cache_key in
    if not (is_empty planned_key) && not (bytes_eq planned_key model_key.value)
    then record (clear_session_resident_kv_metadata session) {
      segment_kv_metadata = [];
      segment_plan = empty_plan;
    }
    else session

-- The plan of a session, from the manifest or anew.
unfoldable pub restore_or_rebuild : Core → Disk → ModelCacheKey → Session → ResultStatus × Session
restore_or_rebuild core disk model_key session =
    let (session', restored) =
      restore_segment_plan_from_cache_manifest core disk model_key session in
    if restored
    then (ok tt, session')
    else rebuild_segment_plan_fast core true false (segment_soft_limit core) model_key.value
        session'

unfoldable pub initialize_session_plan :
    Core → Disk → ModelCacheKey → Session → ResultStatus × Session
initialize_session_plan core disk model_key session =
    let r = restore_or_rebuild core disk model_key (drop_stale_plan model_key session) in
    on_result r.0 (λ e. (err e, r.1)) (λ _. (ok tt, refresh_session_kv_metadata disk model_key r.1))

unfoldable pub session_plan_ready : ModelCacheKey → Session → Bool
session_plan_ready model_key session =
    bytes_eq session.segment_plan.session_id session.store.session_id
    && bytes_eq session.segment_plan.config.model_cache_key model_key.value

unfoldable pub prepare_session_plan : Core → Disk → ModelCacheKey → Session → ResultStatus × Session
prepare_session_plan core disk model_key session =
    if session_plan_ready model_key session
    then (ok tt, session)
    else initialize_session_plan core disk model_key session
