-- ===== src/Kv/Status.antt =====
-- `SegmentKVManager::status` of src/context/kv/segment_kv_manager.cpp, and the two reports that count
-- with it: src/context/session/session_summary.cpp and src/context/session/session_status.cpp. Counts
-- are of at most 100 segments, so their `int32_t` is the number itself; sums of tokens are taken in
-- 64 bits.
pub mod Counts
use attemory.Base.Result.{ok, err}
use attemory.Planner.Prepare.{session_plan_ready}
use attemory.Session.{find_segment_kv_metadata, Session, Segment}
use attemory.Base.Text.{is_empty, bytes_eq, Bytes}
use attemory.Kv.Manager.{resident_segment_count, ContextKvState, ActiveSegmentKv}
use attemory.Kv.Handle.{
  segment_kv_base_token_count, segment_kv_has_live_context, segment_kv_has_snapshot_blob, Handle,
  Heap,
}
use attemory.Kv.Metadata.{empty_entry, kv_cache_state_exists, Disk}
use attemory.Persistent.{
  invalid, building, model_cache_key_equal, missing, resident, disk_only, KvCacheEntry,
  ModelCacheKey, SegmentCacheManifest, CacheState,
}
use attemory.Base.Int.{◌+ℤ◌, wrap, eqb_ℤ, pos, ltb_ℤ, ℤ}
use attemory.Kv.Resident
use attemory.Base.{
  ℕ, zero, suc, ◌+◌, ◌-◌, ◌*◌, ◌/◌, ◌%◌, ◌^◌, ◌≤◌, ◌<◌, ◌≡◌, refl, sym, ap, subst, ◌∙◌, ◌≢◌, ◌↔◌,
  ◌⊎◌, inl, inr, Bool, true, false, ◌&&◌, ◌||◌, not, Option, none, some, List, [], ◌∷◌, ◌++◌, map,
  arith, ltb, leb, ◌==◌, if◌then◌else◌, Bool-cases, Option-cases, length, All,
}

pub record SegmentKvStatus : Type 0 where
  pub segment_id : ℤ
  pub has_disk_snapshot : Bool
  pub has_resident_snapshot : Bool
  pub has_resident_state_blob : Bool
  pub has_live_context : Bool
  pub is_active : Bool
  pub token_count : ℤ
  pub bytes_on_disk : ℤ

abbrev on_disk_state : CacheState → Bool
on_disk_state disk_only = true
on_disk_state resident = true
on_disk_state missing = false
on_disk_state building = false
on_disk_state invalid = false

-- What the session's own record of the caches says.
unfoldable pub status_of_cache : Disk → ℤ → Option KvCacheEntry → SegmentKvStatus
status_of_cache disk segment_id none = record {
  segment_id = segment_id;
  has_disk_snapshot = false;
  has_resident_snapshot = false;
  has_resident_state_blob = false;
  has_live_context = false;
  is_active = false;
  token_count = pos 0;
  bytes_on_disk = pos 0;
}
status_of_cache disk segment_id (some cache) = record {
  segment_id = segment_id;
  has_disk_snapshot =
      not (is_empty cache.kv_path) && on_disk_state cache.state && kv_cache_state_exists disk cache;
  has_resident_snapshot = false;
  has_resident_state_blob = false;
  has_live_context = false;
  is_active = false;
  token_count = cache.token_count;
  bytes_on_disk = cache.bytes_on_disk;
}

unfoldable pub status_of_resident : Heap → Handle → SegmentKvStatus → SegmentKvStatus
status_of_resident heap none status = status
status_of_resident heap (some a) status = record status {
  has_resident_snapshot = true;
  has_resident_state_blob = segment_kv_has_snapshot_blob heap (some a);
  has_live_context = segment_kv_has_live_context heap (some a);
  token_count = wrap 32 (pos (segment_kv_base_token_count heap (some a)));
}

unfoldable pub is_active_segment : ActiveSegmentKv → Bytes → ℤ → Bool
is_active_segment active session_id segment_id = elim active.handle [
  | none ↦ false
  | some a ↦ bytes_eq active.session_id session_id && eqb_ℤ active.segment_id segment_id
]

-- `active` defaults to the active segment of the state.
unfoldable pub status :
    Disk → ContextKvState → Session → ℤ → Option ActiveSegmentKv → SegmentKvStatus
unfolding status_of_cache status_of_resident is_active_segment
status disk kv session segment_id active =
    let session_id = session.store.session_id in
    let known = status_of_cache disk segment_id (find_segment_kv_metadata session segment_id) in
    let seen = status_of_resident kv.heap (Resident.peek kv.resident session_id segment_id) known in
    record seen {
      is_active = elim active [
        | none ↦ is_active_segment kv.active_segment session_id segment_id
        | some given ↦ is_active_segment given session_id segment_id
      ];
    }

pub record SessionSummary : Type 0 where
  pub memory_count : ℕ
  pub segment_count : ℕ
  pub resident_segments : ℕ
  pub saved_segments : ℕ
  pub indexed_segments : ℕ

abbrev pub empty_summary : SessionSummary
empty_summary = record {
  memory_count = 0;
  segment_count = 0;
  resident_segments = 0;
  saved_segments = 0;
  indexed_segments = 0;
}

-- The three counters of the loops.
pub record KvCounts : Type 0 where
  pub resident_segments : ℕ
  pub indexed_segments : ℕ
  pub saved_segments : ℕ

abbrev one_if : Bool → ℕ
one_if b = if b then 1 else 0

abbrev pub count_status : SegmentKvStatus → KvCounts → KvCounts
count_status s counts = record {
  resident_segments = one_if s.has_resident_snapshot + counts.resident_segments;
  indexed_segments =
      one_if (s.has_resident_snapshot || s.has_disk_snapshot) + counts.indexed_segments;
  saved_segments = one_if s.has_disk_snapshot + counts.saved_segments;
}

unfoldable pub count_segments : (ℤ → SegmentKvStatus) → List Segment → KvCounts
count_segments status_of [] = record {
  resident_segments = 0;
  indexed_segments = 0;
  saved_segments = 0;
}
count_segments status_of (segment ∷ rest) =
    count_status (status_of segment.segment_id) (count_segments status_of rest)

unfoldable pub summarize_session : Disk → ContextKvState → Option Session → SessionSummary
unfolding count_segments
summarize_session disk kv none = empty_summary
summarize_session disk kv (some session) =
    let segments = session.segment_plan.segments in
    let counts = count_segments (λ id. status disk kv session id none) segments in
    record {
      memory_count = length session.store.memories;
      segment_count = length segments;
      resident_segments = counts.resident_segments;
      saved_segments = counts.saved_segments;
      indexed_segments = counts.indexed_segments;
    }

pub record SessionStatus : Type 0 where
  pub session_id : Bytes
  pub memory_count : ℕ
  pub segment_count : ℕ
  pub total_tokens : ℤ
  pub resident_segments : ℕ
  pub indexed_segments : ℕ
  pub saved_segments : ℕ
  pub indexed : Bool
  pub disk_cached : Bool
  pub plan_ready : Bool
  pub facts_dirty : Bool
  pub kv_persist : Bool

unfoldable pub count_valid_disk_cache_segments : Disk → List SegmentCacheManifest → ℕ
count_valid_disk_cache_segments disk [] = 0
count_valid_disk_cache_segments disk (segment ∷ rest) =
    one_if (kv_cache_state_exists disk (record empty_entry { kv_path = segment.kv_file }))
    + count_valid_disk_cache_segments disk rest

-- The sums run from the front.
unfoldable pub total_manifest_tokens : ℤ → List SegmentCacheManifest → ℤ
total_manifest_tokens total [] = total
total_manifest_tokens total (segment ∷ rest) =
    total_manifest_tokens
      (if ltb_ℤ (pos 0) segment.token_count then wrap 64 (total +ℤ segment.token_count) else total)
      rest

unfoldable pub total_planned_tokens : ℤ → List Segment → ℤ
total_planned_tokens total [] = total
total_planned_tokens total (segment ∷ rest) =
    total_planned_tokens
      (if ltb_ℤ (pos 0) segment.exact_tokens
        then wrap 64 (total +ℤ segment.exact_tokens)
        else if ltb_ℤ (pos 0) segment.estimated_tokens
        then wrap 64 (total +ℤ segment.estimated_tokens)
        else total)
      rest

-- The segments of the manifest, if that is readable and is this model's and this session's.
unfoldable pub load_session_cache_manifest :
    Disk → ModelCacheKey → Session → Option (List SegmentCacheManifest)
load_session_cache_manifest disk model_key session = elim disk.manifest [
  | err e ↦ none
  | ok manifest ↦
      if model_cache_key_equal manifest.model model_key
        && bytes_eq manifest.session_id session.store.session_id
      then some manifest.segments
      else none
]

-- Without a manifest all that is read of it is 0.
abbrev pub manifest_segments : Option (List SegmentCacheManifest) → List SegmentCacheManifest
manifest_segments none = []
manifest_segments (some segments) = segments

abbrev max : ℕ → ℕ → ℕ
max a b = if ltb a b then b else a

abbrev pub report : ModelCacheKey → Session → ℕ → ℤ → KvCounts → SessionStatus
report model_key session segment_count total_tokens counts = record {
  session_id = session.store.session_id;
  memory_count = length session.store.memories;
  segment_count = segment_count;
  total_tokens = total_tokens;
  resident_segments = counts.resident_segments;
  indexed_segments = counts.indexed_segments;
  saved_segments = counts.saved_segments;
  indexed = ltb 0 segment_count && (counts.indexed_segments == segment_count);
  disk_cached = ltb 0 segment_count && (counts.saved_segments == segment_count);
  plan_ready = session_plan_ready model_key session;
  facts_dirty = session.facts_dirty;
  kv_persist = session.store.kv_persist;
}

unfoldable pub build_session_status :
    Disk → ModelCacheKey → ContextKvState → Session → SessionStatus
unfolding count_segments count_valid_disk_cache_segments load_session_cache_manifest
    total_manifest_tokens total_planned_tokens
build_session_status disk model_key kv session =
    let manifest = manifest_segments (load_session_cache_manifest disk model_key session) in
    let segments = session.segment_plan.segments in
    let resident = resident_segment_count kv session.store.session_id in
    let saved = count_valid_disk_cache_segments disk manifest in
    if session_plan_ready model_key session
    then report model_key session (length segments) (total_planned_tokens (pos 0) segments)
        (count_segments (λ id. status disk kv session id none) segments)
    else report model_key session (length manifest) (total_manifest_tokens (pos 0) manifest)
        (record {
          resident_segments = resident;
          indexed_segments = max resident saved;
          saved_segments = saved;
        })
