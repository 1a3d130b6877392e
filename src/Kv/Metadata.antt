-- ===== src/Kv/Metadata.antt =====
-- src/context/kv/segment_kv_metadata.cpp: what a session knows of the caches of its segments. The
-- manifest on disk, the existence of files and the paths of a cache layout come from outside.
pub mod States
use attemory.Kv.ContentHash.{segment_kv_content_hash}
use attemory.Session.{Segment, Session}
use attemory.Base.Text.{bytes_eq, is_empty, Bytes}
use attemory.Base.Int.{eqb_ℤ, negsuc, pos, ℤ}
use attemory.Base.Result.{ok, err, Result}
use attemory.Base.{◌&&◌, false, some, none, ◌∷◌, if◌then◌else◌, [], Option, List, Bool}
use attemory.Persistent.{
  model_cache_key_equal, SegmentCacheManifest, SessionStore, CacheManifest, CacheState,
  ModelCacheKey, KvCacheEntry, missing, building, resident, disk_only, invalid,
}

-- One session's part of the cache directory, as it is during one call.
pub record Disk : Type 0 where
  -- `load_kv_cache_manifest(layout, manifest)`
  pub manifest : Result CacheManifest
  -- `std::filesystem::exists(path, ec) && !ec`
  pub file_exists : Bytes → Bool
  -- `cache_segment_kv_path(layout, segment_id).string()`
  pub segment_kv_path : ℤ → Bytes
  -- `cache_segment_search_cache_path(layout, segment_id).string()`
  pub segment_search_cache_path : ℤ → Bytes

unfoldable pub kv_cache_state_exists : Disk → KvCacheEntry → Bool
kv_cache_state_exists disk cache =
    if is_empty cache.kv_path then false else disk.file_exists cache.kv_path

abbrev pub empty_model_key : ModelCacheKey
empty_model_key = record {
  value = [];
  vendor = [];
  model_desc = [];
  model_name = [];
  backend = [];
  template_hash = [];
  kv_type_k = [];
  kv_type_v = [];
}

-- `KVCacheEntry cache;`
abbrev pub empty_entry : KvCacheEntry
empty_entry = record {
  key = record {
    model = empty_model_key;
    session_id = [];
    segment_id = negsuc 0;
    segment_content_hash = [];
  };
  state = missing;
  kv_path = [];
  search_cache_path = [];
  token_count = pos 0;
  bytes_on_disk = pos 0;
  bytes_in_memory = pos 0;
  created_at_ms = pos 0;
  last_access_ms = pos 0;
}

-- `f(metadata[segment_id])`: the entry is made where it is missing.
unfoldable pub update_metadata :
    ℤ → (KvCacheEntry → KvCacheEntry) → List (ℤ × KvCacheEntry) → List (ℤ × KvCacheEntry)
update_metadata segment_id f [] = (segment_id, f empty_entry) ∷ []
update_metadata segment_id f ((k, entry) ∷ rest) =
    if eqb_ℤ k segment_id
    then (k, f entry) ∷ rest
    else (k, entry) ∷ update_metadata segment_id f rest

unfoldable pub initialize_segment_kv_metadata :
    Disk → ModelCacheKey → SessionStore → Segment → KvCacheEntry → KvCacheEntry
initialize_segment_kv_metadata disk model_key store segment cache = record cache {
  key = record {
    model = model_key;
    session_id = store.session_id;
    segment_id = segment.segment_id;
    segment_content_hash = segment_kv_content_hash store segment;
  };
  kv_path = disk.segment_kv_path segment.segment_id;
  search_cache_path = disk.segment_search_cache_path segment.segment_id;
}

abbrev pub missing_entry : KvCacheEntry → KvCacheEntry
missing_entry cache = record cache {
  state = missing;
  token_count = pos 0;
  bytes_on_disk = pos 0;
  bytes_in_memory = pos 0;
  created_at_ms = pos 0;
  last_access_ms = pos 0;
}

unfoldable pub mark_segment_kv_missing : Disk → ModelCacheKey → Session → Segment → Session
unfolding initialize_segment_kv_metadata update_metadata
mark_segment_kv_missing disk model_key session segment = record session {
  segment_kv_metadata =
      update_metadata segment.segment_id
        (λ cache.
          missing_entry (initialize_segment_kv_metadata disk model_key session.store segment cache))
        session.segment_kv_metadata;
}

-- `manifest_by_segment[segment.segment_id] = segment` in the order of the manifest, read at an id.
unfoldable pub manifest_for : List SegmentCacheManifest → ℤ → Option SegmentCacheManifest
manifest_for [] segment_id = none
manifest_for (m ∷ ms) segment_id = elim (manifest_for ms segment_id) [
  | some later ↦ some later
  | none ↦ if eqb_ℤ m.segment_id segment_id then some m else none
]

-- The manifest's segments, if it is readable and is this model's and this session's.
unfoldable pub usable_manifest : Disk → ModelCacheKey → Bytes → List SegmentCacheManifest
usable_manifest disk model_key session_id = elim disk.manifest [
  | err e ↦ []
  | ok manifest ↦
      if model_cache_key_equal manifest.model model_key && bytes_eq manifest.session_id session_id
      then manifest.segments
      else []
]

-- `cache.state != Resident` becomes the given state.
abbrev pub unless_resident : CacheState → CacheState → CacheState
unless_resident resident state = resident
unless_resident missing state = state
unless_resident building state = state
unless_resident disk_only state = state
unless_resident invalid state = state

abbrev or_else : Bytes → Bytes → Bytes
or_else a b = if is_empty a then b else a

-- The body of the loop of `refresh_segment_kv_metadata_with_layout`, behind the initialisation.
unfoldable pub refresh_entry : Disk → Option SegmentCacheManifest → KvCacheEntry → KvCacheEntry
unfolding kv_cache_state_exists
refresh_entry disk none cache = record cache { state = unless_resident cache.state missing }
refresh_entry disk (some m) cache =
    let kv_path = or_else m.kv_file cache.kv_path in
    if bytes_eq m.segment_content_hash cache.key.segment_content_hash
      && kv_cache_state_exists disk (record cache { kv_path = kv_path })
    then record cache {
      kv_path = kv_path;
      search_cache_path = or_else m.search_cache_file cache.search_cache_path;
      token_count = m.token_count;
      bytes_on_disk = m.bytes;
      created_at_ms = m.created_at_ms;
      last_access_ms = m.last_access_ms;
      state = unless_resident cache.state disk_only;
    }
    else record cache { state = unless_resident cache.state missing }

unfoldable pub refresh_segments :
    Disk
    → ModelCacheKey
    → SessionStore
    → List SegmentCacheManifest
    → List Segment
    → List (ℤ × KvCacheEntry)
    → List (ℤ × KvCacheEntry)
unfolding initialize_segment_kv_metadata update_metadata manifest_for refresh_entry
refresh_segments disk model_key store manifest [] metadata = metadata
refresh_segments disk model_key store manifest (segment ∷ rest) metadata =
    refresh_segments disk model_key store manifest rest (
      update_metadata segment.segment_id
        (λ cache.
          refresh_entry disk (manifest_for manifest segment.segment_id)
            (initialize_segment_kv_metadata disk model_key store segment cache))
        metadata)

unfoldable pub refresh_session_kv_metadata : Disk → ModelCacheKey → Session → Session
unfolding refresh_segments usable_manifest
refresh_session_kv_metadata disk model_key session = record session {
  segment_kv_metadata =
      refresh_segments disk model_key session.store
        (usable_manifest disk model_key session.store.session_id) session.segment_plan.segments
        session.segment_kv_metadata;
}
