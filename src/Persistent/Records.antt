-- ===== src/Persistent/Records.antt =====
-- The bytes of the records on disk: src/persistent/session_persistence.cpp and
-- src/persistent/kv_cache_persistence.cpp.
pub mod RoundTrip
use attemory.Base.Text.{Bytes}
use attemory.Persistent.{
  empty_store, CacheManifest, SegmentCacheManifest, ModelCacheKey, SessionStore, MemoryRecord,
}
use attemory.Base.{
  ℕ, zero, suc, ◌+◌, ◌-◌, ◌*◌, ◌/◌, ◌%◌, ◌^◌, ◌≤◌, ◌<◌, ◌≡◌, refl, sym, ap, subst, ◌∙◌, ◌≢◌, ◌↔◌,
  ◌⊎◌, inl, inr, Bool, true, false, ◌&&◌, ◌||◌, not, Option, none, some, List, [], ◌∷◌, ◌++◌, map,
  arith, ltb, leb, ◌==◌, if◌then◌else◌, Bool-cases, Option-cases, length, All,
}
use attemory.Persistent.Binary.{
  write_i64_vector, read_i64_vector, write_each, fail, write_bool, write_i32, write_string, give,
  write_pod, read_bool, write_i64, read_i32, read_string, read_pod, read_i64, Reader, ◌>>=◌,
}

abbrev pub session_store_magic : ℕ
session_store_magic = 1095586609

abbrev pub session_memories_magic : ℕ
session_memories_magic = 1095585073

abbrev pub max_session_memory_records : ℕ
max_session_memory_records = 1000000

unfoldable pub write_memory_record : MemoryRecord → Bytes
write_memory_record m =
    write_i64 m.memory_idx
    ++ write_bool m.has_id
    ++ write_string m.id
    ++ write_string m.text
    ++ write_i32 m.estimated_tokens

unfoldable pub read_memory_record : ℕ → Reader MemoryRecord
read_memory_record version = do
  memory_idx ← read_i64
  if version == 1
      then (do
        has_id ← read_bool
        id ← read_string
        text ← read_string
        estimated_tokens ← read_i32
        give (record {
          memory_idx = memory_idx;
          has_id = has_id;
          id = id;
          text = text;
          estimated_tokens = estimated_tokens;
        }))
      else fail

unfoldable pub store_metadata_bytes : SessionStore → Bytes
store_metadata_bytes store =
    write_pod 4 session_store_magic
    ++ write_pod 4 2
    ++ write_pod 4 store.schema_version
    ++ write_string store.session_id
    ++ write_string store.system_text
    ++ write_bool store.system_locked
    ++ write_bool store.kv_persist
    ++ write_i64 store.next_memory_idx
    ++ write_i64_vector store.manual_segment_boundaries
    ++ write_pod 8 (length store.memories)

unfoldable pub store_memories_bytes : SessionStore → Bytes
store_memories_bytes store =
    write_pod 4 session_memories_magic
    ++ write_pod 4 1
    ++ write_each write_memory_record store.memories

unfoldable pub read_header : Reader (ℕ × ℕ)
read_header = do magic ← read_pod 4; version ← read_pod 4; give (magic, version)

-- The fields behind the header; the first version has no `kv_persist`.
unfoldable pub read_store_body : ℕ → Reader (SessionStore × ℕ)
read_store_body version = do
  schema_version ← read_pod 4
  session_id ← read_string
  system_text ← read_string
  system_locked ← read_bool
  kv_persist ← (if leb 2 version then read_bool else give false)
  next_memory_idx ← read_i64
  boundaries ← read_i64_vector
  memory_count ← read_pod 8
  give (
    record empty_store {
      schema_version = schema_version;
      session_id = session_id;
      system_text = system_text;
      system_locked = system_locked;
      kv_persist = kv_persist;
      next_memory_idx = next_memory_idx;
      manual_segment_boundaries = boundaries;
    },
    memory_count,
  )

-- The cache manifest.
abbrev pub cache_manifest_magic : ℕ
cache_manifest_magic = 1095582513

abbrev pub max_cache_manifest_segments : ℕ
max_cache_manifest_segments = 1000000

unfoldable pub write_model_key : ModelCacheKey → Bytes
write_model_key key =
    write_string key.value
    ++ write_string key.vendor
    ++ write_string key.model_desc
    ++ write_string key.model_name
    ++ write_string key.backend
    ++ write_string key.template_hash
    ++ write_string key.kv_type_k
    ++ write_string key.kv_type_v

unfoldable pub read_model_key : Reader ModelCacheKey
read_model_key = do
  value ← read_string
  vendor ← read_string
  model_desc ← read_string
  model_name ← read_string
  backend ← read_string
  template_hash ← read_string
  kv_type_k ← read_string
  kv_type_v ← read_string
  give (record {
    value = value;
    vendor = vendor;
    model_desc = model_desc;
    model_name = model_name;
    backend = backend;
    template_hash = template_hash;
    kv_type_k = kv_type_k;
    kv_type_v = kv_type_v;
  })

unfoldable pub write_segment : SegmentCacheManifest → Bytes
write_segment s =
    write_i32 s.segment_id
    ++ write_i64 s.first_memory_idx
    ++ write_i64 s.last_memory_idx_exclusive
    ++ write_string s.segment_content_hash
    ++ write_string s.kv_file
    ++ write_string s.search_cache_file
    ++ write_i32 s.token_count
    ++ write_i64 s.bytes
    ++ write_i64 s.created_at_ms
    ++ write_i64 s.last_access_ms

unfoldable pub read_segment : Reader SegmentCacheManifest
read_segment = do
  segment_id ← read_i32
  first_memory_idx ← read_i64
  last_memory_idx_exclusive ← read_i64
  segment_content_hash ← read_string
  kv_file ← read_string
  search_cache_file ← read_string
  token_count ← read_i32
  bytes ← read_i64
  created_at_ms ← read_i64
  last_access_ms ← read_i64
  give (record {
    segment_id = segment_id;
    first_memory_idx = first_memory_idx;
    last_memory_idx_exclusive = last_memory_idx_exclusive;
    segment_content_hash = segment_content_hash;
    kv_file = kv_file;
    search_cache_file = search_cache_file;
    token_count = token_count;
    bytes = bytes;
    created_at_ms = created_at_ms;
    last_access_ms = last_access_ms;
  })

unfoldable pub cache_manifest_bytes : CacheManifest → Bytes
cache_manifest_bytes manifest =
    write_pod 4 cache_manifest_magic
    ++ write_pod 4 1
    ++ write_pod 4 manifest.schema_version
    ++ write_model_key manifest.model
    ++ write_string manifest.session_id
    ++ write_pod 8 (length manifest.segments)
    ++ write_each write_segment manifest.segments

unfoldable pub read_manifest_body : Reader (ℕ × ModelCacheKey × Bytes)
read_manifest_body = do
  schema_version ← read_pod 4
  model ← read_model_key
  session_id ← read_string
  give (schema_version, model, session_id)
