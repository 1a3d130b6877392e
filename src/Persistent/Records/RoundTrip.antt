-- ===== src/Persistent/Records/RoundTrip.antt =====
-- Reads of the records that were written.
use attemory.Persistent.Binary.RoundTrip.{
  read_i32-Reads, read_string-Reads, read_bool-Reads, read_i64-Reads, append_assoc, Reads,
}
use attemory.Base.Int.{InI32, InI64}
use attemory.Persistent.Records.{
  write_segment, write_model_key, read_segment, read_model_key, write_memory_record,
  read_memory_record,
}
use attemory.Persistent.{SegmentCacheManifest, ModelCacheKey, MemoryRecord}
use attemory.Base.Text.{Bytes}
use attemory.Base.{◌≤◌, refl, length}
use attemory.Persistent.Binary.{max_string_bytes}

abbrev pub IsString : Bytes → Type 0
IsString s = length s ≤ max_string_bytes

-- What the file's types and limits can hold of a record.
abbrev pub IsMemory : MemoryRecord → Type 0
IsMemory m = InI64 m.memory_idx × IsString m.id × IsString m.text × InI32 m.estimated_tokens

pub read_memory_record-Reads :
    (m : MemoryRecord) → IsMemory m → Reads (read_memory_record 1) (write_memory_record m) m
unfolding read_memory_record write_memory_record
read_memory_record-Reads m (a, b, c, d) rest =
    rw
      (
        append_assoc,
        append_assoc,
        append_assoc,
        append_assoc,
        read_i64-Reads m.memory_idx a,
        read_bool-Reads m.has_id,
        read_string-Reads m.id b,
        read_string-Reads m.text c,
        read_i32-Reads m.estimated_tokens d,
      )
      refl

abbrev pub IsKey : ModelCacheKey → Type 0
IsKey k =
    IsString k.value
    × IsString k.vendor
    × IsString k.model_desc
    × IsString k.model_name
    × IsString k.backend
    × IsString k.template_hash
    × IsString k.kv_type_k
    × IsString k.kv_type_v

pub read_model_key-Reads :
    (k : ModelCacheKey) → IsKey k → Reads read_model_key (write_model_key k) k
unfolding read_model_key write_model_key
read_model_key-Reads k h rest =
    rw
      (
        append_assoc,
        append_assoc,
        append_assoc,
        append_assoc,
        append_assoc,
        append_assoc,
        append_assoc,
        read_string-Reads k.value h.0,
        read_string-Reads k.vendor h.1,
        read_string-Reads k.model_desc h.2,
        read_string-Reads k.model_name h.3,
        read_string-Reads k.backend h.4,
        read_string-Reads k.template_hash h.5,
        read_string-Reads k.kv_type_k h.6,
        read_string-Reads k.kv_type_v h.7,
      )
      refl

abbrev pub IsManifestSegment : SegmentCacheManifest → Type 0
IsManifestSegment s =
    InI32 s.segment_id
    × InI64 s.first_memory_idx
    × InI64 s.last_memory_idx_exclusive
    × IsString s.segment_content_hash
    × IsString s.kv_file
    × IsString s.search_cache_file
    × InI32 s.token_count
    × InI64 s.bytes
    × InI64 s.created_at_ms
    × InI64 s.last_access_ms

pub read_segment-Reads :
    (s : SegmentCacheManifest) → IsManifestSegment s → Reads read_segment (write_segment s) s
unfolding read_segment write_segment
read_segment-Reads s h rest =
    rw
      (
        append_assoc,
        append_assoc,
        append_assoc,
        append_assoc,
        append_assoc,
        append_assoc,
        append_assoc,
        append_assoc,
        append_assoc,
        read_i32-Reads s.segment_id h.0,
        read_i64-Reads s.first_memory_idx h.1,
        read_i64-Reads s.last_memory_idx_exclusive h.2,
        read_string-Reads s.segment_content_hash h.3,
        read_string-Reads s.kv_file h.4,
        read_string-Reads s.search_cache_file h.5,
        read_i32-Reads s.token_count h.6,
        read_i64-Reads s.bytes h.7,
        read_i64-Reads s.created_at_ms h.8,
        read_i64-Reads s.last_access_ms h.9,
      )
      refl
