-- ===== src/Persistent/SessionFile/RoundTrip.antt =====
-- Loads of what was saved.
use attemory.Persistent.Validity.{validate_loaded_store_iff, IsValidStore}
use attemory.Base.Result.{ok}
use attemory.Base.Text.{bytes_eq, is_empty, Bytes}
use attemory.Persistent.Binary.RoundTrip.{
  read_each-Reads, Reads-end, read_i64_vector-Reads, read_i64-Reads, read_bool-Reads,
  read_string-Reads, read_pod-Reads, append_assoc, Reads,
}
use attemory.Persistent.Binary.{write_each, read_each, write_pod, read_pod, max_vector_items}
use attemory.Persistent.Records.{
  cache_manifest_magic, write_segment, read_manifest_body, read_segment,
  max_cache_manifest_segments, cache_manifest_bytes, session_memories_magic, session_store_magic,
  write_memory_record, read_memory_record, read_store_body, max_session_memory_records, read_header,
  store_memories_bytes, store_metadata_bytes,
}
use attemory.Base.Int.{InI64}
use attemory.Persistent.SessionFile.{
  load_kv_cache_manifest, load_session, read_store_memories, read_store_metadata,
}
use attemory.Persistent.Records.RoundTrip.{
  read_model_key-Reads, read_segment-Reads, IsManifestSegment, IsKey, read_memory_record-Reads,
  IsMemory, IsString,
}
use attemory.Persistent.{
  SegmentCacheManifest, CacheManifest, empty_store, is_valid_session_id, MemoryRecord, SessionStore,
}
use attemory.Base.{
  ◌^◌, ◌≤◌, ◌<◌, ◌≡◌, refl, sym, ap, inl, inr, true, false, ◌||◌, some, List, [], ◌∷◌, arith, ltb,
  ◌==◌, Bool-cases, length, All,
}

-- What the types and the limits of the session files can hold.
pub record IsStorable (store : SessionStore) : Type 0 where
  pub schema : store.schema_version < 2 ^ 32
  pub session_id : IsString store.session_id
  pub system_text : IsString store.system_text
  pub next : InI64 store.next_memory_idx
  pub boundary_count : length store.manual_segment_boundaries ≤ max_vector_items
  pub boundaries : All InI64 store.manual_segment_boundaries
  pub memory_count : length store.memories ≤ max_session_memory_records
  pub memories : All IsMemory store.memories

abbrev without_memories : SessionStore → SessionStore
without_memories store = record store { memories = [] }

module _ (store : SessionStore) (fits : IsStorable store) where
  read_store_metadata_lem :
      (path : Bytes)
      → is_valid_session_id store.session_id ≡ true
      → read_store_metadata path (some (store_metadata_bytes store))
        ≡ ok (without_memories store, length store.memories)
  unfolding read_store_metadata store_metadata_bytes read_header read_store_body empty_store
  read_store_metadata_lem path valid =
      let few : ltb max_session_memory_records (length store.memories) ≡ false = ground arith in
      rw
        (
          append_assoc,
          append_assoc,
          append_assoc,
          append_assoc,
          append_assoc,
          append_assoc,
          append_assoc,
          append_assoc,
          read_pod-Reads 4 session_store_magic (omega arith),
          read_pod-Reads 4 2 (omega arith),
          read_pod-Reads 4 store.schema_version (omega arith),
          read_string-Reads store.session_id fits.session_id,
          read_string-Reads store.system_text fits.system_text,
          read_bool-Reads store.system_locked,
          read_bool-Reads store.kv_persist,
          read_i64-Reads store.next_memory_idx fits.next,
          read_i64_vector-Reads store.manual_segment_boundaries fits.boundary_count fits.boundaries,
          Reads-end (read_pod 8) (write_pod 8 (length store.memories)) (length store.memories)
              (read_pod-Reads 8 (length store.memories) (omega arith)),
          few,
          valid,
        )
        refl

  no_memories : (ms : List MemoryRecord) → length ms ≡ 0 → ms ≡ []
  no_memories [] h = refl
  no_memories (m ∷ ms) h = absurd (omega arith)

  Memories_read :
      (ms : List MemoryRecord)
      → All IsMemory ms
      → All (λ m. Reads (read_memory_record 1) (write_memory_record m) m) ms
  Memories_read [] h = tt
  Memories_read (m ∷ ms) h = (read_memory_record-Reads m h.0, Memories_read ms h.1)

  read_store_memories_lem :
      (path : Bytes)
      → read_store_memories path
          (some (store_memories_bytes store))
          (length store.memories)
          (without_memories store)
        ≡ ok store
  unfolding read_store_memories store_memories_bytes read_header
  read_store_memories_lem path =
      let few : ltb max_session_memory_records (length store.memories) ≡ false =
        let h = fits.memory_count in ground arith in
      elim (Bool-cases (length store.memories == 0)) [
        | inl none_left ↦
            let nothing = no_memories store.memories (ground arith) in
            rw none_left (ap (λ ms. ok (record store { memories = ms })) (sym nothing))
        | inr some_left ↦
            rw
              (
                some_left,
                few,
                append_assoc,
                read_pod-Reads 4 session_memories_magic (omega arith),
                read_pod-Reads 4 1 (omega arith),
                Reads-end (read_each (read_memory_record 1) (length store.memories))
                    (write_each write_memory_record store.memories) store.memories
                    (read_each-Reads (read_memory_record 1) write_memory_record store.memories
                      (Memories_read store.memories fits.memories)),
              )
              refl
      ]

-- A valid session that fits the limits of the file format is read back from
-- the bytes of its two files as it was, where the layout has its id or none.
pub load_session-store_bytes :
    (store : SessionStore) (layout_id meta_path memories_path : Bytes)
    → IsStorable store
    → IsValidStore store
    → (is_empty layout_id || bytes_eq store.session_id layout_id) ≡ true
    → load_session layout_id meta_path memories_path
        (some (store_metadata_bytes store))
        (some (store_memories_bytes store))
      ≡ ok store
unfolding load_session
load_session-store_bytes store layout_id meta_path memories_path fits valid same =
    rw
      (
        read_store_metadata_lem store fits meta_path valid.id_valid,
        read_store_memories_lem store fits memories_path,
        same,
        (validate_loaded_store_iff store).1 valid,
      )
      refl

pub record IsManifest (m : CacheManifest) : Type 0 where
  pub schema : m.schema_version < 2 ^ 32
  pub model : IsKey m.model
  pub session_id : IsString m.session_id
  pub segment_count : length m.segments ≤ max_cache_manifest_segments
  pub segments : All IsManifestSegment m.segments

Segments_read :
    (ss : List SegmentCacheManifest)
    → All IsManifestSegment ss
    → All (λ s. Reads read_segment (write_segment s) s) ss
Segments_read [] h = tt
Segments_read (s ∷ ss) h = (read_segment-Reads s h.0, Segments_read ss h.1)

-- A cache manifest that fits the limits of the file format is read back from its bytes as it was.
pub load_kv_cache_manifest-bytes :
    (m : CacheManifest) (path : Bytes)
    → IsManifest m
    → load_kv_cache_manifest path (some (cache_manifest_bytes m)) ≡ ok m
unfolding load_kv_cache_manifest cache_manifest_bytes read_header read_manifest_body
load_kv_cache_manifest-bytes m path fits =
    let count = length m.segments in
    let few : ltb max_cache_manifest_segments count ≡ false =
      let h = fits.segment_count in ground arith in
    rw
      (
        append_assoc,
        append_assoc,
        append_assoc,
        append_assoc,
        append_assoc,
        read_pod-Reads 4 cache_manifest_magic (omega arith),
        read_pod-Reads 4 1 (omega arith),
        read_pod-Reads 4 m.schema_version fits.schema,
        read_model_key-Reads m.model fits.model,
        read_string-Reads m.session_id fits.session_id,
        read_pod-Reads 8 count (omega arith),
        few,
        Reads-end (read_each read_segment count) (write_each write_segment m.segments) m.segments (
            read_each-Reads read_segment write_segment m.segments
              (Segments_read m.segments fits.segments)),
      )
      refl
