-- ===== src/Tests/PersistentTests.antt =====
-- Files, look-ups and hashes of a small session.
use attemory.Persistent.Paths.{
  sanitize_storage_component, layout_session_id_collides, layout_session_id-is_valid,
  safe_storage_component, layout_session_id,
}
use attemory.Kv.Metadata.States.{refresh_session_kv_metadata-IsFresh, IsFresh}
use attemory.Kv.Metadata.{usable_manifest, refresh_session_kv_metadata, Disk}
use attemory.Persistent.Replace.Outcomes.{Loses, KeptOrLost}
use attemory.Persistent.Records.{cache_manifest_bytes}
use attemory.Tests.Fixtures.{bare_disk, key, two}
use attemory.Kv.ContentHash.{segment_kv_content_hash}
use attemory.Session.{find_segment_kv_metadata, Session, Segment}
use attemory.Base.Result.{err, ok, ResultStatus}
use attemory.Persistent.Replace.{
  check_save, put_file, save_session, temp_path, replace_file, Files, Io,
}
use attemory.Persistent.SessionFile.{load_kv_cache_manifest, load_session}
use attemory.Base.Text.{text, bytes_eq, is_empty, Bytes}
use attemory.Persistent.SessionFile.RoundTrip.{IsManifest, IsStorable}
use attemory.Persistent.{
  id_char, KvCacheEntry, SegmentCacheManifest, scan_memory, indices, is_valid_session_id,
  CacheManifest, find_memory,
}
use attemory.Base.Int.{InI32, mem_ℤ, pos, InI64, Distinct}
use attemory.Persistent.Validity.{validate_loaded_store_iff, IsValidStore, validate_loaded_store}
use attemory.Base.{
  All, map, ℕ, ◌≤◌, ◌≡◌, refl, ◌↔◌, ◌⊎◌, true, false, ◌||◌, none, some, [], ◌∷◌, arith,
}
use attemory.Persistent.Lookup
use attemory.Persistent.Validity
use attemory.Persistent.SessionFile.RoundTrip
use attemory.Persistent.Replace.Outcomes
use attemory.Persistent.Replace.Saved

checks : Unit {0}
unfolding validate_loaded_store is_valid_session_id mem_ℤ bytes_eq text is_empty find_memory
    scan_memory save_session replace_file put_file check_save
checks = tt

two_checked : validate_loaded_store two.store ≡ ok tt
unfolding checks
two_checked = refl

two_Distinct : Distinct (indices two.store.memories)
unfolding checks
two_Distinct = (refl, (refl, tt))

validate_loaded_store_iff_example :
    (validate_loaded_store two.store ≡ ok tt) ↔ IsValidStore two.store
validate_loaded_store_iff_example = Validity.validate_loaded_store_iff two.store

find_memory-scan_example : find_memory two.store (pos 1) ≡ scan_memory two.store.memories (pos 1)
find_memory-scan_example = Lookup.find_memory-scan two.store (pos 1) two_Distinct

pub two-IsValidStore : IsValidStore two.store
two-IsValidStore = (validate_loaded_store_iff two.store).0 two_checked

in_range : (n : ℕ) → n ≤ 2147483647 → InI64 (pos n) × InI32 (pos n)
in_range n h = ((omega arith, omega arith), (omega arith, omega arith))

pub two-IsStorable : IsStorable two.store
two-IsStorable = record {
  schema = omega arith;
  session_id = omega arith;
  system_text = omega arith;
  next = (in_range 2 (omega arith)).0;
  boundary_count = omega arith;
  boundaries = tt;
  memory_count = omega arith;
  memories = (
    ((in_range 0 (omega arith)).0, omega arith, omega arith, (in_range 0 (omega arith)).1),
    (((in_range 1 (omega arith)).0, omega arith, omega arith, (in_range 0 (omega arith)).1), tt),
  );
}

abbrev pub meta : Bytes
meta = b'a' ∷ []

abbrev pub memories : Bytes
memories = b'b' ∷ []

no_layout : (is_empty {A = ℕ} [] || bytes_eq two.store.session_id []) ≡ true
unfolding checks
no_layout = refl

abbrev manifest : CacheManifest
manifest = record { schema_version = 1; model = key; session_id = b's' ∷ []; segments = [] }

manifest-IsManifest : IsManifest manifest
manifest-IsManifest = record {
  schema = omega arith;
  model = (
    omega arith,
    omega arith,
    omega arith,
    omega arith,
    omega arith,
    omega arith,
    omega arith,
    omega arith,
  );
  session_id = omega arith;
  segment_count = omega arith;
  segments = tt;
}

load_kv_cache_manifest-bytes_example :
    load_kv_cache_manifest meta (some (cache_manifest_bytes manifest)) ≡ ok manifest
load_kv_cache_manifest-bytes_example =
    RoundTrip.load_kv_cache_manifest-bytes manifest meta manifest-IsManifest

abbrev pub good_io : Io
good_io = record {
  opens = true;
  writes = true;
  rename_error = none;
  retry_error = none;
  removes = true;
  leftover = none;
}

abbrev bad_io : Io
bad_io = record good_io { rename_error = some []; retry_error = some [] }

abbrev pub blank : Files
blank path = none

replace_file-path_example :
    (((replace_file [] good_io blank meta (1 ∷ [])).0 ≡ ok tt)
      × ((replace_file [] good_io blank meta (1 ∷ [])).1 meta ≡ some (1 ∷ [])))
    ⊎ (((e : Bytes) × ((replace_file [] good_io blank meta (1 ∷ [])).0 ≡ err e))
        × KeptOrLost [] good_io blank meta (1 ∷ []) (replace_file [] good_io blank meta (1 ∷ [])).1)
replace_file-path_example = Outcomes.replace_file-path [] good_io blank meta (1 ∷ [])

-- A disk with an old file.
abbrev standing : Files
standing path = some (2 ∷ [])

replace_file_loses_iff_example :
    (((e : Bytes) × ((replace_file [] bad_io standing meta (1 ∷ [])).0 ≡ err e))
      × ((replace_file [] bad_io standing meta (1 ∷ [])).1 meta ≡ none))
    ↔ Loses [] bad_io standing meta (1 ∷ [])
replace_file_loses_iff_example =
    Outcomes.replace_file_loses_iff [] bad_io standing meta (1 ∷ []) (2 ∷ []) refl

pub apart : bytes_eq memories meta ≡ false
unfolding checks
apart = refl

pub apart_temp : bytes_eq memories (temp_path meta) ≡ false
unfolding checks
apart_temp = refl

abbrev saved : ResultStatus × Files
saved = save_session [] meta memories (ok tt) good_io good_io blank two.store

saved_ok : saved.0 ≡ ok tt
unfolding checks
saved_ok = refl

save_session-load_example :
    load_session [] meta memories (saved.1 meta) (saved.1 memories) ≡ ok two.store
save_session-load_example =
    Saved.save_session-load [] meta memories (ok tt) good_io good_io blank two.store two-IsStorable
      apart apart_temp saved_ok

abbrev first_segment : Segment
first_segment = record {
  segment_id = pos 0;
  memory_indices = pos 0 ∷ [];
  estimated_tokens = pos 6;
  exact_tokens = pos 6;
  manual_start = false;
  auto_split_start = false;
}

abbrev one_segment : Session
one_segment = record two {
  segment_plan = record two.segment_plan { segments = first_segment ∷ [] };
}

abbrev first_manifest : SegmentCacheManifest
first_manifest = record {
  segment_id = pos 0;
  first_memory_idx = pos 0;
  last_memory_idx_exclusive = pos 1;
  segment_content_hash = segment_kv_content_hash two.store first_segment;
  kv_file = b'f' ∷ [];
  search_cache_file = [];
  token_count = pos 6;
  bytes = pos 9;
  created_at_ms = pos 0;
  last_access_ms = pos 0;
}

abbrev full_disk : Disk
full_disk = record bare_disk {
  manifest = ok (record manifest { segments = first_manifest ∷ [] });
  file_exists = λ path. true;
}

ids_Distinct : Distinct (map (λ s. s.segment_id) one_segment.segment_plan.segments)
unfolding checks
ids_Distinct = (refl, tt)

refresh_session_kv_metadata-IsFresh_example :
    All
      (λ s.
        (e : KvCacheEntry) × (find_segment_kv_metadata
            (refresh_session_kv_metadata full_disk key one_segment)
            s.segment_id
          ≡ some e)
        × IsFresh full_disk
            (usable_manifest full_disk key one_segment.store.session_id)
            one_segment.store
            s
            e)
      one_segment.segment_plan.segments
refresh_session_kv_metadata-IsFresh_example =
    refresh_session_kv_metadata-IsFresh full_disk key one_segment ids_Distinct

abbrev spaced : Bytes
spaced = b'_' ∷ b'a' ∷ b' ' ∷ b'/' ∷ b'b' ∷ []

paths : Unit {0}
unfolding layout_session_id safe_storage_component sanitize_storage_component is_empty id_char
    is_valid_session_id text bytes_eq
paths = tt

spaced_name : layout_session_id spaced ≡ b'a' ∷ b'_' ∷ b'b' ∷ []
unfolding paths
spaced_name = refl

spaced_there : is_empty spaced ≡ false
unfolding paths
spaced_there = refl

layout_session_id-is_valid_example : is_valid_session_id (layout_session_id spaced) ≡ true
layout_session_id-is_valid_example = layout_session_id-is_valid spaced spaced_there

meta-is_valid : is_valid_session_id meta ≡ true
unfolding paths
meta-is_valid = refl

layout_session_id_collides_example : layout_session_id (b'_' ∷ meta) ≡ layout_session_id meta
layout_session_id_collides_example = layout_session_id_collides meta meta-is_valid
