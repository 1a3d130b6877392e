-- ===== src/Planner/Restore.antt =====
-- `restore_segment_plan_from_cache_manifest` of src/context/session/segment_planner.cpp: a plan is
-- rebuilt from the manifest on disk, or the manifest is skipped with a reason for the log.
pub mod Sound
use attemory.Kv.ContentHash.{segment_kv_content_hash}
use attemory.Base.Result.{on_result}
use attemory.Kv.Metadata.{Disk}
use attemory.Session.{Session, Segment}
use attemory.Base.Int.{leb_ℤ, ltb_ℤ, pos, ◌+ℤ◌, ◌-ℤ◌, mem_ℤ, pos_part, ℤ}
use attemory.Planner.{initialize_empty_segment_plan}
use attemory.Core.{Core}
use attemory.Persistent.{
  model_cache_key_equal, find_memory, CacheManifest, MemoryRecord, ModelCacheKey, SessionStore,
  SegmentCacheManifest,
}
use attemory.Base.Text.{bytes_eq, is_empty, Bytes}
use attemory.Base.{
  ℕ, zero, suc, ◌+◌, ◌-◌, ◌*◌, ◌/◌, ◌%◌, ◌^◌, ◌≤◌, ◌<◌, ◌≡◌, refl, sym, ap, subst, ◌∙◌, ◌≢◌, ◌↔◌,
  ◌⊎◌, inl, inr, Bool, true, false, ◌&&◌, ◌||◌, not, Option, none, some, List, [], ◌∷◌, ◌++◌, map,
  arith, ltb, leb, ◌==◌, if◌then◌else◌, Bool-cases, Option-cases, length, All,
}

-- The reasons that `log_manifest_skip` is given, each with the segment id that its text names.
pub data Skip : Type 0 where
  unreadable : Bytes → Skip
  model_key_mismatch session_id_mismatch no_segments no_context partial_coverage : Skip
  invalid_range too_long invalid_coverage hash_mismatch missing_memory : ℤ → Skip

pub data Check {ℓ} (A : Type ℓ) : Type ℓ where
  pass : A → Check A
  skip : Skip → Check A

abbrev pub on_check {ℓ κ} : {A : Type ℓ} {B : Type κ} → Check A → (Skip → B) → (A → B) → B
on_check (pass a) skipped done = done a
on_check (skip s) skipped done = skipped s

-- `std::sort` by segment id. The order of equal ids is open there; here it is that of the manifest.
insert_by_id : SegmentCacheManifest → List SegmentCacheManifest → List SegmentCacheManifest
insert_by_id m [] = m ∷ []
insert_by_id m (x ∷ xs) =
    if ltb_ℤ x.segment_id m.segment_id then x ∷ insert_by_id m xs else m ∷ x ∷ xs

unfoldable pub sort_by_id : List SegmentCacheManifest → List SegmentCacheManifest
unfolding insert_by_id
sort_by_id [] = []
sort_by_id (m ∷ ms) = insert_by_id m (sort_by_id ms)

-- The loop over `count` indices from `memory_idx`, each of a record that nothing has covered.
unfoldable pub cover_range : SessionStore → List ℤ → ℕ → ℤ → Option (List ℤ)
cover_range store covered zero memory_idx = some []
cover_range store covered (suc count) memory_idx = elim (find_memory store memory_idx) [
  | none ↦ none
  | some m ↦ elim (mem_ℤ memory_idx covered) [
    | true ↦ none
    | false ↦ elim (cover_range store (covered ++ memory_idx ∷ []) count (memory_idx +ℤ pos 1)) [
      | none ↦ none
      | some zs ↦ some (memory_idx ∷ zs)
    ]
  ]
]

unfoldable pub range_count : SegmentCacheManifest → ℕ
range_count m = pos_part (m.last_memory_idx_exclusive -ℤ m.first_memory_idx)

abbrev pub manifest_segment_of : SessionStore → Bool → SegmentCacheManifest → List ℤ → Segment
manifest_segment_of store is_first m zs = record {
  segment_id = m.segment_id;
  memory_indices = zs;
  estimated_tokens = m.token_count;
  exact_tokens = m.token_count;
  manual_start = mem_ℤ m.first_memory_idx store.manual_segment_boundaries;
  auto_split_start = not is_first && not (mem_ℤ m.first_memory_idx store.manual_segment_boundaries);
}

-- One segment of the manifest, with the indices that the segments before it cover.
unfoldable pub restore_segment :
    SessionStore → ℤ → Bool → List ℤ → SegmentCacheManifest → Check Segment
unfolding range_count
restore_segment store hard_limit is_first covered m =
    if ltb_ℤ m.segment_id (pos 0)
      || ltb_ℤ m.first_memory_idx (pos 0)
      || leb_ℤ m.last_memory_idx_exclusive m.first_memory_idx
    then skip (invalid_range m.segment_id)
    else if ltb_ℤ hard_limit m.token_count
    then skip (too_long m.segment_id)
    else elim (cover_range store covered (range_count m) m.first_memory_idx) [
      | none ↦ skip (invalid_coverage m.segment_id)
      | some zs ↦
          let segment = manifest_segment_of store is_first m zs in
          if bytes_eq (segment_kv_content_hash store segment) m.segment_content_hash
          then pass segment
          else skip (hash_mismatch m.segment_id)
    ]

unfoldable pub restore_segments :
    SessionStore
    → ℤ
    → List Segment
    → List ℤ
    → List SegmentCacheManifest
    → Check (List Segment × List ℤ)
unfolding restore_segment
restore_segments store hard_limit segments covered [] = pass (segments, covered)
restore_segments store hard_limit segments covered (m ∷ ms) =
    on_check (restore_segment store hard_limit (is_empty segments) covered m) (λ s. skip s)
      (λ segment.
        restore_segments store hard_limit (segments ++ segment ∷ [])
          (covered ++ segment.memory_indices) ms)

missing_of : List ℤ → List MemoryRecord → Option ℤ
missing_of covered [] = none
missing_of covered (m ∷ ms) =
    if mem_ℤ m.memory_idx covered then missing_of covered ms else some m.memory_idx

-- The checks behind the loop: as many indices as records, and every record among them.
unfoldable pub check_coverage : SessionStore → List Segment → List ℤ → Check (List Segment)
unfolding missing_of
check_coverage store segments covered =
    if length covered == length store.memories
    then elim (missing_of covered store.memories) [
      | none ↦ pass segments
      | some z ↦ skip (missing_memory z)
    ]
    else skip partial_coverage

unfoldable pub manifest_plan :
    Core → ModelCacheKey → SessionStore → CacheManifest → Check (List Segment)
unfolding sort_by_id restore_segments check_coverage
manifest_plan core model_key store manifest =
    if not (model_cache_key_equal manifest.model model_key)
    then skip model_key_mismatch
    else if not (bytes_eq manifest.session_id store.session_id)
    then skip session_id_mismatch
    else if is_empty manifest.segments
    then skip no_segments
    else if leb_ℤ core.context_length (pos 0)
    then skip no_context
    else on_check (restore_segments store core.context_length [] [] (sort_by_id manifest.segments))
        (λ s. skip s) (λ r. check_coverage store r.0 r.1)

-- The session, and whether the plan was restored. The function never fails.
unfoldable pub restore_segment_plan_from_cache_manifest :
    Core → Disk → ModelCacheKey → Session → Session × Bool
unfolding manifest_plan initialize_empty_segment_plan
restore_segment_plan_from_cache_manifest core disk model_key session =
    let started = initialize_empty_segment_plan core model_key.value session in
    if is_empty session.store.memories
    then (started, true)
    else on_result disk.manifest (λ e. (session, false))
        (λ manifest.
          on_check (manifest_plan core model_key session.store manifest) (λ s. (session, false))
            (λ segments. (
              record session { segment_plan = record started.segment_plan { segments = segments } },
              true,
            )))

pub Check-cases {ℓ} :
    {A : Type ℓ} (c : Check A) → ((a : A) × (c ≡ pass a)) ⊎ ((s : Skip) × (c ≡ skip s))
Check-cases (pass a) = inl (a, refl)
Check-cases (skip s) = inr (s, refl)
