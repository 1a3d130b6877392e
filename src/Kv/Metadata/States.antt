-- ===== src/Kv/Metadata/States.antt =====
-- What a refresh leaves in the KV metadata of the segments of a plan.
use attemory.Base.Text.{bytes_eq_iff, bytes_eq, is_empty}
use attemory.Kv.ContentHash.{segment_kv_content_hash}
use attemory.Session.{Session, find_segment_kv_metadata, Segment, find_metadata}
use attemory.Persistent.{
  invalid, disk_only, building, missing, resident, SessionStore, ModelCacheKey, KvCacheEntry,
  SegmentCacheManifest, CacheState,
}
use attemory.Base.Int.{Distinct, mem_ℤ, eqb_ℤ_iff, eqb_ℤ, ℤ}
use attemory.Base.{
  ◌≡◌, refl, sym, subst, ◌∙◌, ◌⊎◌, inl, inr, true, false, ◌&&◌, some, List, [], ◌∷◌, map, arith,
  if◌then◌else◌, Bool-cases, Option-cases, All,
}
use attemory.Kv.Metadata.{
  usable_manifest, refresh_session_kv_metadata, refresh_segments, kv_cache_state_exists,
  initialize_segment_kv_metadata, empty_entry, refresh_entry, update_metadata, unless_resident,
  Disk, manifest_for,
}

-- The entry is the segment's, and it is on disk only where the manifest has the segment with the
-- same content and its file exists.
pub record IsFresh (disk : Disk) (manifest : List SegmentCacheManifest) (store : SessionStore)
    (s : Segment) (e : KvCacheEntry) : Type 0 where
  pub segment : e.key.segment_id ≡ s.segment_id
  pub content : e.key.segment_content_hash ≡ segment_kv_content_hash store s
  pub known_state :
      (e.state ≡ resident)
      ⊎ (e.state ≡ missing)
      ⊎ ((e.state ≡ disk_only)
          × (kv_cache_state_exists disk e ≡ true)
          × ((m : SegmentCacheManifest) × (manifest_for manifest s.segment_id ≡ some m)
              × (m.segment_content_hash ≡ segment_kv_content_hash store s)))

module _ (id : ℤ) (f : KvCacheEntry → KvCacheEntry) where
  find-update_metadata :
      (ms : List (ℤ × KvCacheEntry))
      → (c : KvCacheEntry) × (find_metadata (update_metadata id f ms) id ≡ some (f c))
  unfolding find_metadata update_metadata
  find-update_metadata [] = (empty_entry, ground (arith, eqb_ℤ_iff id id))
  find-update_metadata ((k, e) ∷ ms) = elim (Bool-cases (eqb_ℤ k id)) [
    | inl h ↦ (e, rw h (rw h refl))
    | inr h ↦ let r = find-update_metadata ms in (r.0, rw h (rw h r.1))
  ]

  find-update_metadata_ne :
      (ms : List (ℤ × KvCacheEntry)) (z : ℤ)
      → eqb_ℤ id z ≡ false
      → find_metadata (update_metadata id f ms) z ≡ find_metadata ms z
  unfolding find_metadata update_metadata
  find-update_metadata_ne [] z h = ground arith
  find-update_metadata_ne ((k, e) ∷ ms) z h =
      ground (arith, find-update_metadata_ne ms z h, eqb_ℤ_iff k id, eqb_ℤ_iff id z)

unless_resident_cases :
    (s t : CacheState) → (unless_resident s t ≡ resident) ⊎ (unless_resident s t ≡ t)
unless_resident_cases resident t = inl refl
unless_resident_cases missing t = inr refl
unless_resident_cases building t = inr refl
unless_resident_cases disk_only t = inr refl
unless_resident_cases invalid t = inr refl

module _ (disk : Disk) (key : ModelCacheKey) (store : SessionStore)
    (manifest : List SegmentCacheManifest) where
  abbrev initialized : Segment → KvCacheEntry → KvCacheEntry
  initialized s c = initialize_segment_kv_metadata disk key store s c

  missing-IsFresh :
      (s : Segment) (c : KvCacheEntry)
      → IsFresh disk manifest store s
          (record (initialized s c) { state = unless_resident c.state missing })
  unfolding initialize_segment_kv_metadata
  missing-IsFresh s c = record {
    segment = refl;
    content = refl;
    known_state = elim (unless_resident_cases c.state missing) [
      | inl e ↦ inl e
      | inr e ↦ inr (inl e)
    ];
  }

  refresh_some-IsFresh :
      (s : Segment) (c : KvCacheEntry) (m : SegmentCacheManifest)
      → manifest_for manifest s.segment_id ≡ some m
      → IsFresh disk manifest store s (refresh_entry disk (some m) (initialized s c))
  unfolding refresh_entry initialize_segment_kv_metadata kv_cache_state_exists
  refresh_some-IsFresh s c m found =
      let path = if is_empty m.kv_file then disk.segment_kv_path s.segment_id else m.kv_file in
      elim (Bool-cases (
        bytes_eq m.segment_content_hash (segment_kv_content_hash store s)
        && (if is_empty path then false else disk.file_exists path))) [
          | inr h ↦ rw h (missing-IsFresh s c)
          | inl h ↦ rw h (record {
            segment = refl;
            content = refl;
            known_state = elim (unless_resident_cases c.state disk_only) [
              | inl e ↦ inl e
              | inr e ↦ inr (
                  inr (
                    e,
                    ground arith,
                    (
                      m,
                      found,
                      ground (
                        arith,
                        bytes_eq_iff m.segment_content_hash (segment_kv_content_hash store s),
                      ),
                    ),
                  ))
            ];
          })
        ]

  refresh_entry-IsFresh :
      (s : Segment) (c : KvCacheEntry)
      → IsFresh disk manifest store s
          (refresh_entry disk (manifest_for manifest s.segment_id) (initialized s c))
  unfolding refresh_entry initialize_segment_kv_metadata
  refresh_entry-IsFresh s c = elim (Option-cases (manifest_for manifest s.segment_id)) [
    | inl e ↦ rw e (missing-IsFresh s c)
    | inr (m, e) ↦
        subst (λ o. IsFresh disk manifest store s (refresh_entry disk o (initialized s c))) (sym e)
          (refresh_some-IsFresh s c m e)
  ]

  abbrev ids : List Segment → List ℤ
  ids = map (λ s. s.segment_id)

  find-refresh_segments_ne :
      (ss : List Segment) (ms : List (ℤ × KvCacheEntry)) (z : ℤ)
      → mem_ℤ z (ids ss) ≡ false
      → find_metadata (refresh_segments disk key store manifest ss ms) z ≡ find_metadata ms z
  unfolding refresh_segments mem_ℤ
  find-refresh_segments_ne [] ms z h = refl
  find-refresh_segments_ne (s ∷ ss) ms z h =
      let f = λ (c : KvCacheEntry).
        refresh_entry disk (manifest_for manifest s.segment_id) (initialized s c) in
      find-refresh_segments_ne ss (update_metadata s.segment_id f ms) z (ground arith)
      ∙ find-update_metadata_ne s.segment_id f ms z
          (ground (arith, eqb_ℤ_iff s.segment_id z, eqb_ℤ_iff z s.segment_id))

  refresh_segments-IsFresh :
      (ss : List Segment) (ms : List (ℤ × KvCacheEntry))
      → Distinct (ids ss)
      → All
          (λ s.
            (e : KvCacheEntry) × (find_metadata
                (refresh_segments disk key store manifest ss ms)
                s.segment_id
              ≡ some e)
            × IsFresh disk manifest store s e)
          ss
  unfolding refresh_segments
  refresh_segments-IsFresh [] ms d = tt
  refresh_segments-IsFresh (s ∷ ss) ms d =
      let f = λ (c : KvCacheEntry).
        refresh_entry disk (manifest_for manifest s.segment_id) (initialized s c) in
      let there = find-update_metadata s.segment_id f ms in
      (
        (
          f there.0,
          find-refresh_segments_ne ss (update_metadata s.segment_id f ms) s.segment_id d.0
              ∙ there.1,
          refresh_entry-IsFresh s there.0,
        ),
        refresh_segments-IsFresh ss (update_metadata s.segment_id f ms) d.1,
      )

-- After a refresh of a session whose plan has distinct segment ids, each segment of the plan has KV
-- metadata under its id with the segment's id and content hash, and its state is resident, missing,
-- or on disk; on disk only where the usable manifest has the segment with that content hash and the
-- file that the metadata names exists.
pub refresh_session_kv_metadata-IsFresh :
    (disk : Disk) (key : ModelCacheKey) (session : Session)
    → Distinct (map (λ s. s.segment_id) session.segment_plan.segments)
    → All
        (λ s.
          (e : KvCacheEntry) × (find_segment_kv_metadata
              (refresh_session_kv_metadata disk key session)
              s.segment_id
            ≡ some e)
          × IsFresh disk (usable_manifest disk key session.store.session_id) session.store s e)
        session.segment_plan.segments
unfolding find_segment_kv_metadata refresh_session_kv_metadata
refresh_session_kv_metadata-IsFresh disk key session d =
    refresh_segments-IsFresh disk key session.store
      (usable_manifest disk key session.store.session_id) session.segment_plan.segments
      session.segment_kv_metadata d
