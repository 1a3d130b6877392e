-- ===== src/Planner/Restore/Sound.antt =====
-- A restored plan covers each record of the store once, and agrees with the manifest.
use attemory.Base.Result.{Result-cases, ok}
use attemory.Kv.Metadata.{Disk}
use attemory.Core.{Core}
use attemory.Base.Text.{is_empty-nil, is_empty, bytes_eq_iff}
use attemory.Kv.ContentHash.{segment_kv_content_hash}
use attemory.Persistent.Lookup.{find_memory-mem}
use attemory.Session.{Session, Segment}
use attemory.Base.Int.{mem_ℤ_ext, Distinct-snoc, ◌≤ℤ◌, pos, ◌+ℤ◌, Distinct, mem_ℤ, ℤ}
use attemory.Planner.Restore.{
  restore_segment_plan_from_cache_manifest, sort_by_id, Check-cases, manifest_plan, check_coverage,
  missing_of, restore_segments, manifest_segment_of, range_count, pass, restore_segment,
  cover_range,
}
use attemory.Persistent.{
  CacheManifest, ModelCacheKey, MemoryRecord, indices, SegmentCacheManifest, SessionStore,
}
use mathlib.Core.List.{append_assoc, append-nil}
use attemory.Base.{
  All-append, ℕ, zero, suc, ◌≡◌, refl, sym, ap, subst, ◌∙◌, ◌⊎◌, inl, inr, Bool, true, false, none,
  some, List, [], ◌∷◌, ◌++◌, arith, Bool-cases, Option-cases, length, All,
}
use attemory.Planner.Partition.{planned}

-- A predicate on the entries of two lists, in pairs.
abbrev pub All₂ {ℓ κ} : {A : Type ℓ} {B : Type κ} → (A → B → Type 0) → List A → List B → Type 0
All₂ P [] [] = Unit
All₂ P [] (y ∷ ys) = ⊥
All₂ P (x ∷ xs) [] = ⊥
All₂ P (x ∷ xs) (y ∷ ys) = P x y × All₂ P xs ys

-- A segment is the one of the manifest, and its texts still have the manifest's hash.
pub record Matches (store : SessionStore) (limit : ℤ) (m : SegmentCacheManifest) (s : Segment)
    : Type 0 where
  pub same_id : s.segment_id ≡ m.segment_id
  pub same_hash : segment_kv_content_hash store s ≡ m.segment_content_hash
  pub same_tokens : s.exact_tokens ≡ m.token_count
  pub fits : m.token_count ≤ℤ limit

abbrev Known : SessionStore → List ℤ → Type 0
Known store = All (λ y. mem_ℤ y (indices store.memories) ≡ true)

cover_range_lem :
    (store : SessionStore) (covered : List ℤ) (n : ℕ) (z : ℤ) (zs : List ℤ)
    → cover_range store covered n z ≡ some zs
    → (Distinct covered → Distinct (covered ++ zs)) × Known store zs
unfolding cover_range
cover_range_lem store covered zero z zs h = let e : zs ≡ [] = cc in rw (e, append-nil) (λ d. d, tt)
cover_range_lem store covered (suc n) z zs h = elim (find_memory-mem store z) [
  | inl (missing, _) ↦ absurd (ground arith)
  | inr (m, found, _, known) ↦ elim (Bool-cases (mem_ℤ z covered)) [
    | inl twice ↦ absurd (ground arith)
    | inr once ↦ elim (Option-cases (cover_range store (covered ++ z ∷ []) n (z +ℤ pos 1))) [
      | inl none_left ↦ absurd (ground arith)
      | inr (ys, rest) ↦
          let e : zs ≡ z ∷ ys = ground arith in
          let (distinct, all) = cover_range_lem store (covered ++ z ∷ []) n (z +ℤ pos 1) ys rest in
          rw (e)
            ((λ d. rw append_assoc at (distinct (Distinct-snoc covered z d once))), (known, all))
    ]
  ]
]

restore_segment_lem :
    (store : SessionStore) (limit : ℤ) (is_first : Bool) (covered : List ℤ)
    (m : SegmentCacheManifest) (s : Segment)
    → restore_segment store limit is_first covered m ≡ pass s
    → Matches store limit m s
      × (Distinct covered → Distinct (covered ++ s.memory_indices))
      × Known store s.memory_indices
unfolding restore_segment
restore_segment_lem store limit is_first covered m s h =
    elim (Option-cases (cover_range store covered (range_count m) m.first_memory_idx)) [
      | inl missing ↦ absurd (ground arith)
      | inr (zs, found) ↦
          let (distinct, known) =
            cover_range_lem store covered (range_count m) m.first_memory_idx zs found in
          let segment = manifest_segment_of store is_first m zs in
          let e : s ≡ segment = ground arith in
          rw e (
            record {
              same_id = refl;
              same_hash = (bytes_eq_iff _ _).0 (ground arith);
              same_tokens = refl;
              fits = ground arith;
            },
            distinct,
            known,
          )
    ]

-- What the loop adds to the segments and to the covered indices.
pub record Restored (store : SessionStore) (limit : ℤ) (covered : List ℤ)
    (ms : List SegmentCacheManifest) (covered' : List ℤ) (new : List Segment) : Type 0 where
  pub all_covered : covered' ≡ covered ++ planned new
  pub matches : All₂ (Matches store limit) ms new
  pub distinct : Distinct covered → Distinct covered'
  pub known : All (λ y. mem_ℤ y (indices store.memories) ≡ true) (planned new)

restore_segments-Restored :
    (store : SessionStore) (limit : ℤ) (segments : List Segment) (covered : List ℤ)
    (ms : List SegmentCacheManifest) (segments' : List Segment) (covered' : List ℤ)
    → restore_segments store limit segments covered ms ≡ pass (segments', covered')
    → (new : List Segment) × (segments' ≡ segments ++ new)
      × Restored store limit covered ms covered' new
unfolding restore_segments
restore_segments-Restored store limit segments covered [] segments' covered' h = (
  [],
  ground (arith, append-nil segments),
  record {
    all_covered = ground (arith, append-nil covered);
    matches = tt;
    distinct = λ d. subst Distinct (ground arith) d;
    known = tt;
  },
)
restore_segments-Restored store limit segments covered (m ∷ ms) segments' covered' h =
    elim (Check-cases (restore_segment store limit (is_empty segments) covered m)) [
      | inr (s, skipped) ↦ absurd (ground arith)
      | inl (s, one) ↦
          let (fits, distinct, known) =
            restore_segment_lem store limit (is_empty segments) covered m s one in
          let (new, e, r) =
            restore_segments-Restored store limit (segments ++ s ∷ []) (covered ++ s.memory_indices)
              ms segments' covered' (rw one at h) in
          (
            s ∷ new,
            e ∙ append_assoc segments (s ∷ []) new,
            record {
              all_covered = r.all_covered ∙ append_assoc covered s.memory_indices (planned new);
              matches = (fits, r.matches);
              distinct = λ d. r.distinct (distinct d);
              known = All-append _ s.memory_indices (planned new) known r.known;
            },
          )
    ]

missing_of-none :
    (covered : List ℤ) (ms : List MemoryRecord)
    → missing_of covered ms ≡ none
    → All (λ y. mem_ℤ y covered ≡ true) (indices ms)
unfolding missing_of
missing_of-none covered [] h = tt
missing_of-none covered (m ∷ ms) h = elim (Bool-cases (mem_ℤ m.memory_idx covered)) [
  | inl e ↦ (e, missing_of-none covered ms (rw e at h))
  | inr e ↦ absurd (ground arith)
]

check_coverage_lem :
    (store : SessionStore) (segments : List Segment) (covered : List ℤ) (segments' : List Segment)
    → check_coverage store segments covered ≡ pass segments'
    → (segments' ≡ segments)
      × (length covered ≡ length store.memories)
      × All (λ y. mem_ℤ y covered ≡ true) (indices store.memories)
unfolding check_coverage
check_coverage_lem store segments covered segments' h =
    elim (Option-cases (missing_of covered store.memories)) [
      | inr (z, missing) ↦ absurd (ground arith)
      | inl e ↦ (ground arith, ground arith, missing_of-none covered store.memories e)
    ]

-- The plan covers the records: each once, and nothing else.
pub record Covering (store : SessionStore) (segments : List Segment) : Type 0 where
  pub distinct : Distinct (planned segments)
  pub counted : length (planned segments) ≡ length store.memories
  pub same_members : (z : ℤ) → mem_ℤ z (planned segments) ≡ mem_ℤ z (indices store.memories)

pub manifest_plan-Covering :
    (core : Core) (model_key : ModelCacheKey) (store : SessionStore) (manifest : CacheManifest)
    (segments : List Segment)
    → manifest_plan core model_key store manifest ≡ pass segments
    → All₂ (Matches store core.context_length) (sort_by_id manifest.segments) segments
      × Covering store segments
unfolding manifest_plan
manifest_plan-Covering core model_key store manifest segments h =
    elim (Check-cases
      (restore_segments store core.context_length [] [] (sort_by_id manifest.segments))) [
        | inr (s, skipped) ↦ absurd (ground arith)
        | inl ((found, covered), restored) ↦
            let (new, e, r) =
              restore_segments-Restored store core.context_length [] []
                (sort_by_id manifest.segments) found covered restored in
            let (e', size, all) = check_coverage_lem store found covered segments (ground arith) in
            rw (e', e)
              (
                r.matches,
                record {
                  distinct = rw r.all_covered at (r.distinct tt);
                  counted = rw r.all_covered at size;
                  same_members = mem_ℤ_ext _ _ r.known (rw r.all_covered at all);
                },
              )
      ]

-- A restore from the cache manifest either leaves the session as it was, or keeps its store and
-- gives it a plan that covers each record of the store once and nothing else. Unless the store is
-- empty, that plan has, in the order of the ids, one segment for each segment of the manifest, with
-- its id and token count, within the context length, and the texts of the segment have the content
-- hash that the manifest records.
pub restore_segment_plan-Covering :
    (core : Core) (disk : Disk) (model_key : ModelCacheKey) (session : Session)
    → let r = restore_segment_plan_from_cache_manifest core disk model_key session in
      (r ≡ (session, false))
      ⊎ ((r.1 ≡ true)
          × (r.0.store ≡ session.store)
          × Covering session.store r.0.segment_plan.segments
          × ((session.store.memories ≡ [])
              ⊎ ((manifest : CacheManifest) × (disk.manifest ≡ ok manifest)
                  × All₂
                      (Matches session.store core.context_length)
                      (sort_by_id manifest.segments)
                      r.0.segment_plan.segments)))
unfolding restore_segment_plan_from_cache_manifest
restore_segment_plan-Covering core disk model_key session =
    elim (Bool-cases (is_empty session.store.memories)) [
      | inl e ↦
          let none_there = is_empty-nil _ e in
          rw e (
            inr (
              refl,
              refl,
              record {
                distinct = tt;
                counted = sym (ap length none_there);
                same_members = λ z. sym (ap (λ ms. mem_ℤ z (indices ms)) none_there);
              },
              inl none_there,
            ))
      | inr e ↦ elim (Result-cases disk.manifest) [
        | inr (e', failed) ↦ rw (e, failed) (inl refl)
        | inl (manifest, loaded) ↦
            elim (Check-cases (manifest_plan core model_key session.store manifest)) [
              | inr (s, skipped) ↦ rw (e, loaded, skipped) (inl refl)
              | inl (segments, passed) ↦
                  let (matches, covering) =
                    manifest_plan-Covering core model_key session.store manifest segments passed in
                  rw (e, loaded, passed) (inr (refl, refl, covering, inr (manifest, refl, matches)))
            ]
      ]
    ]
