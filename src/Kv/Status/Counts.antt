-- ===== src/Kv/Status/Counts.antt =====
-- What the counters of src/context/session/session_status.cpp say of each other.
use attemory.Planner.Prepare.{session_plan_ready}
use attemory.Kv.Manager.{ContextKvState}
use attemory.Persistent.{ModelCacheKey}
use attemory.Kv.Metadata.{Disk}
use attemory.Session.{Session, Segment}
use attemory.Base.Int.{ℤ}
use attemory.Kv.Status.{KvCounts, status, build_session_status, count_segments, SegmentKvStatus}
use attemory.Base.{
  ℕ, ◌+◌, ◌≤◌, ◌≡◌, refl, ◌↔◌, inl, inr, Bool, true, ◌&&◌, ◌||◌, none, List, [], ◌∷◌, arith, ltb,
  ◌==◌, Bool-cases, length, All,
}

abbrev pub has_kv : SegmentKvStatus → Bool
has_kv s = s.has_resident_snapshot || s.has_disk_snapshot

module _ (status_of : ℤ → SegmentKvStatus) where
  -- Each counter counts the segments with its mark.
  count_segments_bounds :
      (segments : List Segment)
      → let c = count_segments status_of segments in
        (c.resident_segments ≤ c.indexed_segments)
        × (c.saved_segments ≤ c.indexed_segments)
        × (c.indexed_segments ≤ length segments)
        × (c.indexed_segments ≤ c.resident_segments + c.saved_segments)
  unfolding count_segments
  count_segments_bounds [] = ground arith
  count_segments_bounds (s ∷ ss) =
      let (a, b, c, d) = count_segments_bounds ss in
      elim (Bool-cases (status_of s.segment_id).has_resident_snapshot) [
        | inl r ↦ elim (Bool-cases (status_of s.segment_id).has_disk_snapshot) [
          | inl k ↦ rw (r, k) (omega arith, omega arith, omega arith, omega arith)
          | inr k ↦ rw (r, k) (omega arith, omega arith, omega arith, omega arith)
        ]
        | inr r ↦ elim (Bool-cases (status_of s.segment_id).has_disk_snapshot) [
          | inl k ↦ rw (r, k) (omega arith, omega arith, omega arith, omega arith)
          | inr k ↦ rw (r, k) (omega arith, omega arith, omega arith, omega arith)
        ]
      ]

  count_segments_all :
      (segments : List Segment)
      → ((count_segments status_of segments).indexed_segments ≡ length segments)
        ↔ All (λ s. has_kv (status_of s.segment_id) ≡ true) segments
  unfolding count_segments
  count_segments_all [] = (λ h. tt, λ h. refl)
  count_segments_all (s ∷ ss) = ground (arith, count_segments_all ss, count_segments_bounds ss)

-- The two flags of a report, for any counters within these bounds.
counted :
    {P : Type 0} {n : ℕ} {c : KvCounts}
    → (c.resident_segments ≤ c.indexed_segments)
      × (c.saved_segments ≤ c.indexed_segments)
      × (c.indexed_segments ≤ n)
      × (c.indexed_segments ≤ c.resident_segments + c.saved_segments)
    → (c.indexed_segments ≡ n) ↔ P
    → (c.resident_segments ≤ c.indexed_segments)
      × (c.saved_segments ≤ c.indexed_segments)
      × (c.indexed_segments ≤ n)
      × (((ltb 0 n && (c.indexed_segments == n)) ≡ true) ↔ ((1 ≤ n) × P))
      × ((ltb 0 n && (c.saved_segments == n)) ≡ true
          → (ltb 0 n && (c.indexed_segments == n)) ≡ true)
counted (a, b, c, d) every = (
  a,
  b,
  c,
  (λ h. (ground arith, every.0 (ground arith)), λ h. let e = every.1 h.1 in ground arith),
  λ h. ground arith,
)

-- For a session whose plan is ready: a report never counts more resident or saved segments than
-- indexed ones, nor more indexed ones than the plan has; it says `indexed` exactly when the plan
-- has a segment and each has a KV state in memory or on disk; and what is `disk_cached` is `indexed`.
pub build_session_status_lem :
    (disk : Disk) (model_key : ModelCacheKey) (kv : ContextKvState) (session : Session)
    → session_plan_ready model_key session ≡ true
    → let r = build_session_status disk model_key kv session in
      let segments = session.segment_plan.segments in
      (r.resident_segments ≤ r.indexed_segments)
      × (r.saved_segments ≤ r.indexed_segments)
      × (r.indexed_segments ≤ length segments)
      × ((r.indexed ≡ true) ↔ (
          (1 ≤ length segments)
          × All (λ s. has_kv (status disk kv session s.segment_id none) ≡ true) segments))
      × (r.disk_cached ≡ true → r.indexed ≡ true)
unfolding build_session_status
build_session_status_lem disk model_key kv session ready = rw ready (
    counted (count_segments_bounds (λ id. status disk kv session id none) _)
      (count_segments_all (λ id. status disk kv session id none) _))
