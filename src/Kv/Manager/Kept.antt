-- ===== src/Kv/Manager/Kept.antt =====
-- What is live after `keep_only_segment_live` of src/context/kv/segment_kv_manager.cpp.
use attemory.Kv.Resident.Released.{keep_only_segment_live_lem}
use attemory.Base.Int.{eqb_ℤ, ℤ}
use attemory.Base.Text.{bytes_eq, Bytes}
use attemory.Base.Result.{err, ResultStatus, ok, Result-cases}
use attemory.Kv.Resident.{is_at, Slot}
use attemory.Kv.Manager.{
  keep_active, is_active_at, clear_active, keep_only_segment_live, ContextKvState, release_prefixes,
  release_prefix,
}
use attemory.Kv.Handle.{
  segment_kv_has_live_context, Handle, Export, ensure_segment_kv_snapshot,
  release_segment_kv_context, Heap,
}
use attemory.Kv.Resident.Live
use attemory.Base.{
  ℕ, ◌≡◌, refl, sym, subst, ◌⊎◌, inl, inr, Bool, true, false, ◌||◌, not, none, some, List, [], ◌∷◌,
  arith, Bool-cases, All,
}

abbrev IsIdle : Heap → ℕ → Type 0
IsIdle heap a = (heap a).has_live_context ≡ false

-- A heap on which no state has become live.
abbrev Calmer : Heap → Heap → Type 0
Calmer before after = (b : ℕ) → IsIdle before b → IsIdle after b

release_segment_kv_context-Calmer :
    (heap : Heap) (handle : Handle) → Calmer heap (release_segment_kv_context heap handle)
unfolding release_segment_kv_context
release_segment_kv_context-Calmer heap none b h = h
release_segment_kv_context-Calmer heap (some a) b h = ground arith

release_segment_kv_context-IsIdle :
    (heap : Heap) (a : ℕ) → IsIdle (release_segment_kv_context heap (some a)) a
unfolding release_segment_kv_context
release_segment_kv_context-IsIdle heap a = ground arith

ensure_segment_kv_snapshot-Calmer :
    (export : Export) (heap : Heap) (handle : Handle)
    → Calmer heap (ensure_segment_kv_snapshot export heap handle).1
unfolding ensure_segment_kv_snapshot
ensure_segment_kv_snapshot-Calmer export heap none b h = h
ensure_segment_kv_snapshot-Calmer export heap (some a) b h =
    elim (Bool-cases (heap a).has_live_context) [
      | inr idle ↦ ground arith
      | inl live ↦ elim (Result-cases (export (heap a))) [
        | inr (e, failed) ↦ ground arith
        | inl (r, exported) ↦ ground arith
      ]
    ]

-- The slots that a call may leave live, or that are idle.
abbrev Quiet : (Slot → Bool) → Heap → List Slot → Type 0
Quiet keep heap = All (λ s. (keep s ≡ true) ⊎ IsIdle heap s.entry.handle)

Quiet-Calmer :
    (keep : Slot → Bool) (heap heap' : Heap) (ss : List Slot)
    → Calmer heap heap'
    → Quiet keep heap ss
    → Quiet keep heap' ss
Quiet-Calmer keep heap heap' [] calm h = tt
Quiet-Calmer keep heap heap' (s ∷ ss) calm (inl k, h) =
    (inl k, Quiet-Calmer keep heap heap' ss calm h)
Quiet-Calmer keep heap heap' (s ∷ ss) calm (inr i, h) =
    (inr (calm _ i), Quiet-Calmer keep heap heap' ss calm h)

module _ (export : Export) where
  release_prefix_lem :
      (heap : Heap) (a : ℕ)
      → let r = release_prefix export heap (some a) in
        Calmer heap r.1 × (r.0 ≡ ok tt → IsIdle r.1 a)
  unfolding release_prefix segment_kv_has_live_context
  release_prefix_lem heap a = elim (Bool-cases (heap a).has_live_context) [
    | inr idle ↦ rw (release_prefix, idle) (λ b h. h, λ _. idle)
    | inl live ↦ elim (Result-cases (ensure_segment_kv_snapshot export heap (some a)).0) [
      | inr (e, failed) ↦
          rw (release_prefix, live, failed)
            (ensure_segment_kv_snapshot-Calmer export heap (some a), λ h. ground arith)
      | inl (u, done) ↦
          rw (release_prefix, live, done)
            (
              λ b h.
                  release_segment_kv_context-Calmer _ (some a) b
                    (ensure_segment_kv_snapshot-Calmer export heap (some a) b h),
              λ _. release_segment_kv_context-IsIdle _ a,
            )
    ]
  ]

  module _ (keep : Slot → Bool) where
    -- What a run over the slots leaves.
    abbrev Released : Heap → List Slot → ResultStatus × Heap → Type 0
    Released heap ss r = Calmer heap r.1 × (r.0 ≡ ok tt → Quiet keep r.1 ss)

    release_prefixes_cases :
        (heap : Heap) (s : Slot) (ss : List Slot)
        → let r = release_prefix export heap (some s.entry.handle) in
          let all = release_prefixes export keep heap (s ∷ ss) in
          ((keep s ≡ true) × (all ≡ release_prefixes export keep heap ss))
          ⊎ ((r.0 ≡ ok tt) × (all ≡ release_prefixes export keep r.1 ss))
          ⊎ ((e : Bytes) × (all ≡ (err e, r.1)))
    unfolding release_prefixes
    release_prefixes_cases heap s ss = elim (Bool-cases (keep s)) [
      | inl k ↦ inl (k, rw (release_prefixes, k) refl)
      | inr k ↦ inr elim (Result-cases (release_prefix export heap (some s.entry.handle)).0) [
        | inl (u, done) ↦ inl (done, rw (release_prefixes, k, done) refl)
        | inr (e, failed) ↦ inr (e, rw (release_prefixes, k, failed) refl)
      ]
    ]

    release_prefixes_lem :
        (heap : Heap) (ss : List Slot) → Released heap ss (release_prefixes export keep heap ss)
    unfolding release_prefixes
    release_prefixes_lem heap [] = (λ b h. h, λ _. tt)
    release_prefixes_lem heap (s ∷ ss) =
        let r = release_prefix export heap (some s.entry.handle) in
        let (calm, idle) = release_prefix_lem heap s.entry.handle in
        elim (release_prefixes_cases heap s ss) [
          | inl (k, e) ↦
              let (calm', quiet) = release_prefixes_lem heap ss in
              subst (Released heap (s ∷ ss)) (sym e) (calm', λ h. (inl k, quiet h))
          | inr (inl (done, e)) ↦
              let (calm', quiet) = release_prefixes_lem r.1 ss in
              subst (Released heap (s ∷ ss)) (sym e)
                (λ b h. calm' b (calm b h), λ h. (inr (calm' _ (idle done)), quiet h))
          | inr (inr (x, e)) ↦ subst (Released heap (s ∷ ss)) (sym e) (calm, λ h. ground arith)
        ]

-- What may be live: the slots of other sessions, and the one segment.
abbrev pub other_session : Bytes → ℤ → Slot → Bool
other_session session_id segment_id s =
    not (bytes_eq s.session_id session_id) || eqb_ℤ s.segment_id segment_id

abbrev pub IsQuiet : ContextKvState → Bytes → ℤ → Type 0
IsQuiet kv i z =
    Quiet (other_session i z) kv.heap kv.resident.resident_segments
    × Quiet (λ s. is_at i z s) kv.heap kv.incremental_prefixes
    × ((kv.active_segment.handle ≡ none) ⊎ (is_active_at kv i z ≡ true))

keep_active-IsQuiet :
    (kv : ContextKvState) (i : Bytes) (z : ℤ) (handle : Handle)
    → kv.active_segment.handle ≡ handle
    → Quiet (other_session i z) kv.heap kv.resident.resident_segments
    → Quiet (λ s. is_at i z s) kv.heap kv.incremental_prefixes
    → IsQuiet (keep_active kv i z handle) i z
unfolding keep_active clear_active
keep_active-IsQuiet kv i z none e q q' = (q, q', inl e)
keep_active-IsQuiet kv i z (some a) e q q' = elim (Bool-cases (is_active_at kv i z)) [
  | inl here ↦ rw here (q, q', inr here)
  | inr elsewhere ↦
      let calm = release_segment_kv_context-Calmer kv.heap kv.active_segment.handle in
      let after = release_segment_kv_context kv.heap kv.active_segment.handle in
      rw elsewhere (
        Quiet-Calmer (other_session i z) kv.heap after kv.resident.resident_segments calm q,
        Quiet-Calmer (λ s. is_at i z s) kv.heap after kv.incremental_prefixes calm q',
        inl refl,
      )
]

-- When `keep_only_segment_live` succeeds, no other resident segment of the session and no staged
-- prefix but that of the segment has a live context, and the active segment is this one or none.
pub keep_only_segment_live-IsQuiet :
    (export : Export) (kv : ContextKvState) (session_id : Bytes) (segment_id : ℤ)
    → let r = keep_only_segment_live export kv session_id segment_id in
      r.0 ≡ ok tt → IsQuiet r.1 session_id segment_id
unfolding keep_only_segment_live
keep_only_segment_live-IsQuiet export kv i z h =
    let kept = Live.keep_only_segment_live export kv.heap kv.resident i z in
    let r = release_prefixes export (λ s. is_at i z s) kept.1 kv.incremental_prefixes in
    let (calm, quiet) =
      release_prefixes_lem export (λ s. is_at i z s) kept.1 kv.incremental_prefixes in
    elim (Result-cases kept.0) [
      | inr (e, f) ↦ absurd (ground arith)
      | inl (u, f) ↦ elim (Result-cases r.0) [
        | inr (e, g) ↦ absurd (ground arith)
        | inl (v, g) ↦
            rw (f, g)
              (keep_active-IsQuiet (record kv { heap = r.1; resident = kept.2 }) i z
                kv.active_segment.handle refl
                (Quiet-Calmer (other_session i z) kept.1 r.1 kept.2.resident_segments calm
                  (keep_only_segment_live_lem export kv.heap kv.resident i z f))
                (quiet g))
      ]
    ]
