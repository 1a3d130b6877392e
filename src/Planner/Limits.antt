-- ===== src/Planner/Limits.antt =====
-- The limits that every plan keeps, however its construction ends.
use attemory.Planner.Rounds.{plan_memories_segments, rebuild_cases}
use attemory.Base.Text.{Bytes}
use attemory.Planner.{
  initialize_empty_segment_plan, rebuild_segment_plan_fast, segment_soft_limit, fresh_segment,
  grown_segment, max_segments_per_session,
}
use attemory.Core.{Core}
use attemory.Session.{Session, Segment}
use attemory.Base.{
  ◌&&◌, length-set_last, inl, ◌⊎◌, length-append, All-append, subst, ◌≢◌, some, ℕ, suc, ◌+◌, ◌≤◌,
  ◌≡◌, refl, Bool, false, List, [], ◌∷◌, ◌++◌, arith, length, last?, set_last, All,
}
use attemory.Base.Int.{max_ℤ, ℤ, pos, mem_ℤ, ◌≤ℤ◌}
use attemory.Planner.Place.{Placed, starts, grows, place_memory-Placed}

-- Ids are positions.
abbrev pub Numbered : ℕ → List Segment → Type 0
Numbered n [] = Unit
Numbered n (s ∷ ss) = (s.segment_id ≡ pos n) × Numbered (suc n) ss

abbrev pub tail_indices : List ℤ → List ℤ
tail_indices [] = []
tail_indices (z ∷ zs) = zs

-- A segment holds a memory, its estimate fits, and no memory but its first starts a segment by
-- the user's wish.
pub record IsSound (limit : ℤ) (is_start : ℤ → Bool) (s : Segment) : Type 0 where
  pub nonempty : s.memory_indices ≢ []
  pub fits : s.estimated_tokens ≤ℤ limit
  pub exact : (s.exact_tokens ≡ s.estimated_tokens) ⊎ (s.exact_tokens ≡ pos 0)
  pub no_inner_start : All (λ z. is_start z ≡ false) (tail_indices s.memory_indices)

pub record IsSoundPlan (limit : ℤ) (is_start : ℤ → Bool) (segments : List Segment) : Type 0 where
  pub bounded : length segments ≤ max_segments_per_session
  pub numbered : Numbered 0 segments
  pub each : All (IsSound limit is_start) segments

Numbered-snoc :
    (n : ℕ) (segments : List Segment) (s : Segment)
    → Numbered n segments
    → s.segment_id ≡ pos (n + length segments)
    → Numbered n (segments ++ s ∷ [])
Numbered-snoc n [] s h e = ground arith
Numbered-snoc n (x ∷ xs) s h e = (h.0, Numbered-snoc (suc n) xs s h.1 (ground arith))

Numbered-set_last :
    (n : ℕ) (segments : List Segment) (last next : Segment)
    → Numbered n segments
    → last? segments ≡ some last
    → next.segment_id ≡ last.segment_id
    → Numbered n (set_last segments next)
Numbered-set_last n [] last next h back e = cc
Numbered-set_last n (x ∷ []) last next h back e = ground arith
Numbered-set_last n (x ∷ y ∷ xs) last next h back e =
    (h.0, Numbered-set_last (suc n) (y ∷ xs) last next h.1 back e)

pub All-set_last {ℓ} :
    {A : Type ℓ} (P : A → Type 0) (xs : List A) (last next : A)
    → All P xs
    → last? xs ≡ some last
    → (P last → P next)
    → All P (set_last xs next)
All-set_last P [] last next h back f = tt
All-set_last P (x ∷ []) last next h back f = (let e : x ≡ last = cc in f (subst P e h.0), tt)
All-set_last P (x ∷ y ∷ xs) last next h back f = (h.0, All-set_last P (y ∷ xs) last next h.1 back f)

-- The next memory of a segment stands behind its first.
All-tail_snoc :
    (P : ℤ → Type 0) (zs : List ℤ) (z : ℤ)
    → zs ≢ []
    → All P (tail_indices zs)
    → P z
    → All P (tail_indices (zs ++ z ∷ []))
All-tail_snoc P [] z h a p = absurd (h refl)
All-tail_snoc P (x ∷ zs) z h a p = All-append P zs (z ∷ []) a (p, tt)

append-ne-nil : (zs : List ℤ) (z : ℤ) → zs ++ z ∷ [] ≢ []
append-ne-nil [] z e = cc
append-ne-nil (x ∷ zs) z e = cc

module _ (limit soft fresh : ℤ) (is_start : ℤ → Bool) (soft_le : soft ≤ℤ limit)
    (fresh_le : fresh ≤ℤ limit) where
  grown-IsSound :
      (last : Segment) (tokens : ℤ) (is_exact : Bool) (z : ℤ)
      → is_start z ≡ false
      → tokens ≤ℤ soft
      → IsSound limit is_start last
      → IsSound limit is_start (grown_segment last tokens is_exact z)
  grown-IsSound last tokens is_exact z no_start fits h = record {
    nonempty = append-ne-nil last.memory_indices z;
    fits = ground arith;
    exact = ground arith;
    no_inner_start =
        All-tail_snoc (λ y. is_start y ≡ false) last.memory_indices z h.nonempty h.no_inner_start
          no_start;
  }

  fresh-IsSound :
      (segments : List Segment) (tokens : ℤ) (manual_start auto_start : Bool) (z : ℤ)
      → tokens ≤ℤ fresh
      → IsSound limit is_start (fresh_segment segments tokens manual_start auto_start z)
  fresh-IsSound segments tokens m a z fits = record {
    nonempty = append-ne-nil [] z;
    fits = ground arith;
    exact = inl refl;
    no_inner_start = tt;
  }

  -- A round keeps the plan sound.
  pub Placed-IsSoundPlan :
      {segments : List Segment} {z : ℤ} {segments' : List Segment}
      → Placed (is_start z) soft fresh segments z segments'
      → IsSoundPlan limit is_start segments
      → IsSoundPlan limit is_start segments'
  Placed-IsSoundPlan {segments} {z} (starts tokens m a fits room e) h = rw e (record {
    bounded = omega (arith, length-append segments (fresh_segment segments tokens m a z ∷ []));
    numbered = Numbered-snoc 0 segments _ h.numbered (ground arith);
    each = All-append _ segments _ h.each (fresh-IsSound segments tokens m a z fits, tt);
  })
  Placed-IsSoundPlan {segments} {z} (grows last tokens x no_start fits back e) h = rw e (record {
    bounded = rw length-set_last h.bounded;
    numbered = Numbered-set_last 0 segments last _ h.numbered back refl;
    each = All-set_last _ segments last _ h.each back (grown-IsSound last tokens x z no_start fits);
  })

-- Whether `rebuild_segment_plan_fast` succeeds or fails, on any session and for any estimator, the
-- plan that it leaves has at most 100 segments, their ids are their positions, no segment is
-- empty, each estimate is at most the larger of the soft limit and the limit of a fresh segment,
-- a recorded exact count is the estimate or 0, and with `honor` a memory at a manual boundary
-- stands only at the start of a segment.
pub rebuild_segment_plan_fast-IsSoundPlan :
    (core : Core) (honor refresh : Bool) (fresh : ℤ) (model_key : Bytes) (session : Session)
    → IsSoundPlan
        (max_ℤ (segment_soft_limit core) fresh)
        (λ z. honor && mem_ℤ z session.store.manual_segment_boundaries)
        (rebuild_segment_plan_fast core honor refresh fresh model_key
          session).1.segment_plan.segments
rebuild_segment_plan_fast-IsSoundPlan core honor refresh fresh model_key session =
    rebuild_cases core honor refresh fresh model_key session
      (λ r. IsSoundPlan limit is_start r.1.segment_plan.segments) (λ e. none_yet) (λ e _. none_yet)
      λ empty.
        plan_memories_segments core honor refresh soft fresh empty session.store
          (IsSoundPlan limit is_start)
          (λ store' segments m segments' placed same h.
            Placed-IsSoundPlan limit soft fresh is_start (ground arith) (ground arith)
              (rw same at (
                place_memory-Placed core honor soft fresh empty store' segments m segments' placed))
              h)
          [] [] session.store.memories (record { bounded = omega arith; numbered = tt; each = tt })
  where
    soft : ℤ
    soft = segment_soft_limit core

    limit : ℤ
    limit = max_ℤ soft fresh

    is_start : ℤ → Bool
    is_start z = honor && mem_ℤ z session.store.manual_segment_boundaries

    none_yet :
        IsSoundPlan limit is_start
          (initialize_empty_segment_plan core model_key session).segment_plan.segments
    none_yet =
        unfold initialize_empty_segment_plan in
        record { bounded = omega arith; numbered = tt; each = tt }
