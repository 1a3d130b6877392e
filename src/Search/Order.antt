-- ===== src/Search/Order.antt =====
-- The order in which the segments are searched, and a whole search.
use attemory.Search.Merge.{merge_segment_ranked_results_lem, IsResultOf, results}
use attemory.Persistent.{indices, SessionStore}
use attemory.Planner.{rebuild_segment_plan_fast}
use attemory.Base.Result.{Result-cases, ok, Result}
use attemory.Base.Text.{Bytes}
use attemory.Planner.Limits.{rebuild_segment_plan_fast-IsSoundPlan, Numbered}
use attemory.Base.Int.{mem_ℤ, Distinct, pos, ℤ}
use attemory.Session.{collect_segment_memory_texts, Session, Segment}
use attemory.Core.{Core}
use attemory.Search.{
  merge_segment_ranked_results, AttentionMemoryRef, insert_segment, run_ephemeral, run_segments,
  sorted_segments_by_id,
}
use attemory.Base.{
  All-append, ℕ, suc, ◌≡◌, refl, subst, inl, inr, Bool, true, List, [], ◌∷◌, arith, All,
}

insert_segment-cons :
    (n : ℕ) (s : Segment) (ss : List Segment)
    → s.segment_id ≡ pos n
    → Numbered (suc n) ss
    → insert_segment s ss ≡ s ∷ ss
unfolding insert_segment
insert_segment-cons n s [] e h = refl
insert_segment-cons n s (x ∷ xs) e h = ground (arith, h.0)

sorted-Numbered : (n : ℕ) (ss : List Segment) → Numbered n ss → sorted_segments_by_id ss ≡ ss
unfolding sorted_segments_by_id
sorted-Numbered n [] h = refl
sorted-Numbered n (s ∷ ss) h =
    rw (sorted-Numbered (suc n) ss h.1) (insert_segment-cons n s ss h.0 h.1)

-- A plan as `rebuild_segment_plan_fast` makes it is searched in its own order: sorting by segment
-- id leaves it as it is, whether planning succeeded or not.
sorted_segments_by_id-rebuild :
    (core : Core) (honor refresh : Bool) (fresh : ℤ) (model_key : Bytes) (session : Session)
    → let plan =
        (rebuild_segment_plan_fast core honor refresh fresh model_key session).1.segment_plan in
      sorted_segments_by_id plan.segments ≡ plan.segments
sorted_segments_by_id-rebuild core honor refresh fresh model_key session =
    sorted-Numbered 0 _
      (rebuild_segment_plan_fast-IsSoundPlan core honor refresh fresh model_key session).numbered

-- The store has the memory of each result.
abbrev pub KnownResults : SessionStore → List AttentionMemoryRef → Type 0
KnownResults store = All (λ r. mem_ℤ r.memory_index (indices store.memories) ≡ true)

run_segments_lem :
    (rank : Segment → List Bytes → Result (List ℤ)) (store : SessionStore) (ss : List Segment)
    (ordered final : List AttentionMemoryRef)
    → run_segments rank store ss ordered ≡ ok final
    → Distinct (results ordered)
    → KnownResults store ordered
    → Distinct (results final) × KnownResults store final
unfolding run_segments
run_segments_lem rank store [] ordered final h d k =
    let e : ordered ≡ final = ground arith in
    (subst (λ rs. Distinct (results rs)) e d, subst (KnownResults store) e k)
run_segments_lem rank store (s ∷ ss) ordered final h d k =
    elim (Result-cases (rank s (collect_segment_memory_texts store s))) [
      | inr (e, failed) ↦ absurd (ground arith)
      | inl (ranked, answered) ↦
          let (new, merged, all, distinct) =
            merge_segment_ranked_results_lem store s ranked ordered in
          let next = merge_segment_ranked_results store s ranked ordered in
          run_segments_lem rank store ss next final (rw answered at h) (rw merged (distinct d))
            (rw merged (All-append _ ordered new k (known new all)))
    ]
  where
    known : (new : List AttentionMemoryRef) → All (IsResultOf store s) new → KnownResults store new
    known [] h = tt
    known (r ∷ rs) h = (h.0.in_store, known rs h.1)

-- When `run_ephemeral` succeeds, no memory occurs twice in its answer and each is one of the
-- store, whatever the core ranks, positions out of range and repeated ones included.
pub run_ephemeral-Distinct :
    (rank : Segment → List Bytes → Result (List ℤ)) (session : Session)
    (final : List AttentionMemoryRef)
    → run_ephemeral rank session ≡ ok final
    → Distinct (results final) × KnownResults session.store final
unfolding run_ephemeral
run_ephemeral-Distinct rank session final h =
    run_segments_lem rank session.store (sorted_segments_by_id session.segment_plan.segments) []
      final h tt tt
