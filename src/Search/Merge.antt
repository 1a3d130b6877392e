-- ===== src/Search/Merge.antt =====
-- What merging the ranked memories of a segment adds to the results.
use attemory.Persistent.Lookup.{find_memory-mem}
use attemory.Planner.{int32_max}
use attemory.Session.{Segment}
use attemory.Persistent.{indices, SessionStore}
use attemory.Base.Int.{◌≤ℤ◌, negsuc, Distinct-snoc, eqb_ℤ_iff, pos, Distinct, ltb_ℤ, ℤ, mem_ℤ}
use attemory.Search.{
  merge_segment_ranked_results, merge_one, at_index, memory_ref_exists, AttentionMemoryRef,
}
use mathlib.Core.List.{append_assoc, append-nil, map-append}
use attemory.Base.{
  get_elem?, ℕ, zero, suc, ◌≡◌, refl, sym, subst, ◌∙◌, ◌⊎◌, inl, inr, true, false, ◌||◌, some, List,
  [], ◌∷◌, ◌++◌, map, arith, Bool-cases, Option-cases, All,
}

abbrev pub results : List AttentionMemoryRef → List ℤ
results = map (λ r. r.memory_index)

memory_ref_exists-mem :
    (ms : List AttentionMemoryRef) (z : ℤ) → memory_ref_exists ms z ≡ mem_ℤ z (results ms)
unfolding memory_ref_exists mem_ℤ
memory_ref_exists-mem [] z = refl
memory_ref_exists-mem (m ∷ ms) z = ground (arith, memory_ref_exists-mem ms z)

get_elem?-mem : (zs : List ℤ) (n : ℕ) (z : ℤ) → get_elem? zs n ≡ some z → mem_ℤ z zs ≡ true
unfolding mem_ℤ
get_elem?-mem [] n z h = cc
get_elem?-mem (x ∷ zs) zero z h = ground (arith, eqb_ℤ_iff x z)
get_elem?-mem (x ∷ zs) (suc n) z h = ground (arith, get_elem?-mem zs n z h)

at_index-mem : (zs : List ℤ) (i z : ℤ) → at_index zs i ≡ some z → mem_ℤ z zs ≡ true
unfolding at_index
at_index-mem zs (pos n) z h = get_elem?-mem zs n z h
at_index-mem zs (negsuc n) z h = cc

-- A result of a segment: one of its memories, which the store has, at an index of 32 bits.
pub record IsResultOf (store : SessionStore) (segment : Segment) (r : AttentionMemoryRef)
    : Type 0 where
  pub of_segment : r.segment_id ≡ segment.segment_id
  pub in_segment : mem_ℤ r.memory_index segment.memory_indices ≡ true
  pub in_store : mem_ℤ r.memory_index (indices store.memories) ≡ true
  pub nonneg : pos 0 ≤ℤ r.memory_index
  pub small : r.memory_index ≤ℤ int32_max

-- One item adds a new result, or none.
merge_one_cases :
    (store : SessionStore) (segment : Segment) (item : ℤ) (ordered : List AttentionMemoryRef)
    → (merge_one store segment item ordered ≡ ordered)
      ⊎ ((r : AttentionMemoryRef) × IsResultOf store segment r
          × (mem_ℤ r.memory_index (results ordered) ≡ false)
          × (merge_one store segment item ordered ≡ ordered ++ r ∷ []))
unfolding merge_one
merge_one_cases store segment item ordered =
    elim (Option-cases (at_index segment.memory_indices item)) [
      | inl e ↦ inl (ground arith)
      | inr (z, e) ↦ elim (Bool-cases (ltb_ℤ z (pos 0) || ltb_ℤ int32_max z)) [
        | inl out ↦ inl (ground arith)
        | inr fits ↦ elim (find_memory-mem store z) [
          | inl (missing, _) ↦ inl (ground arith)
          | inr (m, found, _, known) ↦ elim (Bool-cases (memory_ref_exists ordered z)) [
            | inl old ↦ inl (ground arith)
            | inr new ↦ inr (
              record { memory_index = z; segment_id = segment.segment_id },
              record {
                of_segment = refl;
                in_segment = at_index-mem segment.memory_indices item z e;
                in_store = known;
                nonneg = ground arith;
                small = ground arith;
              },
              sym (memory_ref_exists-mem ordered z) ∙ new,
              ground arith,
            )
          ]
        ]
      ]
    ]

-- All that a merge does to the results.
pub merge_segment_ranked_results_lem :
    (store : SessionStore) (segment : Segment) (ranked : List ℤ) (ordered : List AttentionMemoryRef)
    → (new : List AttentionMemoryRef) × (merge_segment_ranked_results store segment ranked ordered
        ≡ ordered ++ new)
      × All (IsResultOf store segment) new
      × (Distinct (results ordered) → Distinct (results (ordered ++ new)))
unfolding merge_segment_ranked_results
merge_segment_ranked_results_lem store segment [] ordered =
    ([], sym (append-nil ordered), tt, λ d. rw append-nil d)
merge_segment_ranked_results_lem store segment (item ∷ items) ordered =
    elim (merge_one_cases store segment item ordered) [
      | inl same ↦ rw same (merge_segment_ranked_results_lem store segment items ordered)
      | inr (r, is_result, fresh, e) ↦
          let (new, grown, all, distinct) =
            merge_segment_ranked_results_lem store segment items (ordered ++ r ∷ []) in
          (
            r ∷ new,
            rw e (grown ∙ append_assoc ordered (r ∷ []) new),
            (is_result, all),
            λ d.
                subst (λ rs. Distinct (results rs)) (append_assoc ordered (r ∷ []) new)
                  (distinct
                    (rw map-append (Distinct-snoc (results ordered) r.memory_index d fresh))),
          )
    ]

-- `merge_segment_ranked_results` keeps the results that were there, in their order, and puts new
-- ones behind them; each of these is a memory of the segment and of the store, under the
-- segment's id.
pub merge_segment_ranked_results-append :
    (store : SessionStore) (segment : Segment) (ranked : List ℤ) (ordered : List AttentionMemoryRef)
    → (new : List AttentionMemoryRef) × (merge_segment_ranked_results store segment ranked ordered
        ≡ ordered ++ new)
      × All (IsResultOf store segment) new
merge_segment_ranked_results-append store segment ranked ordered =
    let (new, e, all, distinct) = merge_segment_ranked_results_lem store segment ranked ordered in
    (new, e, all)

-- When no memory occurs twice in the results, none does after `merge_segment_ranked_results`,
-- whatever positions the core ranks.
pub merge_segment_ranked_results-Distinct :
    (store : SessionStore) (segment : Segment) (ranked : List ℤ) (ordered : List AttentionMemoryRef)
    → Distinct (results ordered)
    → Distinct (results (merge_segment_ranked_results store segment ranked ordered))
merge_segment_ranked_results-Distinct store segment ranked ordered d =
    let (new, e, all, distinct) = merge_segment_ranked_results_lem store segment ranked ordered in
    rw e (distinct d)
