-- ===== src/Search.antt =====
-- src/context/search: how the ranked memories of each segment become the answer of a search. The
-- inference itself is the core's: `rank` stands for what it answers on one segment.
pub mod Oneshot
pub mod Merge
pub mod Limit
pub mod Order
use attemory.Base.Result.{◌>>=◌, ok, Result}
use attemory.Planner.{int32_max}
use attemory.Base.Text.{Bytes}
use attemory.Persistent.{find_memory, SessionStore}
use attemory.Session.{collect_segment_memory_texts, Session, Segment}
use attemory.Base.Int.{negsuc, pos, leb_ℤ, ltb_ℤ, eqb_ℤ, ℤ}
use attemory.Base.{
  get_elem?, ℕ, zero, suc, ◌+◌, ◌-◌, ◌*◌, ◌/◌, ◌%◌, ◌^◌, ◌≤◌, ◌<◌, ◌≡◌, refl, sym, ap, subst, ◌∙◌,
  ◌≢◌, ◌↔◌, ◌⊎◌, inl, inr, Bool, true, false, ◌&&◌, ◌||◌, not, Option, none, some, List, [], ◌∷◌,
  ◌++◌, map, arith, ltb, leb, ◌==◌, if◌then◌else◌, Bool-cases, Option-cases, length, All,
}

pub record AttentionMemoryRef : Type 0 where
  pub memory_index : ℤ
  pub segment_id : ℤ

pub record SearchConfig : Type 0 where
  pub candidate_top_k : ℤ
  pub top_k : ℤ

-- `v[i]` for a signed `i`, behind the test that it lies in the vector.
unfoldable pub at_index : List ℤ → ℤ → Option ℤ
at_index zs (pos n) = get_elem? zs n
at_index zs (negsuc n) = none

unfoldable pub memory_ref_exists : List AttentionMemoryRef → ℤ → Bool
memory_ref_exists [] memory_index = false
memory_ref_exists (m ∷ ms) memory_index =
    if eqb_ℤ m.memory_index memory_index then true else memory_ref_exists ms memory_index

-- The memory that a position in the segment names, if its index fits into 32 bits.
unfoldable pub segment_memory_ref : Segment → ℤ → Option AttentionMemoryRef
unfolding at_index
segment_memory_ref segment local_memory_index =
    elim (at_index segment.memory_indices local_memory_index) [
      | none ↦ none
      | some z ↦
          if ltb_ℤ z (pos 0) || ltb_ℤ int32_max z
          then none
          else some (record { memory_index = z; segment_id = segment.segment_id })
    ]

-- The body of the loop of `merge_segment_ranked_results`.
unfoldable pub merge_one :
    SessionStore → Segment → ℤ → List AttentionMemoryRef → List AttentionMemoryRef
unfolding segment_memory_ref memory_ref_exists
merge_one store segment item ordered = elim (segment_memory_ref segment item) [
  | none ↦ ordered
  | some ref ↦ elim (find_memory store ref.memory_index) [
    | none ↦ ordered
    | some m ↦ if memory_ref_exists ordered ref.memory_index then ordered else ordered ++ ref ∷ []
  ]
]

unfoldable pub merge_segment_ranked_results :
    SessionStore → Segment → List ℤ → List AttentionMemoryRef → List AttentionMemoryRef
unfolding merge_one
merge_segment_ranked_results store segment [] ordered = ordered
merge_segment_ranked_results store segment (item ∷ items) ordered =
    merge_segment_ranked_results store segment items (merge_one store segment item ordered)

-- `std::stable_sort` by segment id.
insert_segment : Segment → List Segment → List Segment
insert_segment s [] = s ∷ []
insert_segment s (x ∷ xs) =
    if ltb_ℤ x.segment_id s.segment_id then x ∷ insert_segment s xs else s ∷ x ∷ xs

unfoldable pub sorted_segments_by_id : List Segment → List Segment
unfolding insert_segment
sorted_segments_by_id [] = []
sorted_segments_by_id (s ∷ ss) = insert_segment s (sorted_segments_by_id ss)

unfoldable pub run_segments :
    (Segment → List Bytes → Result (List ℤ))
    → SessionStore
    → List Segment
    → List AttentionMemoryRef
    → Result (List AttentionMemoryRef)
run_segments rank store [] ordered = ok ordered
run_segments rank store (s ∷ ss) ordered = do
  ranked ← rank s (collect_segment_memory_texts store s)
  run_segments rank store ss (merge_segment_ranked_results store s ranked ordered)

-- `SegmentSearchRunner::run_ephemeral`: the core builds and searches each segment in turn, and the
-- first failure ends the search. `rank` is its answer to the texts of a segment.
unfoldable pub run_ephemeral :
    (Segment → List Bytes → Result (List ℤ)) → Session → Result (List AttentionMemoryRef)
unfolding run_segments sorted_segments_by_id
run_ephemeral rank session =
    run_segments rank session.store (sorted_segments_by_id session.segment_plan.segments) []

-- The hash map from a segment id to the number of its results; a missing id has 0.
unfoldable pub count_of : List (ℤ × ℕ) → ℤ → ℕ
count_of [] segment_id = 0
count_of ((k, n) ∷ rest) segment_id = if eqb_ℤ k segment_id then n else count_of rest segment_id

unfoldable pub limit_results : ℤ → List (ℤ × ℕ) → List AttentionMemoryRef → List AttentionMemoryRef
unfolding count_of
limit_results top_k counts [] = []
limit_results top_k counts (m ∷ ms) =
    let n = count_of counts m.segment_id in
    elim (ltb_ℤ (pos 0) top_k) [
      | false ↦ m ∷ limit_results top_k counts ms
      | true ↦ elim (leb_ℤ top_k (pos n)) [
        | true ↦ limit_results top_k counts ms
        | false ↦ m ∷ limit_results top_k ((m.segment_id, n + 1) ∷ counts) ms
      ]
    ]

unfoldable pub apply_search_result_limits :
    List AttentionMemoryRef → SearchConfig → List AttentionMemoryRef
unfolding limit_results
apply_search_result_limits ordered config = limit_results config.top_k [] ordered

-- `request_top_k` is the override of the request; -1 means that it has none.
unfoldable pub apply_search_request_overrides : SearchConfig → ℤ → SearchConfig
apply_search_request_overrides base request_top_k =
    if leb_ℤ (pos 0) request_top_k then record base { top_k = request_top_k } else base
