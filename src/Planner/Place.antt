-- ===== src/Planner/Place.antt =====
-- What one round of the planning loop does to the segments, as a relation.
use attemory.Base.{
  ◌<◌, ◌≡◌, inl, inr, Bool, true, false, ◌&&◌, some, List, [], ◌∷◌, ◌++◌, arith, length, last?,
  set_last, Bool-cases, Option-cases,
}
use attemory.Base.Int.{ℤ, ltb_ℤ, leb_ℤ, ◌≤ℤ◌, mem_ℤ}
use attemory.Base.Result.{ok, Result-cases}
use attemory.Core.{Core}
use attemory.Persistent.{MemoryRecord, SessionStore}
use attemory.Session.{Segment}
use attemory.Planner.{
  max_segments_per_session, add_segment, extend_or_split, place_memory, fresh_segment,
  grown_segment, append_token_estimate, estimate_segment_token_count_with_extra_memory,
}

-- A memory starts a segment of its own, or is put at the end of the last one.
pub data Placed (manual : Bool) (soft fresh : ℤ) (segments : List Segment) (memory_idx : ℤ)
    (segments' : List Segment) : Type 0 where
  starts :
      (tokens : ℤ) (manual_start auto_start : Bool)
      → tokens ≤ℤ fresh
      → length segments < max_segments_per_session
      → segments'
        ≡ segments ++ fresh_segment segments tokens manual_start auto_start memory_idx ∷ []
      → Placed manual soft fresh segments memory_idx segments'
  grows :
      (last : Segment) (tokens : ℤ) (is_exact : Bool)
      → manual ≡ false
      → tokens ≤ℤ soft
      → last? segments ≡ some last
      → segments' ≡ set_last segments (grown_segment last tokens is_exact memory_idx)
      → Placed manual soft fresh segments memory_idx segments'

module _ (core : Core) (honor : Bool) (soft fresh empty : ℤ) (store : SessionStore)
    (segments : List Segment) (memory : MemoryRecord) where
  abbrev manual : Bool
  manual = honor && mem_ℤ memory.memory_idx store.manual_segment_boundaries

  abbrev ResultPlaced : List Segment → Type 0
  ResultPlaced = Placed manual soft fresh segments memory.memory_idx

  add_segment-Placed :
      (tokens : ℤ) (manual_start auto_start : Bool) (segments' : List Segment)
      → tokens ≤ℤ fresh
      → add_segment segments tokens manual_start auto_start memory.memory_idx ≡ ok segments'
      → ResultPlaced segments'
  unfolding add_segment
  add_segment-Placed tokens m a segments' fits h =
      starts tokens m a fits (ground arith) (ground arith)

  extend_or_split-Placed :
      (last : Segment) (tokens : ℤ) (segments' : List Segment)
      → manual ≡ false
      → last? segments ≡ some last
      → tokens ≤ℤ fresh
      → extend_or_split core soft empty store segments last memory tokens ≡ ok segments'
      → ResultPlaced segments'
  unfolding extend_or_split
  extend_or_split-Placed last tokens segments' no_start back fits h =
      let candidate = append_token_estimate last.estimated_tokens empty tokens in
      elim (Bool-cases (leb_ℤ candidate soft)) [
        | inl e ↦ grows last candidate false no_start (ground arith) back (ground arith)
        | inr e ↦
            elim (Result-cases
              (estimate_segment_token_count_with_extra_memory core store last memory.text)) [
                | inl (exact, counted) ↦ elim (Bool-cases (leb_ℤ exact soft)) [
                  | inl small ↦ grows last exact true no_start (ground arith) back (ground arith)
                  | inr large ↦ add_segment-Placed tokens false true segments' fits (ground arith)
                ]
                | inr (e', failed) ↦ absurd (ground arith)
              ]
      ]

  -- A round that succeeds is one of the two.
  pub place_memory-Placed :
      (segments' : List Segment)
      → place_memory core honor soft fresh empty store segments memory ≡ ok segments'
      → ResultPlaced segments'
  unfolding place_memory
  place_memory-Placed segments' h =
      elim (Result-cases (core.kv_tokens store.system_text (memory.text ∷ []))) [
        | inr (e, failed) ↦ absurd (ground arith)
        | inl (tokens, counted) ↦ elim (Bool-cases (ltb_ℤ fresh tokens)) [
          | inl large ↦ absurd (ground arith)
          | inr fits ↦ elim (Option-cases (last? segments)) [
            | inl back ↦
                add_segment-Placed tokens manual false segments' (ground arith) (ground arith)
            | inr (last, back) ↦ elim (Bool-cases manual) [
              | inl start ↦
                  add_segment-Placed tokens true false segments' (ground arith) (ground arith)
              | inr no_start ↦
                  extend_or_split-Placed last tokens segments' no_start back (ground arith)
                    (ground arith)
            ]
          ]
        ]
      ]
