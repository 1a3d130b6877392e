-- ===== src/Planner/Progress.antt =====
-- When planning succeeds.
use attemory.Planner.Place.{grows, starts, place_memory-Placed, Placed}
use attemory.Session.{collect_segment_memory_texts, Segment}
use attemory.Persistent.{SessionStore, MemoryRecord}
use attemory.Base.Result.{ok}
use attemory.Base.Int.{mem_ℤ, pos, ◌≤ℤ◌, leb_ℤ, ℤ}
use attemory.Base.Text.{is_empty, Bytes}
use attemory.Core.{Core}
use attemory.Planner.{
  grown_segment, rebuild_segment_plan_fast, plan_memories, segment_soft_limit, fresh_segment,
  append_token_estimate, estimate_segment_token_count_with_extra_memory, place_memory,
  extend_or_split, add_segment, refresh_estimate, Session,
}
use attemory.Base.{
  refl, length-set_last, length-append, ap, last?, All, Option-cases, suc, ◌+◌, ◌≤◌, inr, set_last,
  ◌&&◌, inl, true, false, arith, ◌++◌, ◌<◌, ◌||◌, [], ◌∷◌, length, Bool-cases, List, Bool, ◌≡◌,
}

-- The estimators answer every question.
pub record Answers (core : Core) : Type 0 where
  pub text_answer : (t : Bytes) → (n : ℤ) × (core.text_tokens t ≡ ok n)
  pub kv_answer : (s : Bytes) (ts : List Bytes) → (n : ℤ) × (core.kv_tokens s ts ≡ ok n)

-- A memory fits into a segment of its own.
abbrev pub FitsAlone : Core → Bytes → ℤ → MemoryRecord → Type 0
FitsAlone core system fresh m =
    (n : ℤ) × (core.kv_tokens system (m.text ∷ []) ≡ ok n) × (n ≤ℤ fresh)

Placed-length-le :
    {manual : Bool} {soft fresh : ℤ} {segments : List Segment} {z : ℤ} {segments' : List Segment}
    → Placed manual soft fresh segments z segments'
    → length segments' ≤ suc (length segments)
Placed-length-le {segments} {z} (starts tokens m a fits room e) =
    omega (arith, ap length e, length-append segments (fresh_segment segments tokens m a z ∷ []))
Placed-length-le {segments} {z} (grows last tokens x no_start fits back e) =
    omega (arith, ap length e, length-set_last segments (grown_segment last tokens x z))

limits_positive :
    (core : Core) (fresh : ℤ)
    → pos 1 ≤ℤ core.context_length
    → pos 1 ≤ℤ fresh
    → (leb_ℤ (segment_soft_limit core) (pos 0) || leb_ℤ fresh (pos 0)) ≡ false
unfolding segment_soft_limit
limits_positive core fresh h k = ground arith

module _ (core : Core) (answers : Answers core) where
  refresh_estimate_answer :
      (refresh : Bool) (m : MemoryRecord)
      → (m' : MemoryRecord) × (refresh_estimate core refresh m ≡ ok m') × (m'.text ≡ m.text)
  unfolding refresh_estimate
  refresh_estimate_answer refresh m =
      let (n, counted) = answers.text_answer m.text in
      elim (Bool-cases (refresh || leb_ℤ m.estimated_tokens (pos 0))) [
        | inl e ↦ (record m { estimated_tokens = n }, rw (e, counted), refl)
        | inr e ↦ (m, rw e, refl)
      ]

  add_segment_answer :
      (segments : List Segment) (tokens : ℤ) (m a : Bool) (z : ℤ)
      → length segments < 100
      → (segments' : List Segment) × (add_segment segments tokens m a z ≡ ok segments')
  unfolding add_segment
  add_segment_answer segments tokens m a z room =
      (segments ++ fresh_segment segments tokens m a z ∷ [], ground arith)

  extend_or_split_answer :
      (soft empty : ℤ) (store : SessionStore) (segments : List Segment) (last : Segment)
      (m : MemoryRecord) (tokens : ℤ)
      → length segments < 100
      → (segments' : List Segment) × (extend_or_split core soft empty store segments last m tokens
          ≡ ok segments')
  unfolding extend_or_split estimate_segment_token_count_with_extra_memory
  extend_or_split_answer soft empty store segments last m tokens room =
      let candidate = append_token_estimate last.estimated_tokens empty tokens in
      let (exact, counted) =
        answers.kv_answer store.system_text
          (collect_segment_memory_texts store last ++ m.text ∷ []) in
      let (segments', added) = add_segment_answer segments tokens false true m.memory_idx room in
      elim (Bool-cases (leb_ℤ candidate soft)) [
        | inl e ↦ (set_last segments (grown_segment last candidate false m.memory_idx), rw e)
        | inr e ↦ elim (Bool-cases (leb_ℤ exact soft)) [
          | inl e' ↦
              (set_last segments (grown_segment last exact true m.memory_idx), rw (e, counted, e'))
          | inr e' ↦ (segments', rw (e, counted, e') (unfold add_segment in added))
        ]
      ]

  place_memory_answer :
      (honor : Bool) (soft fresh empty : ℤ) (store : SessionStore) (segments : List Segment)
      (m : MemoryRecord)
      → length segments < 100
      → FitsAlone core store.system_text fresh m
      → (segments' : List Segment) × (place_memory core honor soft fresh empty store segments m
          ≡ ok segments')
  unfolding place_memory
  place_memory_answer honor soft fresh empty store segments m room (n, counted, fits) =
      let manual = honor && mem_ℤ m.memory_idx store.manual_segment_boundaries in
      elim (Option-cases (last? segments)) [
        | inl back ↦
            let (segments', added) = add_segment_answer segments n manual false m.memory_idx room in
            (segments', ground (arith, added))
        | inr (last, back) ↦ elim (Bool-cases manual) [
          | inl start ↦
              let (segments', added) = add_segment_answer segments n true false m.memory_idx room in
              (segments', ground (arith, added))
          | inr no_start ↦
              let (segments', placed) =
                extend_or_split_answer soft empty store segments last m n room in
              (segments', ground (arith, placed))
        ]
      ]

  module _ (honor refresh : Bool) (soft fresh empty : ℤ) (store : SessionStore) where
    plan_memories_answer :
        (done : List MemoryRecord) (segments : List Segment) (rest : List MemoryRecord)
        → length segments + length rest ≤ 100
        → All (FitsAlone core store.system_text fresh) rest
        → (plan_memories core honor refresh soft fresh empty store done segments rest).status
          ≡ ok tt
    unfolding plan_memories
    plan_memories_answer done segments [] room fits = refl
    plan_memories_answer done segments (m ∷ rest) room fits =
        let (m', counted, same) = refresh_estimate_answer refresh m in
        let store' : SessionStore = record store { memories = done ++ m' ∷ rest } in
        let (n, known, small) = fits.0 in
        let (segments', placed) =
          place_memory_answer honor soft fresh empty store' segments m' (omega arith)
            (n, rw same known, small) in
        rw (counted, placed)
          (plan_memories_answer (done ++ m' ∷ []) segments' rest
            (omega (
              arith,
              Placed-length-le (
                  place_memory-Placed core honor soft fresh empty store' segments m' segments'
                    placed),
            ))
            fits.1)

-- If the estimators answer, the context length is positive, so is the limit of a fresh segment,
-- the session has at most 100 memories and each of them fits into a fresh segment alone, then
-- `rebuild_segment_plan_fast` succeeds.
pub rebuild_segment_plan_fast_succeeds :
    (core : Core) (honor refresh : Bool) (fresh : ℤ) (model_key : Bytes) (session : Session)
    → Answers core
    → pos 1 ≤ℤ core.context_length
    → pos 1 ≤ℤ fresh
    → length session.store.memories ≤ 100
    → All (FitsAlone core session.store.system_text fresh) session.store.memories
    → (rebuild_segment_plan_fast core honor refresh fresh model_key session).0 ≡ ok tt
unfolding rebuild_segment_plan_fast
rebuild_segment_plan_fast_succeeds core honor refresh fresh model_key session answers ctx pos_fresh
      few fits =
    let (empty, counted) = answers.kv_answer session.store.system_text [] in
    elim (Bool-cases (is_empty session.store.memories)) [
      | inl e ↦ rw e
      | inr e ↦
          rw (e, limits_positive core fresh ctx pos_fresh, counted)
            (plan_memories_answer core answers honor refresh (segment_soft_limit core) fresh empty
              session.store [] [] session.store.memories (omega arith) fits)
    ]
