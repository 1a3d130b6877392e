-- ===== src/SessionAppend/OneRound.antt =====
-- Appending is one round of the planner on the plan as it stands.
use attemory.Kv.Metadata.{mark_segment_kv_missing, Disk}
use attemory.Persistent.{ModelCacheKey, MemoryRecord}
use attemory.Base.Int.{pos, ltb_ℤ, leb_ℤ, ℤ}
use attemory.Base.Result.{Result-cases, ◌>>=◌, ok, Result}
use attemory.Planner.{
  estimate_segment_token_count_with_extra_memory, append_token_estimate, place_memory,
  extend_or_split, grown_segment, add_segment, segment_soft_limit,
}
use attemory.Session.{MemoryInput, Segment, Session}
use attemory.Core.{Core}
use attemory.Base.{
  last?, set_last, ◌≡◌, refl, sym, ◌∙◌, inl, inr, true, false, List, [], ◌∷◌, arith, Bool-cases,
  Option-cases,
}
use attemory.SessionAppend.{
  starts_manual_segment, write_appended, append_memory_and_update_plan, write_choice,
  choose_segment, choose_in_last, Choice, opens, extends,
}

-- The segments that a choice stands for, as the planner places them.
abbrev placed_by : Session → Choice → Result (List Segment)
placed_by session (opens tokens m a) =
    add_segment session.segment_plan.segments tokens m a session.store.next_memory_idx
placed_by session (extends last tokens x) = ok (
    set_last session.segment_plan.segments
      (grown_segment last tokens x session.store.next_memory_idx))

module _ (core : Core) (session : Session) (memory : MemoryInput) (empty : ℤ)
    (counted : core.kv_tokens session.store.system_text [] ≡ ok empty) (estimate : ℤ) where
  abbrev soft : ℤ
  soft = segment_soft_limit core

  abbrev segments : List Segment
  segments = session.segment_plan.segments

  abbrev counted_record : MemoryRecord
  counted_record = record {
    memory_idx = session.store.next_memory_idx;
    has_id = memory.has_id;
    id = memory.id;
    text = memory.text;
    estimated_tokens = estimate;
  }

  choose_in_last-place :
      (last : Segment) (tokens : ℤ)
      → (choose_in_last core soft session.store last memory tokens >>= placed_by session)
        ≡ extend_or_split core soft empty session.store segments last counted_record tokens
  unfolding choose_in_last extend_or_split
  choose_in_last-place last tokens =
      elim (Bool-cases (leb_ℤ (append_token_estimate last.estimated_tokens empty tokens) soft)) [
        | inl small ↦ rw (counted, small) refl
        | inr large ↦
            elim (Result-cases (
              estimate_segment_token_count_with_extra_memory core session.store last memory.text)) [
                | inr (e, f) ↦ rw (counted, large, f) refl
                | inl (exact, f) ↦ elim (Bool-cases (leb_ℤ exact soft)) [
                  | inl s ↦ rw (counted, large, f, s) refl
                  | inr l ↦ rw (counted, large, f, l) refl
                ]
              ]
      ]

  -- Choosing and then placing is a round of the planner.
  choose_segment-place :
      (choose_segment core soft session memory >>= placed_by session)
      ≡ place_memory core true soft soft empty session.store segments counted_record
  unfolding choose_segment place_memory
  choose_segment-place =
      elim (Result-cases (core.kv_tokens session.store.system_text (memory.text ∷ []))) [
        | inr (e, f) ↦ rw f refl
        | inl (tokens, f) ↦ elim (Bool-cases (ltb_ℤ soft tokens)) [
          | inl l ↦ rw (f, l) refl
          | inr l ↦ elim (Option-cases (last? segments)) [
            | inl e ↦ rw (f, l, e) refl
            | inr (last, e) ↦ elim (Bool-cases (starts_manual_segment session.store)) [
              | inl manual ↦ rw (f, l, e, manual) refl
              | inr inside ↦ rw (f, l, e, inside) (choose_in_last-place last tokens)
            ]
          ]
        ]
      ]

  write_choice-place :
      (disk : Disk) (model_key : ModelCacheKey) (c : Choice)
      → (write_choice core disk model_key session memory c).status ≡ ok tt
      → placed_by session c
        ≡ ok (write_choice core disk model_key session memory c).session.segment_plan.segments
  unfolding write_choice write_appended mark_segment_kv_missing add_segment
  write_choice-place disk model_key (opens tokens m a) h = ground arith
  write_choice-place disk model_key (extends last tokens x) h = refl

  -- Where an append succeeds, a round of the planner gives the same segments.
  pub append_memory_and_update_plan-place :
      (disk : Disk) (model_key : ModelCacheKey)
      → let a = append_memory_and_update_plan core disk model_key session memory in
        a.status ≡ ok tt
        → (leb_ℤ soft (pos 0) ≡ false)
          × (place_memory core true soft soft empty session.store segments counted_record
              ≡ ok a.session.segment_plan.segments)
  unfolding append_memory_and_update_plan
  append_memory_and_update_plan-place disk model_key h = elim (Bool-cases (leb_ℤ soft (pos 0))) [
    | inl e ↦ absurd (ground arith)
    | inr e ↦ (
      e,
      elim (Result-cases (choose_segment core soft session memory)) [
        | inr (e', f) ↦ absurd (ground arith)
        | inl (c, f) ↦
            rw (e, f)
              (sym choose_segment-place
                ∙ rw f (write_choice-place disk model_key c (rw (e, f) at h)))
      ],
    )
  ]
