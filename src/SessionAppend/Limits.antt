-- ===== src/SessionAppend/Limits.antt =====
-- Appending keeps the plan whole and in its limits, and the store valid.
use mathlib.Core.List.{map-append}
use attemory.Base.Text.{text, Bytes}
use attemory.Kv.Metadata.{mark_segment_kv_missing, Disk}
use attemory.Persistent.{ModelCacheKey, indices}
use attemory.Planner.Partition.{Placed-planned, planned}
use attemory.Base.Int.{pos, leb_ℤ, ltb_ℤ, mem_ℤ, ◌≤ℤ◌, ℤ}
use attemory.Planner.{
  fresh_segment, max_segments_per_session, estimate_segment_token_count_with_extra_memory,
  append_token_estimate, segment_soft_limit,
}
use attemory.Planner.Limits.{Placed-IsSoundPlan, IsSoundPlan}
use attemory.Session.{MemoryInput, Segment, Session}
use attemory.Core.{Core}
use attemory.Base.{
  ◌++◌, last?, ◌≡◌, refl, subst, ◌∙◌, inl, inr, true, false, some, List, [], ◌∷◌, arith, Bool-cases,
  Option-cases, length,
}
use attemory.Base.Result.{Result-cases, ok}
use attemory.Planner.Place.{Placed, starts, grows}
use attemory.SessionAppend.{
  new_record, not_appended, append_record, write_appended, append_memory_and_update_plan,
  write_choice, Appended, starts_manual_segment, choose_segment, choose_in_last, Choice, opens,
  extends,
}

-- The plan of a session: within its limits, and with each memory of the store in its place.
pub record IsPlanned (core : Core) (session : Session) : Type 0 where
  pub sound :
      IsSoundPlan
        (segment_soft_limit core)
        (λ z. mem_ℤ z session.store.manual_segment_boundaries)
        session.segment_plan.segments
  pub whole : planned session.segment_plan.segments ≡ indices session.store.memories

-- What a choice does to the segments, where it does not fail.
abbrev pub ChoicePlaced : Core → Session → Choice → Type 0
ChoicePlaced core session (opens tokens m a) = tokens ≤ℤ segment_soft_limit core
ChoicePlaced core session (extends last tokens x) =
    (starts_manual_segment session.store ≡ false)
    × (tokens ≤ℤ segment_soft_limit core)
    × (last? session.segment_plan.segments ≡ some last)

module _ (core : Core) (session : Session) (memory : MemoryInput) where
  abbrev soft : ℤ
  soft = segment_soft_limit core

  at_choice :
      (made c : Choice)
      → ok made ≡ ok c
      → ChoicePlaced core session made
      → ChoicePlaced core session c
  at_choice made c e h =
      let same : made ≡ c = ground arith in subst (ChoicePlaced core session) same h

  choose_in_last-ChoicePlaced :
      (last : Segment) (tokens : ℤ) (c : Choice)
      → starts_manual_segment session.store ≡ false
      → last? session.segment_plan.segments ≡ some last
      → tokens ≤ℤ soft
      → choose_in_last core soft session.store last memory tokens ≡ ok c
      → ChoicePlaced core session c
  unfolding choose_in_last
  choose_in_last-ChoicePlaced last tokens c manual back fits h =
      elim (Result-cases (core.kv_tokens session.store.system_text [])) [
        | inr (e, f) ↦ absurd (ground arith)
        | inl (empty, f) ↦
            let candidate = append_token_estimate last.estimated_tokens empty tokens in
            elim (Bool-cases (leb_ℤ candidate soft)) [
              | inl small ↦
                  at_choice (extends last candidate false) c (ground arith)
                    (manual, ground arith, back)
              | inr large ↦
                  elim (Result-cases (
                    estimate_segment_token_count_with_extra_memory core session.store last
                      memory.text)) [
                        | inr (e, g) ↦ absurd (ground arith)
                        | inl (exact, g) ↦ elim (Bool-cases (leb_ℤ exact soft)) [
                          | inl s ↦
                              at_choice (extends last exact true) c (ground arith)
                                (manual, ground arith, back)
                          | inr l ↦ at_choice (opens tokens false true) c (ground arith) fits
                        ]
                      ]
            ]
      ]

  pub choose_segment-ChoicePlaced :
      (c : Choice) → choose_segment core soft session memory ≡ ok c → ChoicePlaced core session c
  unfolding choose_segment
  choose_segment-ChoicePlaced c h =
      elim (Result-cases (core.kv_tokens session.store.system_text (memory.text ∷ []))) [
        | inr (e, f) ↦ absurd (ground arith)
        | inl (tokens, f) ↦ elim (Bool-cases (ltb_ℤ soft tokens)) [
          | inl large ↦ absurd (ground arith)
          | inr fits ↦ elim (Option-cases (last? session.segment_plan.segments)) [
            | inl none_yet ↦
                at_choice (opens tokens (starts_manual_segment session.store) false) c
                  (ground arith) (ground arith)
            | inr (last, back) ↦ elim (Bool-cases (starts_manual_segment session.store)) [
              | inl start ↦ at_choice (opens tokens true false) c (ground arith) (ground arith)
              | inr inside ↦
                  choose_in_last-ChoicePlaced last tokens c inside back (ground arith)
                    (ground arith)
            ]
          ]
        ]
      ]

abbrev PlacedNext : Core → Session → List Segment → Type 0
PlacedNext core session =
    let limit = segment_soft_limit core in
    Placed (starts_manual_segment session.store) limit limit session.segment_plan.segments
      session.store.next_memory_idx

-- What appending returns: nothing is written, or the segments are one round further.
pub data Outcome (core : Core) (disk : Disk) (model_key : ModelCacheKey) (session : Session)
    (memory : MemoryInput) (a : Appended) : Type 0 where
  refused : (e : Bytes) → a ≡ not_appended session e → Outcome core disk model_key session memory a
  written :
      (segments : List Segment) (segment : Segment)
      → PlacedNext core session segments
      → a.status ≡ ok tt
      → a.session ≡ write_appended core disk model_key session memory segments segment
      → a.segment_id ≡ segment.segment_id
      → a.token_count ≡ segment.estimated_tokens
      → Outcome core disk model_key session memory a

module _ (core : Core) (disk : Disk) (model_key : ModelCacheKey) (session : Session)
    (memory : MemoryInput) where
  write_choice-Outcome :
      (c : Choice)
      → ChoicePlaced core session c
      → Outcome core disk model_key session memory
          (write_choice core disk model_key session memory c)
  unfolding write_choice
  write_choice-Outcome (opens tokens m a) fits =
      elim (Bool-cases
        (leb_ℤ (pos max_segments_per_session) (pos (length session.segment_plan.segments)))) [
          | inl full ↦ refused (text "segment limit exceeded") (rw full refl)
          | inr room ↦
              rw room (written _ _ (starts tokens m a fits (ground arith) refl) refl refl refl refl)
        ]
  write_choice-Outcome (extends last tokens x) (inside, fits, back) =
      written _ _ (grows last tokens x inside fits back refl) refl refl refl refl

  pub append_memory_and_update_plan-Outcome :
      Outcome core disk model_key session memory
        (append_memory_and_update_plan core disk model_key session memory)
  unfolding append_memory_and_update_plan
  append_memory_and_update_plan-Outcome =
      let limit = segment_soft_limit core in
      elim (Bool-cases (leb_ℤ limit (pos 0))) [
        | inl e ↦ rw e (refused _ refl)
        | inr e ↦ elim (Result-cases (choose_segment core limit session memory)) [
          | inr (e', f) ↦ rw (e, f) (refused e' refl)
          | inl (c, f) ↦
              rw (e, f)
                (write_choice-Outcome c (choose_segment-ChoicePlaced core session memory c f))
        ]
      ]

  written-IsPlanned :
      (segments : List Segment) (segment : Segment)
      → PlacedNext core session segments
      → IsPlanned core session
      → IsPlanned core (write_appended core disk model_key session memory segments segment)
  unfolding write_appended append_record mark_segment_kv_missing new_record
  written-IsPlanned segments segment placed h = record {
    sound = Placed-IsSoundPlan limit limit limit _ (omega arith) (omega arith) placed h.sound;
    whole = Placed-planned placed ∙ rw (map-append, h.whole);
  }
    where
      limit : ℤ
      limit = segment_soft_limit core

  -- Appending a memory, whether it succeeds or not and for any estimator, keeps what planning
  -- from scratch makes: at most 100 segments with their positions as ids, none empty, estimates
  -- within the soft limit, a manual boundary only at the start of a segment, and the memories of
  -- the segments, read in order, those of the store.
  pub append_memory_and_update_plan-IsPlanned :
      IsPlanned core session
      → IsPlanned core (append_memory_and_update_plan core disk model_key session memory).session
  append_memory_and_update_plan-IsPlanned h = elim append_memory_and_update_plan-Outcome [
    | refused e same ↦ rw same h
    | written segments segment placed done same _ _ ↦
        rw same (written-IsPlanned segments segment placed h)
  ]

  -- Where the next memory stands at a manual boundary and is appended with success, it opens a new
  -- segment at the end with its position as its id, and no other segment changes.
  pub append_memory_and_update_plan-manual :
      starts_manual_segment session.store ≡ true
      → let a = append_memory_and_update_plan core disk model_key session memory in
        let segments = session.segment_plan.segments in
        a.status ≡ ok tt
        → (s : Segment) × (a.session.segment_plan.segments ≡ segments ++ s ∷ [])
          × (s.memory_indices ≡ session.store.next_memory_idx ∷ [])
          × (s.segment_id ≡ pos (length segments))
  unfolding write_appended mark_segment_kv_missing
  append_memory_and_update_plan-manual manual done = elim append_memory_and_update_plan-Outcome [
    | refused e same ↦ absurd (ground arith)
    | written segments segment placed _ same _ _ ↦ opened segments segment placed same
  ]
    where
      opened :
          (segments : List Segment) (segment : Segment)
          → PlacedNext core session segments
          → (append_memory_and_update_plan core disk model_key session memory).session
            ≡ write_appended core disk model_key session memory segments segment
          → (s : Segment) × ((append_memory_and_update_plan core disk model_key session
                memory).session.segment_plan.segments
              ≡ session.segment_plan.segments ++ s ∷ [])
            × (s.memory_indices ≡ session.store.next_memory_idx ∷ [])
            × (s.segment_id ≡ pos (length session.segment_plan.segments))
      opened segments segment (starts tokens m a fits room e) same = (
        fresh_segment session.segment_plan.segments tokens m a session.store.next_memory_idx,
        rw same e,
        refl,
        refl,
      )
      opened segments segment (grows last tokens x inside fits back e) same = absurd (ground arith)
