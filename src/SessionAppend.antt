-- ===== src/SessionAppend.antt =====
-- `append_memory_and_update_plan` of src/context/session/session_manager.cpp: a memory is put into the
-- plan as it stands, without planning the others again. The planner has its own copy of the
-- functions that estimate; both are modelled by the same ones. Nothing is written before the last
-- test, so the code first makes a choice and then writes it.
pub mod Limits
pub mod Valid
pub mod Texts
pub mod Rounds
pub mod OneRound
pub mod Replan
use attemory.Planner.{
  grown_segment, estimate_segment_token_count_with_extra_memory, max_segments_per_session,
  append_token_estimate, segment_soft_limit, fresh_segment,
}
use attemory.Base.Result.{ok, ◌>>=◌, err, on_result, Result, ResultStatus}
use attemory.Base.Int.{ltb_ℤ, negsuc, pos, ◌+ℤ◌, leb_ℤ, wrap, mem_ℤ, ℤ}
use attemory.Base.Text.{text, Bytes}
use attemory.Base.{
  set_last, last?, ℕ, zero, suc, ◌+◌, ◌-◌, ◌*◌, ◌/◌, ◌%◌, ◌^◌, ◌≤◌, ◌<◌, ◌≡◌, refl, sym, ap, subst,
  ◌∙◌, ◌≢◌, ◌↔◌, ◌⊎◌, inl, inr, Bool, true, false, ◌&&◌, ◌||◌, not, Option, none, some, List, [],
  ◌∷◌, ◌++◌, map, arith, ltb, leb, ◌==◌, if◌then◌else◌, Bool-cases, Option-cases, length, All,
}
use attemory.Core.{Core}
use attemory.Kv.Metadata.{Disk, mark_segment_kv_missing}
use attemory.Persistent.{MemoryRecord, SessionStore, ModelCacheKey}
use attemory.Session.{MemoryInput, Segment, Session}

-- A new segment, or the end of the last one.
pub data Choice : Type 0 where
  opens : (tokens : ℤ) (manual_start auto_start : Bool) → Choice
  extends : (last : Segment) (tokens : ℤ) (is_exact : Bool) → Choice

abbrev pub starts_manual_segment : SessionStore → Bool
starts_manual_segment store = mem_ℤ store.next_memory_idx store.manual_segment_boundaries

unfoldable pub choose_in_last : Core → ℤ → SessionStore → Segment → MemoryInput → ℤ → Result Choice
choose_in_last core soft store last memory new_tokens = do
  empty ← core.kv_tokens store.system_text []
  let candidate = append_token_estimate last.estimated_tokens empty new_tokens
  if leb_ℤ candidate soft then ok (extends last candidate false) else (do
    exact ← estimate_segment_token_count_with_extra_memory core store last memory.text
    if leb_ℤ exact soft then ok (extends last exact true) else ok (opens new_tokens false true))

-- The function up to `if (need_new_segment)`, behind the test of the soft limit.
unfoldable pub choose_segment : Core → ℤ → Session → MemoryInput → Result Choice
unfolding choose_in_last
choose_segment core soft session memory = do
  let store = session.store
  new_tokens ← core.kv_tokens store.system_text (memory.text ∷ [])
  if ltb_ℤ soft new_tokens
      then err (text "memory is too large for a fresh segment")
      else elim (last? session.segment_plan.segments) [
        | none ↦ ok (opens new_tokens (starts_manual_segment store) false)
        | some last ↦
            if starts_manual_segment store
            then ok (opens new_tokens true false)
            else choose_in_last core soft store last memory new_tokens
      ]

-- A failed estimate of the memory alone counts as 0.
unfoldable pub new_record : Core → ℤ → MemoryInput → MemoryRecord
new_record core memory_idx memory = record {
  memory_idx = memory_idx;
  has_id = memory.has_id;
  id = memory.id;
  text = memory.text;
  estimated_tokens = on_result (core.text_tokens memory.text) (λ e. pos 0) (λ tokens. tokens);
}

-- `next_memory_idx++` is on an `int64_t`.
unfoldable pub append_record : Core → SessionStore → MemoryInput → SessionStore
append_record core store memory = record store {
  next_memory_idx = wrap 64 (store.next_memory_idx +ℤ pos 1);
  memories = store.memories ++ new_record core store.next_memory_idx memory ∷ [];
  system_locked = true;
}

-- The result, the session and the out parameters.
pub record Appended : Type 0 where
  pub status : ResultStatus
  pub session : Session
  pub token_count : ℤ
  pub segment_id : ℤ
  pub persist_session_facts : Bool

abbrev pub not_appended : Session → Bytes → Appended
not_appended session e = record {
  status = err e;
  session = session;
  token_count = negsuc 0;
  segment_id = negsuc 0;
  persist_session_facts = false;
}

-- The session with the record, with these segments, and with the caches of one of them missing.
unfoldable pub write_appended :
    Core → Disk → ModelCacheKey → Session → MemoryInput → List Segment → Segment → Session
write_appended core disk model_key session memory segments segment =
    mark_segment_kv_missing disk model_key
      (record session {
        store = append_record core session.store memory;
        segment_plan = record session.segment_plan { segments = segments };
      })
      segment

unfoldable pub write_choice :
    Core → Disk → ModelCacheKey → Session → MemoryInput → Choice → Appended
unfolding write_appended
write_choice core disk model_key session memory (opens tokens manual_start auto_start) =
    let segments = session.segment_plan.segments in
    let segment =
      fresh_segment segments tokens manual_start auto_start session.store.next_memory_idx in
    if leb_ℤ (pos max_segments_per_session) (pos (length segments))
    then not_appended session (text "segment limit exceeded")
    else record {
      status = ok tt;
      session =
          write_appended core disk model_key session memory (segments ++ segment ∷ []) segment;
      token_count = tokens;
      segment_id = segment.segment_id;
      persist_session_facts = true;
    }
write_choice core disk model_key session memory (extends last tokens is_exact) =
    let segments = session.segment_plan.segments in
    let segment = grown_segment last tokens is_exact session.store.next_memory_idx in
    record {
      status = ok tt;
      session =
          write_appended core disk model_key session memory (set_last segments segment) segment;
      token_count = tokens;
      segment_id = last.segment_id;
      persist_session_facts = false;
    }

unfoldable pub append_memory_and_update_plan :
    Core → Disk → ModelCacheKey → Session → MemoryInput → Appended
unfolding choose_segment write_choice
append_memory_and_update_plan core disk model_key session memory =
    let soft = segment_soft_limit core in
    if leb_ℤ soft (pos 0)
    then not_appended session (text "failed to resolve effective context length")
    else on_result (choose_segment core soft session memory) (not_appended session)
        (write_choice core disk model_key session memory)
