-- ===== src/Planner.antt =====
-- src/context/session/segment_planner.cpp: how the memories of a session are split into segments.
-- The code writes to the session as it goes, so a failure leaves what was written: a planning
-- function returns its status beside the session. `int32_t` sums wrap by `wrap 32`, as the
-- targets do; the size of a plan is at most 100, so its cast to `int32_t` is the number itself.
pub mod Place
pub mod Arithmetic
pub mod Progress
pub mod Restore
pub mod Prepare
pub mod Limits
pub mod Rounds
pub mod Partition
use attemory.Base.{
  ℕ, zero, suc, ◌*◌, ◌/◌, ◌-◌, Bool, true, false, ◌&&◌, ◌||◌, none, some, List, [], ◌∷◌, ◌++◌,
  length, last?, set_last, if◌then◌else◌,
}
use attemory.Base.Int.{ℤ, pos, negsuc, ◌+ℤ◌, ◌-ℤ◌, ltb_ℤ, leb_ℤ, max_ℤ, mem_ℤ, wrap}
use attemory.Base.Text.{Bytes, text, is_empty}
use attemory.Base.Result.{on_result, Result, ok, err, ResultStatus, ◌>>=◌}
use attemory.Core.{Core}
use attemory.Persistent.{MemoryRecord, SessionStore}
use attemory.Session.{Segment, Session, collect_segment_memory_texts}

abbrev pub max_segments_per_session : ℕ
max_segments_per_session = 100

abbrev pub soft_limit_percent : ℕ
soft_limit_percent = 85

abbrev pub int32_max : ℤ
int32_max = pos 2147483647

-- `a * k` and `a / k` for a positive numeral `k`; a division rounds towards 0.
times : ℤ → ℕ → ℤ
times (pos n) k = pos (n * k)
times (negsuc n) k = negsuc (suc n * k - 1)

negate : ℕ → ℤ
negate zero = pos 0
negate (suc n) = negsuc n

quotient : ℤ → ℕ → ℤ
unfolding negate
quotient (pos n) k = pos (n / k)
quotient (negsuc n) k = negate (suc n / k)

unfoldable pub segment_soft_limit : Core → ℤ
unfolding times quotient wrap
segment_soft_limit core =
    if leb_ℤ core.context_length (pos 0)
    then pos 0
    else max_ℤ (quotient (wrap 32 (times core.context_length soft_limit_percent)) 100) (pos 1)

unfoldable pub initialize_empty_segment_plan : Core → Bytes → Session → Session
initialize_empty_segment_plan core model_key session = record session {
  segment_plan = record {
    session_id = session.store.session_id;
    config = record {
      model_cache_key = model_key;
      ctx_limit = core.context_length;
      split_ratio = soft_limit_percent;
      max_segments = max_segments_per_session;
    };
    segments = [];
  };
}

-- The sum is taken in 64 bits, but the delta before it in 32.
unfoldable pub append_token_estimate : ℤ → ℤ → ℤ → ℤ
append_token_estimate current empty single =
    let memory_delta = wrap 32 (max_ℤ (pos 1) (wrap 32 (single -ℤ empty)) +ℤ pos 4) in
    let total = current +ℤ memory_delta in
    if ltb_ℤ int32_max total then int32_max else wrap 32 total

unfoldable pub estimate_segment_token_count_with_extra_memory :
    Core → SessionStore → Segment → Bytes → Result ℤ
estimate_segment_token_count_with_extra_memory core facts segment memory =
    core.kv_tokens facts.system_text (collect_segment_memory_texts facts segment ++ memory ∷ [])

abbrev pub fresh_segment : List Segment → ℤ → Bool → Bool → ℤ → Segment
fresh_segment segments tokens manual_start auto_start memory_idx = record {
  segment_id = pos (length segments);
  memory_indices = memory_idx ∷ [];
  estimated_tokens = tokens;
  exact_tokens = tokens;
  manual_start = manual_start;
  auto_split_start = auto_start;
}

abbrev pub grown_segment : Segment → ℤ → Bool → ℤ → Segment
grown_segment last tokens is_exact memory_idx = record last {
  memory_indices = last.memory_indices ++ memory_idx ∷ [];
  estimated_tokens = tokens;
  exact_tokens = if is_exact then tokens else pos 0;
}

unfoldable pub add_segment : List Segment → ℤ → Bool → Bool → ℤ → Result (List Segment)
add_segment segments tokens manual_start auto_start memory_idx =
    if leb_ℤ (pos max_segments_per_session) (pos (length segments))
    then err (text "segment limit exceeded")
    else ok (segments ++ fresh_segment segments tokens manual_start auto_start memory_idx ∷ [])

-- The case of an existing last segment and no manual start: a cheap estimate first, and the exact
-- count only if that does not fit.
unfoldable pub extend_or_split :
    Core → ℤ → ℤ → SessionStore → List Segment → Segment → MemoryRecord → ℤ → Result (List Segment)
unfolding add_segment
extend_or_split core soft empty store segments last memory new_tokens =
    let candidate = append_token_estimate last.estimated_tokens empty new_tokens in
    if leb_ℤ candidate soft
    then ok (set_last segments (grown_segment last candidate false memory.memory_idx))
    else (do
      exact ← estimate_segment_token_count_with_extra_memory core store last memory.text
      if leb_ℤ exact soft
          then ok (set_last segments (grown_segment last exact true memory.memory_idx))
          else add_segment segments new_tokens false true memory.memory_idx)

-- One round of the loop, behind the refresh of the memory's own estimate.
unfoldable pub place_memory :
    Core → Bool → ℤ → ℤ → ℤ → SessionStore → List Segment → MemoryRecord → Result (List Segment)
unfolding extend_or_split
place_memory core honor soft fresh empty store segments memory = do
  let manual_start = honor && mem_ℤ memory.memory_idx store.manual_segment_boundaries
  new_tokens ← core.kv_tokens store.system_text (memory.text ∷ [])
  if ltb_ℤ fresh new_tokens
      then err (text "memory is too large for a fresh segment")
      else elim (last? segments) [
        | none ↦ add_segment segments new_tokens manual_start false memory.memory_idx
        | some last ↦
            if manual_start
            then add_segment segments new_tokens true false memory.memory_idx
            else extend_or_split core soft empty store segments last memory new_tokens
      ]

unfoldable pub refresh_estimate : Core → Bool → MemoryRecord → Result MemoryRecord
refresh_estimate core refresh memory =
    if refresh || leb_ℤ memory.estimated_tokens (pos 0)
    then (do
      tokens ← core.text_tokens memory.text
      ok (record memory { estimated_tokens = tokens }))
    else ok memory

-- What the loop leaves: its status, the records, and the segments of the plan.
pub record Planned : Type 0 where
  pub status : ResultStatus
  pub memories : List MemoryRecord
  pub segments : List Segment

-- The loop over the records; those in `done` are behind it.
unfoldable pub plan_memories :
    Core
    → Bool
    → Bool
    → ℤ
    → ℤ
    → ℤ
    → SessionStore
    → List MemoryRecord
    → List Segment
    → List MemoryRecord
    → Planned
plan_memories core honor refresh soft fresh empty store done segments [] = record {
  status = ok tt;
  memories = done;
  segments = segments;
}
plan_memories core honor refresh soft fresh empty store done segments (m ∷ rest) =
    on_result (refresh_estimate core refresh m)
      (λ e. record { status = err e; memories = done ++ m ∷ rest; segments = segments })
      (λ memory.
        on_result
          (place_memory core honor soft fresh empty
            (record store { memories = done ++ memory ∷ rest }) segments memory)
          (λ e. record { status = err e; memories = done ++ memory ∷ rest; segments = segments })
          (λ segments'.
            plan_memories core honor refresh soft fresh empty store (done ++ memory ∷ []) segments'
              rest))

abbrev write_planned : Session → Planned → Session
write_planned session p = record session {
  store = record session.store { memories = p.memories };
  segment_plan = record session.segment_plan { segments = p.segments };
}

unfoldable pub rebuild_segment_plan_fast :
    Core → Bool → Bool → ℤ → Bytes → Session → ResultStatus × Session
unfolding initialize_empty_segment_plan
rebuild_segment_plan_fast core honor refresh fresh model_key session =
    let started = initialize_empty_segment_plan core model_key session in
    let soft = segment_soft_limit core in
    let store = session.store in
    if is_empty store.memories
    then (ok tt, started)
    else if leb_ℤ soft (pos 0) || leb_ℤ fresh (pos 0)
    then (err (text "failed to resolve effective context length"), started)
    else on_result (core.kv_tokens store.system_text []) (λ e. (err e, started))
        (λ empty.
          let p = plan_memories core honor refresh soft fresh empty store [] [] store.memories in
          (p.status, write_planned started p))

unfoldable pub rebuild_segment_plan_fast_for_oneshot :
    Core → Bytes → Session → ResultStatus × Session
unfolding rebuild_segment_plan_fast
rebuild_segment_plan_fast_for_oneshot core model_key session =
    rebuild_segment_plan_fast core false true core.context_length model_key session
