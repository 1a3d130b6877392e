-- ===== src/SessionAppend/Valid.antt =====
-- Appending keeps the store valid, as `validate_loaded_store` tests it.
use attemory.SessionAppend.Limits.{written, refused, append_memory_and_update_plan-Outcome}
use attemory.Session.{MemoryInput, Session}
use attemory.Core.{Core}
use attemory.Kv.Metadata.{Disk, mark_segment_kv_missing}
use attemory.Persistent.Validity.{IsValidStore}
use attemory.SessionAppend.{
  append_memory_and_update_plan, new_record, write_appended, append_record,
}
use attemory.Persistent.{ModelCacheKey, indices, MemoryRecord, SessionStore}
use attemory.Base.Int.{
  Distinct-snoc, wrap64_lem, negsuc, wrap, eqb_ℤ_iff, ◌<ℤ◌, ◌≤ℤ◌, pos, ◌+ℤ◌, mem_ℤ, ℤ,
}
use mathlib.Core.List.{map-append}
use attemory.Base.{All-append, ◌≡◌, refl, false, List, [], ◌∷◌, arith, All}

abbrev pub int64_max : ℤ
int64_max = pos 9223372036854775807

-- An index that no record has reached is new.
next-mem :
    (next : ℤ) (ms : List MemoryRecord)
    → All (λ m. (pos 0 ≤ℤ m.memory_idx) × (m.memory_idx <ℤ next)) ms
    → mem_ℤ next (indices ms) ≡ false
unfolding mem_ℤ
next-mem next [] h = refl
next-mem next (m ∷ ms) h = ground (arith, next-mem next ms h.1, eqb_ℤ_iff m.memory_idx next)

pub next_is_new :
    (s : SessionStore) → IsValidStore s → mem_ℤ s.next_memory_idx (indices s.memories) ≡ false
next_is_new s h = next-mem s.next_memory_idx s.memories h.in_range

later_records :
    (next later : ℤ) (ms : List MemoryRecord)
    → next ≤ℤ later
    → All (λ m. (pos 0 ≤ℤ m.memory_idx) × (m.memory_idx <ℤ next)) ms
    → All (λ m. (pos 0 ≤ℤ m.memory_idx) × (m.memory_idx <ℤ later)) ms
later_records next later [] le h = tt
later_records next later (m ∷ ms) le h = (ground arith, later_records next later ms le h.1)

later_boundaries :
    (next later : ℤ) (bs : List ℤ)
    → next ≤ℤ later
    → All (λ b. (pos 0 ≤ℤ b) × (b ≤ℤ next)) bs
    → All (λ b. (pos 0 ≤ℤ b) × (b ≤ℤ later)) bs
later_boundaries next later [] le h = tt
later_boundaries next later (b ∷ bs) le h = (ground arith, later_boundaries next later bs le h.1)

pub next-wrap : (z : ℤ) → pos 0 ≤ℤ z → z <ℤ int64_max → wrap 64 (z +ℤ pos 1) ≡ z +ℤ pos 1
unfolding ◌+ℤ◌
next-wrap (pos n) h k = wrap64_lem _ (ground arith, ground arith)
next-wrap (negsuc n) h k = absurd (ground arith)

pub next-lt : (z : ℤ) → pos 0 ≤ℤ z → (z <ℤ z +ℤ pos 1) × (z ≤ℤ z +ℤ pos 1) × (pos 0 ≤ℤ z +ℤ pos 1)
unfolding ◌+ℤ◌
next-lt (pos n) h = ground arith
next-lt (negsuc n) h = absurd (ground arith)

append_record-IsValidStore :
    (core : Core) (s : SessionStore) (memory : MemoryInput)
    → s.next_memory_idx <ℤ int64_max
    → IsValidStore s
    → IsValidStore (append_record core s memory)
unfolding append_record new_record
append_record-IsValidStore core s memory room h =
    let (lt, le, nonneg) = next-lt s.next_memory_idx h.next_nonneg in
    rw (next-wrap s.next_memory_idx h.next_nonneg room) (record {
      id_valid = h.id_valid;
      next_nonneg = nonneg;
      in_range =
          All-append _ s.memories _ (later_records _ _ s.memories le h.in_range)
            ((h.next_nonneg, lt), tt);
      distinct =
          rw map-append
            (Distinct-snoc (indices s.memories) s.next_memory_idx h.distinct (next_is_new s h));
      boundaries = later_boundaries _ _ s.manual_segment_boundaries le h.boundaries;
    })

-- Appending to a session with a valid store and an index left to give leaves a valid store, as a
-- load or a save tests it, whether the append succeeds or not.
pub append_memory_and_update_plan-IsValidStore :
    (core : Core) (disk : Disk) (model_key : ModelCacheKey) (session : Session)
    (memory : MemoryInput)
    → session.store.next_memory_idx <ℤ int64_max
    → IsValidStore session.store
    → IsValidStore (append_memory_and_update_plan core disk model_key session memory).session.store
unfolding write_appended mark_segment_kv_missing
append_memory_and_update_plan-IsValidStore core disk model_key session memory room h =
    elim (append_memory_and_update_plan-Outcome core disk model_key session memory) [
      | refused e same ↦ rw same h
      | written segments segment placed done same _ _ ↦
          rw same (append_record-IsValidStore core session.store memory room h)
    ]
