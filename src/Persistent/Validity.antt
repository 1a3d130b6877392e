-- ===== src/Persistent/Validity.antt =====
-- `validate_loaded_store` of src/persistent/session_persistence.cpp, which every load and every
-- save of a session runs.
use attemory.Base.{◌≡◌, refl, ◌↔◌, true, false, ◌||◌, List, [], ◌∷◌, arith, All, if◌then◌else◌}
use attemory.Base.Int.{ℤ, pos, ltb_ℤ, leb_ℤ, ◌≤ℤ◌, ◌<ℤ◌, eqb_ℤ_iff, mem_ℤ, Distinct}
use attemory.Base.Text.{text}
use attemory.Base.Result.{ok, err, ResultStatus, ◌>>◌}
use attemory.Persistent.{MemoryRecord, SessionStore, indices, is_valid_session_id}

-- The loop over the records; `seen` is what the hash set holds.
validate_memories : ℤ → List ℤ → List MemoryRecord → ResultStatus
validate_memories next seen [] = ok tt
validate_memories next seen (m ∷ ms) =
    if ltb_ℤ m.memory_idx (pos 0) || leb_ℤ next m.memory_idx
    then err (text "invalid memory index in store")
    else if mem_ℤ m.memory_idx seen
    then err (text "duplicate memory index in store")
    else validate_memories next (m.memory_idx ∷ seen) ms

validate_boundaries : ℤ → List ℤ → ResultStatus
validate_boundaries next [] = ok tt
validate_boundaries next (b ∷ bs) =
    if ltb_ℤ b (pos 0) || ltb_ℤ next b
    then err (text "invalid manual segment boundary in store")
    else validate_boundaries next bs

unfoldable pub validate_loaded_store : SessionStore → ResultStatus
unfolding validate_memories validate_boundaries
validate_loaded_store store =
    if is_valid_session_id store.session_id
    then if ltb_ℤ store.next_memory_idx (pos 0)
      then err (text "invalid next memory index in store")
      else (do
        validate_memories store.next_memory_idx [] store.memories
        validate_boundaries store.next_memory_idx store.manual_segment_boundaries)
    else err (text "invalid session id in store")

-- What a store on disk has to satisfy.
pub record IsValidStore (s : SessionStore) : Type 0 where
  pub id_valid : is_valid_session_id s.session_id ≡ true
  pub next_nonneg : pos 0 ≤ℤ s.next_memory_idx
  pub in_range : All (λ m. (pos 0 ≤ℤ m.memory_idx) × (m.memory_idx <ℤ s.next_memory_idx)) s.memories
  pub distinct : Distinct (indices s.memories)
  pub boundaries : All (λ b. (pos 0 ≤ℤ b) × (b ≤ℤ s.next_memory_idx)) s.manual_segment_boundaries

abbrev InRange : ℤ → List MemoryRecord → Type 0
InRange next = All (λ m. (pos 0 ≤ℤ m.memory_idx) × (m.memory_idx <ℤ next))

-- None of the records' indices was seen before.
abbrev Fresh : List ℤ → List MemoryRecord → Type 0
Fresh seen [] = Unit
Fresh seen (m ∷ ms) = (mem_ℤ m.memory_idx seen ≡ false) × Fresh seen ms

Fresh-cons :
    (x : ℤ) (seen : List ℤ) (ms : List MemoryRecord)
    → Fresh (x ∷ seen) ms ↔ (Fresh seen ms × (mem_ℤ x (indices ms) ≡ false))
unfolding mem_ℤ
Fresh-cons x seen [] = (λ h. (tt, refl), λ h. tt)
Fresh-cons x seen (m ∷ ms) =
    ground (arith, Fresh-cons x seen ms, eqb_ℤ_iff x m.memory_idx, eqb_ℤ_iff m.memory_idx x)

validate_memories_iff :
    (next : ℤ) (seen : List ℤ) (ms : List MemoryRecord)
    → (validate_memories next seen ms ≡ ok tt)
      ↔ (InRange next ms × Fresh seen ms × Distinct (indices ms))
unfolding validate_memories
validate_memories_iff next seen [] = (λ h. (tt, tt, tt), λ h. refl)
validate_memories_iff next seen (m ∷ ms) =
    ground
      (arith, validate_memories_iff next (m.memory_idx ∷ seen) ms, Fresh-cons m.memory_idx seen ms)

validate_boundaries_iff :
    (next : ℤ) (bs : List ℤ)
    → (validate_boundaries next bs ≡ ok tt) ↔ All (λ b. (pos 0 ≤ℤ b) × (b ≤ℤ next)) bs
unfolding validate_boundaries
validate_boundaries_iff next [] = (λ h. tt, λ h. refl)
validate_boundaries_iff next (b ∷ bs) = ground (arith, validate_boundaries_iff next bs)

Fresh-nil : (ms : List MemoryRecord) → Fresh [] ms
unfolding mem_ℤ
Fresh-nil [] = tt
Fresh-nil (m ∷ ms) = (refl, Fresh-nil ms)

-- `validate_loaded_store` accepts a store exactly when its session id is valid, its next index is
-- not negative, every memory index lies below that and occurs once, and every manual boundary
-- lies between 0 and the next index.
pub validate_loaded_store_iff :
    (s : SessionStore) → (validate_loaded_store s ≡ ok tt) ↔ IsValidStore s
unfolding validate_loaded_store
validate_loaded_store_iff s = ground (
  arith,
  validate_memories_iff s.next_memory_idx [] s.memories,
  validate_boundaries_iff s.next_memory_idx s.manual_segment_boundaries,
  Fresh-nil s.memories,
)
