-- ===== src/SessionManager/Invariant.antt =====
-- What holds of every session between two commands. The invariant is shown for the step on the facts,
-- and the commands keep it because they refine that step.
use attemory.SessionAppend.Valid.{next-wrap, next-lt, int64_max}
use attemory.Persistent.Validity.{IsValidStore}
use attemory.Base.Text.{Bytes}
use attemory.Persistent.{indices, MemoryRecord, is_valid_session_id, SessionStore}
use attemory.SessionManager.Abstract.{memory_fact, spec, session_facts, SessionFacts}
use attemory.Base.Int.{Distinct-snoc, Distinct, ◌<ℤ◌, ◌≤ℤ◌, eqb_ℤ_iff, pos, mem_ℤ, ℤ}
use mathlib.Core.List.{map-append}
use attemory.Base.{
  All-append, ◌≡◌, refl, ap, ◌↔◌, true, false, Option, none, some, List, [], ◌∷◌, map, arith, All,
}
use attemory.SessionManager.Steps.{
  Request, creating, restoring, setting_system, adding_memory, sealing, clearing, deleting,
}

abbrev pub Below : ℤ → ℤ → Type 0
Below next z = (pos 0 ≤ℤ z) × (z <ℤ next)

abbrev pub fact_indices : SessionFacts → List ℤ
fact_indices f = map (λ m. m.0) f.memories

-- `validate_loaded_store`, said of the facts.
pub record IsValidFacts (f : SessionFacts) : Type 0 where
  pub id_valid : is_valid_session_id f.session_id ≡ true
  pub next_nonneg : pos 0 ≤ℤ f.next_memory_idx
  pub in_range : All (Below f.next_memory_idx) (fact_indices f)
  pub distinct : Distinct (fact_indices f)
  pub boundaries : All (λ b. (pos 0 ≤ℤ b) × (b ≤ℤ f.next_memory_idx)) f.manual_segment_boundaries

store_indices : (s : SessionStore) → fact_indices (session_facts s) ≡ indices s.memories
store_indices s = go s.memories
  where
    go : (ms : List MemoryRecord) → map (λ m. m.0) (map memory_fact ms) ≡ indices ms
    go [] = refl
    go (m ∷ ms) = ap (◌∷◌ m.memory_idx) (go ms)

All-indices :
    (P : ℤ → Type 0) (ms : List MemoryRecord) → All (λ m. P m.memory_idx) ms ↔ All P (indices ms)
All-indices P [] = (λ h. tt, λ h. tt)
All-indices P (m ∷ ms) =
    (λ h. (h.0, (All-indices P ms).0 h.1), λ h. (h.0, (All-indices P ms).1 h.1))

pub IsValidStore-IsValidFacts : (s : SessionStore) → IsValidStore s ↔ IsValidFacts (session_facts s)
IsValidStore-IsValidFacts s = (
  λ h. record {
    id_valid = h.id_valid;
    next_nonneg = h.next_nonneg;
    in_range =
        rw (store_indices s) ((All-indices (Below s.next_memory_idx) s.memories).0 h.in_range);
    distinct = rw (store_indices s) h.distinct;
    boundaries = h.boundaries;
  },
  λ h. record {
    id_valid = h.id_valid;
    next_nonneg = h.next_nonneg;
    in_range =
        (All-indices (Below s.next_memory_idx) s.memories).1 (rw (store_indices s) at h.in_range);
    distinct = rw (store_indices s) at h.distinct;
    boundaries = h.boundaries;
  },
)

new_index : (next : ℤ) (zs : List ℤ) → All (Below next) zs → mem_ℤ next zs ≡ false
unfolding mem_ℤ
new_index next [] h = refl
new_index next (z ∷ zs) h = ground (arith, new_index next zs h.1, eqb_ℤ_iff z next)

later-Below :
    (next later : ℤ) (zs : List ℤ) → next ≤ℤ later → All (Below next) zs → All (Below later) zs
later-Below next later [] le h = tt
later-Below next later (z ∷ zs) le h = (ground arith, later-Below next later zs le h.1)

later_boundaries :
    (next later : ℤ) (bs : List ℤ)
    → next ≤ℤ later
    → All (λ b. (pos 0 ≤ℤ b) × (b ≤ℤ next)) bs
    → All (λ b. (pos 0 ≤ℤ b) × (b ≤ℤ later)) bs
later_boundaries next later [] le h = tt
later_boundaries next later (b ∷ bs) le h = (ground arith, later_boundaries next later bs le h.1)

-- The facts of a session under this id.
abbrev pub IsOwn : Bytes → Option SessionFacts → Type 0
IsOwn i none = Unit
IsOwn i (some f) = (f.session_id ≡ i) × IsValidFacts f

abbrev pub HasRoom : Option SessionFacts → Type 0
HasRoom none = Unit
HasRoom (some f) = f.next_memory_idx <ℤ int64_max

-- The step keeps the facts valid.
pub spec-IsOwn :
    (i : Bytes) (loaded : Option SessionFacts) (req : Request) (before : Option SessionFacts)
    → is_valid_session_id i ≡ true
    → IsOwn i loaded
    → HasRoom before
    → IsOwn i before
    → IsOwn i (spec i loaded req before)
spec-IsOwn i loaded (creating kv) before valid l room h = (
  refl,
  record {
    id_valid = valid;
    next_nonneg = ground arith;
    in_range = tt;
    distinct = tt;
    boundaries = tt;
  },
)
spec-IsOwn i loaded restoring none valid l room h = l
spec-IsOwn i loaded restoring (some f) valid l room h = h
spec-IsOwn i loaded (setting_system t) none valid l room h = tt
spec-IsOwn i loaded (setting_system t) (some f) valid l room (own, h) = (
  own,
  record {
    id_valid = h.id_valid;
    next_nonneg = h.next_nonneg;
    in_range = h.in_range;
    distinct = h.distinct;
    boundaries = h.boundaries;
  },
)
spec-IsOwn i loaded (adding_memory m) none valid l room h = tt
spec-IsOwn i loaded (adding_memory m) (some f) valid l room (own, h) = (
  own,
  let (lt, le, nonneg) = next-lt f.next_memory_idx h.next_nonneg in
      rw (next-wrap f.next_memory_idx h.next_nonneg room) (record {
        id_valid = h.id_valid;
        next_nonneg = nonneg;
        in_range = rw map-append (
            All-append _ (fact_indices f) _ (later-Below _ _ (fact_indices f) le h.in_range)
              ((h.next_nonneg, lt), tt));
        distinct = rw map-append (
            Distinct-snoc (fact_indices f) f.next_memory_idx h.distinct
              (new_index f.next_memory_idx (fact_indices f) h.in_range));
        boundaries = later_boundaries _ _ f.manual_segment_boundaries le h.boundaries;
      }),
)
spec-IsOwn i loaded sealing none valid l room h = tt
spec-IsOwn i loaded sealing (some f) valid l room (own, h) = (
  own,
  record {
    id_valid = h.id_valid;
    next_nonneg = h.next_nonneg;
    in_range = h.in_range;
    distinct = h.distinct;
    boundaries =
        All-append _ f.manual_segment_boundaries _ h.boundaries ((h.next_nonneg, omega arith), tt);
  },
)
spec-IsOwn i loaded clearing before valid l room h = h
spec-IsOwn i loaded deleting before valid l room h = tt
