-- ===== src/Persistent/Lookup.antt =====
-- `find_memory` and `model_cache_key_equal` of src/persistent/persistent.h.
use attemory.Base.{
  ℕ, zero, suc, ◌≡◌, refl, ◌↔◌, ◌⊎◌, inl, inr, true, false, none, some, List, [], ◌∷◌, arith,
  get_elem?, Bool-cases, Option-cases,
}
use attemory.Base.Int.{ℤ, pos, negsuc, eqb_ℤ, eqb_ℤ_iff, mem_ℤ, Distinct}
use attemory.Base.Text.{bytes_eq_iff}
use attemory.Persistent.{
  MemoryRecord, SessionStore, ModelCacheKey, indices, scan_memory, find_memory,
  model_cache_key_equal,
}

pub scan_memory-mem :
    (ms : List MemoryRecord) (z : ℤ)
    → ((scan_memory ms z ≡ none) × (mem_ℤ z (indices ms) ≡ false))
      ⊎ ((m : MemoryRecord) × (scan_memory ms z ≡ some m)
          × (m.memory_idx ≡ z)
          × (mem_ℤ z (indices ms) ≡ true))
unfolding scan_memory mem_ℤ
scan_memory-mem [] z = inl (refl, refl)
scan_memory-mem (m ∷ ms) z = elim (Bool-cases (eqb_ℤ m.memory_idx z)) [
  | inl e ↦ inr (m, rw e, (eqb_ℤ_iff m.memory_idx z).0 e, rw e)
  | inr e ↦ rw e (scan_memory-mem ms z)
]

-- What stands at a position is a member.
get_elem?-mem :
    (ms : List MemoryRecord) (n : ℕ) (m : MemoryRecord) (z : ℤ)
    → get_elem? ms n ≡ some m
    → m.memory_idx ≡ z
    → mem_ℤ z (indices ms) ≡ true
unfolding mem_ℤ
get_elem?-mem [] n m z h e = cc
get_elem?-mem (x ∷ ms) zero m z h e = ground (arith, eqb_ℤ_iff x.memory_idx z)
get_elem?-mem (x ∷ ms) (suc n) m z h e = ground (arith, get_elem?-mem ms n m z h e)

-- With distinct indices the first record that the search meets is the one at the position.
get_elem?-scan :
    (ms : List MemoryRecord) (n : ℕ) (m : MemoryRecord) (z : ℤ)
    → Distinct (indices ms)
    → get_elem? ms n ≡ some m
    → m.memory_idx ≡ z
    → scan_memory ms z ≡ some m
unfolding scan_memory
get_elem?-scan [] n m z d h e = cc
get_elem?-scan (x ∷ ms) zero m z d h e = ground (arith, eqb_ℤ_iff x.memory_idx z)
get_elem?-scan (x ∷ ms) (suc n) m z d h e = ground (
  arith,
  get_elem?-scan ms n m z d.1 h e,
  get_elem?-mem ms n m z h e,
  eqb_ℤ_iff x.memory_idx z,
  d.0,
)

-- On records with distinct indices, `find_memory` with its guess at a position returns what the
-- plain linear search returns, for every index, negative and absent ones too.
pub find_memory-scan :
    (store : SessionStore) (z : ℤ)
    → Distinct (indices store.memories)
    → find_memory store z ≡ scan_memory store.memories z
unfolding find_memory
find_memory-scan store (pos n) d = elim (Option-cases (get_elem? store.memories n)) [
  | inl e ↦ rw (e, find_memory)
  | inr (m, e) ↦ elim (Bool-cases (eqb_ℤ m.memory_idx (pos n))) [
    | inl hit ↦
        rw (e, find_memory, hit)
          (rw (get_elem?-scan store.memories n m (pos n) d e ((eqb_ℤ_iff _ _).0 hit)))
    | inr miss ↦ rw (e, find_memory, miss)
  ]
]
find_memory-scan store (negsuc n) d = refl

-- Whatever the records, `find_memory` fails exactly when no record has the index, and what it
-- returns has the index.
pub find_memory-mem :
    (store : SessionStore) (z : ℤ)
    → ((find_memory store z ≡ none) × (mem_ℤ z (indices store.memories) ≡ false))
      ⊎ ((m : MemoryRecord) × (find_memory store z ≡ some m)
          × (m.memory_idx ≡ z)
          × (mem_ℤ z (indices store.memories) ≡ true))
unfolding find_memory
find_memory-mem store (pos n) = elim (Option-cases (get_elem? store.memories n)) [
  | inl e ↦ rw (e, find_memory) (scan_memory-mem store.memories (pos n))
  | inr (m, e) ↦ elim (Bool-cases (eqb_ℤ m.memory_idx (pos n))) [
    | inl hit ↦
        let same = (eqb_ℤ_iff m.memory_idx (pos n)).0 hit in
        inr (m, rw (e, find_memory, hit), same, get_elem?-mem store.memories n m (pos n) e same)
    | inr miss ↦ rw (e, find_memory, miss) (scan_memory-mem store.memories (pos n))
  ]
]
find_memory-mem store (negsuc n) = scan_memory-mem store.memories (negsuc n)

-- `model_cache_key_equal` is true exactly when the two keys are the same in all eight fields.
pub model_cache_key_equal_iff : (a b : ModelCacheKey) → (model_cache_key_equal a b ≡ true) ↔ (a ≡ b)
unfolding model_cache_key_equal
model_cache_key_equal_iff a b = ground (
  arith,
  bytes_eq_iff a.value b.value,
  bytes_eq_iff a.vendor b.vendor,
  bytes_eq_iff a.model_desc b.model_desc,
  bytes_eq_iff a.model_name b.model_name,
  bytes_eq_iff a.backend b.backend,
  bytes_eq_iff a.template_hash b.template_hash,
  bytes_eq_iff a.kv_type_k b.kv_type_k,
  bytes_eq_iff a.kv_type_v b.kv_type_v,
)
