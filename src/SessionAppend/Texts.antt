-- ===== src/SessionAppend/Texts.antt =====
-- What the look-ups of texts depend on: not on a record behind the others with another index, and not
-- on the estimates.
use attemory.Planner.Partition.{facts}
use attemory.Base.Text.{Bytes}
use attemory.Session.{texts_of}
use attemory.Base.Int.{eqb_ℤ_iff, mem_ℤ, pos, negsuc, eqb_ℤ, ℤ}
use attemory.Persistent.{find_memory, SessionStore, scan_memory, MemoryRecord}
use attemory.Base.{
  get_elem?, ℕ, zero, suc, ◌≡◌, refl, sym, ap, ◌∙◌, ◌⊎◌, inl, inr, false, Option, none, some, List,
  [], ◌∷◌, ◌++◌, map, arith, if◌then◌else◌, Bool-cases, Option-cases,
}

-- A record at the end changes no look-up of another index.
get_elem?-snoc :
    (ms : List MemoryRecord) (m : MemoryRecord) (n : ℕ)
    → (get_elem? (ms ++ m ∷ []) n ≡ get_elem? ms n)
      ⊎ ((get_elem? (ms ++ m ∷ []) n ≡ some m) × (get_elem? ms n ≡ none))
get_elem?-snoc [] m zero = inr (refl, refl)
get_elem?-snoc [] m (suc n) = inl refl
get_elem?-snoc (x ∷ ms) m zero = inl refl
get_elem?-snoc (x ∷ ms) m (suc n) = get_elem?-snoc ms m n

scan_memory-snoc :
    (ms : List MemoryRecord) (m : MemoryRecord) (z : ℤ)
    → eqb_ℤ m.memory_idx z ≡ false
    → scan_memory (ms ++ m ∷ []) z ≡ scan_memory ms z
unfolding scan_memory
scan_memory-snoc [] m z h = rw h refl
scan_memory-snoc (x ∷ ms) m z h = rw (scan_memory-snoc ms m z h) refl

abbrev guess : ℤ → Option MemoryRecord → Option MemoryRecord → Option MemoryRecord
guess z none scanned = scanned
guess z (some m) scanned = if eqb_ℤ m.memory_idx z then some m else scanned

find_memory-guess :
    (store : SessionStore) (n : ℕ)
    → find_memory store (pos n)
      ≡ guess (pos n) (get_elem? store.memories n) (scan_memory store.memories (pos n))
unfolding find_memory
find_memory-guess store n = elim (Option-cases (get_elem? store.memories n)) [
  | inl e ↦ rw (e, find_memory) refl
  | inr (m, e) ↦ rw (e, find_memory) refl
]

abbrev text_then : Option MemoryRecord → List Bytes → List Bytes
text_then none rest = rest
text_then (some m) rest = m.text ∷ rest

texts_of-cons :
    (store : SessionStore) (z : ℤ) (zs : List ℤ)
    → texts_of store (z ∷ zs) ≡ text_then (find_memory store z) (texts_of store zs)
unfolding texts_of
texts_of-cons store z zs = elim (Option-cases (find_memory store z)) [
  | inl e ↦ rw (e, texts_of) refl
  | inr (m, e) ↦ rw (e, texts_of) refl
]

module _ (store longer : SessionStore) (m : MemoryRecord)
    (more : longer.memories ≡ store.memories ++ m ∷ []) where
  find_memory-snoc :
      (z : ℤ) → eqb_ℤ m.memory_idx z ≡ false → find_memory longer z ≡ find_memory store z
  unfolding find_memory
  find_memory-snoc (negsuc n) h = rw more (scan_memory-snoc store.memories m (negsuc n) h)
  find_memory-snoc (pos n) h =
      find_memory-guess longer n
      ∙ rw more (elim (get_elem?-snoc store.memories m n) [
        | inl same ↦ rw (same, scan_memory-snoc store.memories m (pos n) h) refl
        | inr (new, old) ↦ rw (new, old, h) (scan_memory-snoc store.memories m (pos n) h)
      ])
      ∙ sym (find_memory-guess store n)

  pub texts_of-snoc :
      (zs : List ℤ) → mem_ℤ m.memory_idx zs ≡ false → texts_of longer zs ≡ texts_of store zs
  unfolding texts_of mem_ℤ
  texts_of-snoc [] h = refl
  texts_of-snoc (z ∷ zs) h =
      texts_of-cons longer z zs
      ∙ rw
          (
            find_memory-snoc z (ground (arith, eqb_ℤ_iff m.memory_idx z, eqb_ℤ_iff z m.memory_idx)),
            texts_of-snoc zs (ground arith),
          )
          (sym (texts_of-cons store z zs))

abbrev on_facts : Option MemoryRecord → Option MemoryRecord
on_facts none = none
on_facts (some m) = some (facts m)

scan_memory-facts :
    (ms : List MemoryRecord) (z : ℤ) → scan_memory (map facts ms) z ≡ on_facts (scan_memory ms z)
unfolding scan_memory
scan_memory-facts [] z = refl
scan_memory-facts (x ∷ ms) z = elim (Bool-cases (eqb_ℤ x.memory_idx z)) [
  | inl e ↦ rw e refl
  | inr e ↦ rw e (scan_memory-facts ms z)
]

get_elem?-facts :
    (ms : List MemoryRecord) (n : ℕ) → get_elem? (map facts ms) n ≡ on_facts (get_elem? ms n)
get_elem?-facts [] n = refl
get_elem?-facts (x ∷ ms) zero = refl
get_elem?-facts (x ∷ ms) (suc n) = get_elem?-facts ms n

guess-facts :
    (z : ℤ) (o scanned : Option MemoryRecord)
    → guess z (on_facts o) (on_facts scanned) ≡ on_facts (guess z o scanned)
guess-facts z none scanned = refl
guess-facts z (some m) scanned = elim (Bool-cases (eqb_ℤ m.memory_idx z)) [
  | inl e ↦ rw e refl
  | inr e ↦ rw e refl
]

module _ (store store' : SessionStore)
    (same : map facts store'.memories ≡ map facts store.memories) where
  find_memory-facts : (z : ℤ) → on_facts (find_memory store' z) ≡ on_facts (find_memory store z)
  unfolding find_memory
  find_memory-facts (negsuc n) =
      sym (scan_memory-facts store'.memories (negsuc n))
      ∙ rw same (scan_memory-facts store.memories (negsuc n))
  find_memory-facts (pos n) =
      ap on_facts (find_memory-guess store' n)
      ∙ sym
          (guess-facts (pos n) (get_elem? store'.memories n) (scan_memory store'.memories (pos n)))
      ∙ rw⁻¹ (get_elem?-facts store'.memories n, scan_memory-facts store'.memories (pos n))
          (rw same (
            rw (get_elem?-facts store.memories n, scan_memory-facts store.memories (pos n))
              (guess-facts (pos n) (get_elem? store.memories n) (scan_memory store.memories (pos n))
                ∙ ap on_facts (sym (find_memory-guess store n)))))

  text_then-facts :
      (o : Option MemoryRecord) (rest : List Bytes) → text_then (on_facts o) rest ≡ text_then o rest
  text_then-facts none rest = refl
  text_then-facts (some m) rest = refl

  pub texts_of-facts : (zs : List ℤ) → texts_of store' zs ≡ texts_of store zs
  unfolding texts_of
  texts_of-facts [] = refl
  texts_of-facts (z ∷ zs) =
      texts_of-cons store' z zs
      ∙ sym (text_then-facts (find_memory store' z) _)
      ∙ rw (find_memory-facts z, texts_of-facts zs)
          (text_then-facts (find_memory store z) _ ∙ sym (texts_of-cons store z zs))
