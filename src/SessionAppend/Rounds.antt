-- ===== src/SessionAppend/Rounds.antt =====
-- Planning with one record more behind the others, for the comparison with appending.
use attemory.Planner.Place.{place_memory-Placed}
use attemory.SessionAppend.Texts.{texts_of-snoc}
use attemory.Base.Result.{ok, Result-cases}
use attemory.Base.Text.{Bytes}
use attemory.Persistent.{indices, MemoryRecord, SessionStore}
use attemory.Core.{Core}
use attemory.Planner.Partition.{refresh_estimate-memory_idx, Placed-planned, planned}
use attemory.Base.Int.{eqb_ℤ, ltb_ℤ, leb_ℤ, mem_ℤ-append, mem_ℤ, ℤ}
use attemory.Planner.{
  refresh_estimate, plan_memories, Planned, append_token_estimate,
  estimate_segment_token_count_with_extra_memory, extend_or_split, place_memory,
}
use attemory.Session.{texts_of, collect_segment_memory_texts, Segment}
use mathlib.Core.List.{append_assoc}
use attemory.Base.{
  last?, ◌≡◌, refl, sym, ap, subst, ◌∙◌, inl, inr, Bool, true, false, some, List, [], ◌∷◌, ◌++◌,
  arith, Bool-cases, Option-cases,
}

-- The last segment holds none but planned memories.
planned-last :
    (segments : List Segment) (last : Segment) (z : ℤ)
    → last? segments ≡ some last
    → mem_ℤ z (planned segments) ≡ false
    → mem_ℤ z last.memory_indices ≡ false
planned-last [] last z back h = cc
planned-last (s ∷ []) last z back h =
    let same : s ≡ last = cc in
    subst (λ (x : Segment). mem_ℤ z x.memory_indices ≡ false) same
      (ground (arith, mem_ℤ-append z s.memory_indices []))
planned-last (s ∷ t ∷ ss) last z back h =
    planned-last (t ∷ ss) last z back
      (ground (arith, mem_ℤ-append z s.memory_indices (planned (t ∷ ss))))

-- A round reads the store's system text, its boundaries and the texts of the last segment.
module _ (core : Core) (soft fresh empty : ℤ) (store : SessionStore) (ms : List MemoryRecord)
    (next : ℤ) (locked : Bool) where
  abbrev store' : SessionStore
  store' = record store { memories = ms; next_memory_idx = next; system_locked = locked }

  extra_memory-store :
      (last : Segment) (extra : Bytes)
      → texts_of store' last.memory_indices ≡ texts_of store last.memory_indices
      → estimate_segment_token_count_with_extra_memory core store' last extra
        ≡ estimate_segment_token_count_with_extra_memory core store last extra
  unfolding estimate_segment_token_count_with_extra_memory collect_segment_memory_texts
  extra_memory-store last extra texts =
      ap (λ t. core.kv_tokens store.system_text (t ++ extra ∷ [])) texts

  extend_or_split-store :
      (segments : List Segment) (last : Segment) (m : MemoryRecord) (tokens : ℤ)
      → texts_of store' last.memory_indices ≡ texts_of store last.memory_indices
      → extend_or_split core soft empty store' segments last m tokens
        ≡ extend_or_split core soft empty store segments last m tokens
  unfolding extend_or_split
  extend_or_split-store segments last m tokens texts =
      elim (Bool-cases (leb_ℤ (append_token_estimate last.estimated_tokens empty tokens) soft)) [
        | inl small ↦ rw small refl
        | inr large ↦ rw (large, extra_memory-store last m.text texts) refl
      ]

  pub place_memory-store :
      (segments : List Segment) (m : MemoryRecord)
      → ((last : Segment)
          → last? segments ≡ some last
          → texts_of store' last.memory_indices ≡ texts_of store last.memory_indices)
      → place_memory core true soft fresh empty store' segments m
        ≡ place_memory core true soft fresh empty store segments m
  unfolding place_memory
  place_memory-store segments m texts =
      elim (Result-cases (core.kv_tokens store.system_text (m.text ∷ []))) [
        | inr (e, f) ↦ rw (f) refl
        | inl (tokens, f) ↦ elim (Bool-cases (ltb_ℤ fresh tokens)) [
          | inl l ↦ rw (f, l) refl
          | inr l ↦ elim (Option-cases (last? segments)) [
            | inl e ↦ rw (f, l, e) refl
            | inr (last, e) ↦
                elim (Bool-cases (mem_ℤ m.memory_idx store.manual_segment_boundaries)) [
                  | inl manual ↦ rw (f, l, e, manual) refl
                  | inr inside ↦
                      rw (f, l, e, inside)
                        (extend_or_split-store segments last m tokens (texts last e))
                ]
          ]
        ]
      ]

not_first : (z x : ℤ) (xs : List ℤ) → mem_ℤ z (x ∷ xs) ≡ false → eqb_ℤ x z ≡ false
unfolding mem_ℤ
not_first z x xs h = ground arith

not_behind : (z x : ℤ) (xs : List ℤ) → mem_ℤ z (x ∷ xs) ≡ false → mem_ℤ z xs ≡ false
unfolding mem_ℤ
not_behind z x xs h = ground arith

still_new :
    (z w : ℤ) (zs zs' : List ℤ)
    → zs' ≡ zs ++ w ∷ []
    → mem_ℤ z zs ≡ false
    → eqb_ℤ w z ≡ false
    → mem_ℤ z zs' ≡ false
unfolding mem_ℤ
still_new z w zs zs' e h k = rw e (mem_ℤ-append z zs (w ∷ []) ∙ rw (h, k) refl)

-- Planning one record more is planning the others, and then one round.
module _ (core : Core) (soft fresh empty : ℤ) (store : SessionStore) (next : ℤ) (locked : Bool)
    (all : List MemoryRecord) (m : MemoryRecord) where
  abbrev longer : SessionStore
  longer = record store { memories = all; next_memory_idx = next; system_locked = locked }

  abbrev rounds : SessionStore → List MemoryRecord → List Segment → List MemoryRecord → Planned
  rounds = plan_memories core true false soft fresh empty

  pub place_memory-snoc :
      (segments : List Segment) (x : MemoryRecord) (ms ms' : List MemoryRecord)
      → ms' ≡ ms ++ m ∷ []
      → mem_ℤ m.memory_idx (planned segments) ≡ false
      → place_memory core true soft fresh empty (record longer { memories = ms' }) segments x
        ≡ place_memory core true soft fresh empty (record store { memories = ms }) segments x
  place_memory-snoc segments x ms ms' more new =
      place_memory-store core soft fresh empty (record store { memories = ms }) ms' next locked
        segments x
        (λ last back.
          texts_of-snoc (record store { memories = ms }) (record longer { memories = ms' }) m more
            last.memory_indices (planned-last segments last m.memory_idx back new))

  pub plan_memories-snoc :
      (done : List MemoryRecord) (segments : List Segment) (rest : List MemoryRecord)
      → mem_ℤ m.memory_idx (planned segments) ≡ false
      → mem_ℤ m.memory_idx (indices rest) ≡ false
      → let p = rounds store done segments rest in
        p.status ≡ ok tt
        → rounds longer done segments (rest ++ m ∷ [])
          ≡ rounds longer p.memories p.segments (m ∷ [])
  unfolding plan_memories
  plan_memories-snoc done segments [] new new' h = refl
  plan_memories-snoc done segments (x ∷ rest) new new' h =
      elim (Result-cases (refresh_estimate core false x)) [
        | inr (e, f) ↦ absurd (ground arith)
        | inl (x', f) ↦
            let ms = done ++ x' ∷ rest in
            elim (Result-cases (
              place_memory core true soft fresh empty (record store { memories = ms }) segments
                x')) [
                  | inr (e, g) ↦ absurd (ground arith)
                  | inl (segments', g) ↦
                      let g' =
                        place_memory-snoc segments x' ms (done ++ (x' ∷ (rest ++ m ∷ [])))
                          (sym (append_assoc done (x' ∷ rest) (m ∷ []))) new
                        ∙ g in
                      let placed =
                        place_memory-Placed core true soft fresh empty
                          (record store { memories = ms }) segments x' segments' g in
                      rw (f, g', g)
                        (plan_memories-snoc (done ++ x' ∷ []) segments' rest
                          (still_new m.memory_idx x'.memory_idx (planned segments)
                            (planned segments') (Placed-planned placed) new
                            (rw (refresh_estimate-memory_idx core false x x' f)
                              (not_first m.memory_idx x.memory_idx (indices rest) new')))
                          (not_behind m.memory_idx x.memory_idx (indices rest) new')
                          (rw (f, g) at h))
                ]
      ]
