-- ===== src/Planner/Partition.antt =====
-- The plan partitions the memories, in their order.
use mathlib.Core.List.{append_assoc, append-nil, map-append}
use attemory.Base.{
  ◌≡◌, refl, sym, ap, ◌∙◌, Bool, Option, some, List, [], ◌∷◌, ◌++◌, map, arith, last?, set_last,
}
use attemory.Base.Int.{ℤ, pos}
use attemory.Base.Text.{Bytes}
use attemory.Base.Result.{ok}
use attemory.Core.{Core}
use attemory.Persistent.{MemoryRecord, SessionStore, indices}
use attemory.Session.{Segment, Session}
use attemory.Planner.{
  initialize_empty_segment_plan, place_memory, plan_memories, refresh_estimate,
  rebuild_segment_plan_fast, grown_segment,
}
use attemory.Planner.Rounds.{rebuild_cases, plan_memories_done}
use attemory.Planner.Place.{Placed, starts, grows, place_memory-Placed}

-- A record without its token estimate, which planning may refresh.
abbrev pub facts : MemoryRecord → MemoryRecord
facts m = record m { estimated_tokens = pos 0 }

-- The memories of a list of segments, in order.
abbrev pub planned : List Segment → List ℤ
planned [] = []
planned (s ∷ ss) = s.memory_indices ++ planned ss

pub planned-append : (xs ys : List Segment) → planned (xs ++ ys) ≡ planned xs ++ planned ys
planned-append [] ys = refl
planned-append (x ∷ xs) ys = rw (planned-append xs ys, append_assoc)

pub planned-set_last :
    (xs : List Segment) (last next : Segment) (z : ℤ)
    → last? xs ≡ some last
    → next.memory_indices ≡ last.memory_indices ++ z ∷ []
    → planned (set_last xs next) ≡ planned xs ++ z ∷ []
planned-set_last [] last next z back e = cc
planned-set_last (x ∷ []) last next z back e =
    simp append-nil (cc (ap (λ (s : Option Segment). s) back, e))
planned-set_last (x ∷ y ∷ xs) last next z back e =
    rw (planned-set_last (y ∷ xs) last next z back e) (sym (append_assoc x.memory_indices _ _))

pub Placed-planned :
    {manual : Bool} {soft fresh : ℤ} {segments : List Segment} {z : ℤ} {segments' : List Segment}
    → Placed manual soft fresh segments z segments'
    → planned segments' ≡ planned segments ++ z ∷ []
Placed-planned {segments = segments} (starts tokens m a fits room e) =
    rw e (planned-append segments _)
Placed-planned {segments = segments} {z = z} (grows last tokens x no_start fits back e) =
    rw e (planned-set_last segments last (grown_segment last tokens x z) z back refl)

pub refresh_estimate-memory_idx :
    (core : Core) (refresh : Bool) (m m' : MemoryRecord)
    → refresh_estimate core refresh m ≡ ok m'
    → m'.memory_idx ≡ m.memory_idx
unfolding refresh_estimate
refresh_estimate-memory_idx core refresh m m' h = ground arith

pub refresh_estimate-facts :
    (core : Core) (refresh : Bool) (m m' : MemoryRecord)
    → refresh_estimate core refresh m ≡ ok m'
    → facts m' ≡ facts m
unfolding refresh_estimate
refresh_estimate-facts core refresh m m' h = ground arith

-- `done` and the rest of the records stand for all of them.
record Covers (all done : List MemoryRecord) (segments : List Segment) (rest : List MemoryRecord)
    : Type 0 where
  pub behind : planned segments ≡ indices done
  pub whole : map facts done ++ map facts rest ≡ map facts all

module _ (core : Core) (honor refresh : Bool) (soft fresh empty : ℤ) (store : SessionStore) where
  keep_Covers :
      (all done : List MemoryRecord) (segments : List Segment) (rest : List MemoryRecord)
      (m m' : MemoryRecord) (store' : SessionStore) (segments' : List Segment)
      → refresh_estimate core refresh m ≡ ok m'
      → place_memory core honor soft fresh empty store' segments m' ≡ ok segments'
      → Covers all done segments (m ∷ rest)
      → Covers all (done ++ m' ∷ []) segments' rest
  keep_Covers all done segments rest m m' store' segments' counted placed c = record {
    behind =
        Placed-planned
          (place_memory-Placed core honor soft fresh empty store' segments m' segments' placed)
        ∙ rw (map-append, c.behind);
    whole = rw (map-append, refresh_estimate-facts core refresh m m' counted, append_assoc) c.whole;
  }

  pub plan_memories-Covers :
      (all : List MemoryRecord)
      → let p = plan_memories core honor refresh soft fresh empty store [] [] all in
        p.status ≡ ok tt
        → (planned p.segments ≡ indices p.memories) × (map facts p.memories ≡ map facts all)
  plan_memories-Covers all h =
      let c =
        plan_memories_done core honor refresh soft fresh empty store (Covers all)
          (λ done segments rest m m' segments' counted placed.
            keep_Covers all done segments rest m m' _ segments' counted placed)
          [] [] all (record { behind = refl; whole = refl }) h in
      (c.behind, sym (append-nil _) ∙ c.whole)

indices-facts : (ms : List MemoryRecord) → indices ms ≡ indices (map facts ms)
indices-facts [] = refl
indices-facts (m ∷ ms) = ap (◌∷◌ m.memory_idx) (indices-facts ms)

pub indices_of_facts :
    (xs ys : List MemoryRecord) → map facts xs ≡ map facts ys → indices xs ≡ indices ys
indices_of_facts xs ys e = indices-facts xs ∙ ap indices e ∙ sym (indices-facts ys)

-- When `rebuild_segment_plan_fast` succeeds, for any estimator, either flag and any limit of a
-- fresh segment, the segments of the new plan, read in order, hold the memory indices of the
-- store in their order, each as often as the store does, and the records are unchanged but for
-- their token estimates.
pub rebuild_segment_plan_fast-partition :
    (core : Core) (honor refresh : Bool) (fresh : ℤ) (model_key : Bytes) (session : Session)
    → let r = rebuild_segment_plan_fast core honor refresh fresh model_key session in
      r.0 ≡ ok tt
      → (planned r.1.segment_plan.segments ≡ indices session.store.memories)
        × (map facts r.1.store.memories ≡ map facts session.store.memories)
rebuild_segment_plan_fast-partition core honor refresh fresh model_key session =
    rebuild_cases core honor refresh fresh model_key session
      (λ r.
        r.0 ≡ ok tt
        → (planned r.1.segment_plan.segments ≡ indices session.store.memories)
          × (map facts r.1.store.memories ≡ map facts session.store.memories))
      (λ e h. rw e (unfold initialize_empty_segment_plan in (refl, refl))) (λ e _ h. cc)
      λ empty h.
        let (whole, same) =
          plan_memories-Covers core honor refresh _ fresh empty session.store session.store.memories
            h in
        (whole ∙ indices_of_facts _ _ same, same)
