-- ===== src/SessionManager/Abstract.antt =====
-- What a client may know of a session: its system text, its memories and its manual boundaries. The
-- plan, the caches, the live contexts, the estimates and what is on the disk are forgotten.
use attemory.Planner.Prepare.Facts.{facts_store}
use attemory.Planner.Partition.{facts}
use attemory.Base.Int.{◌+ℤ◌, wrap, pos, ℤ}
use attemory.Base.Result.{err, ok, Result}
use attemory.SessionManager.{find_session, ContextState}
use attemory.Session.{MemoryInput, Session}
use attemory.Persistent.{SessionStore, MemoryRecord}
use attemory.Base.Text.{Bytes}
use attemory.Base.{◌≡◌, refl, sym, ap, ◌∙◌, Bool, Option, none, some, List, [], ◌∷◌, ◌++◌, map}
use attemory.SessionManager.Steps.{
  Request, creating, restoring, setting_system, adding_memory, sealing, clearing, deleting,
}

pub record SessionFacts : Type 0 where
  pub session_id : Bytes
  pub system_text : Bytes
  pub kv_persist : Bool
  pub next_memory_idx : ℤ
  pub memories : List (ℤ × MemoryInput)
  pub manual_segment_boundaries : List ℤ

abbrev pub memory_fact : MemoryRecord → ℤ × MemoryInput
memory_fact m = (m.memory_idx, record { has_id = m.has_id; id = m.id; text = m.text })

abbrev pub session_facts : SessionStore → SessionFacts
session_facts store = record {
  session_id = store.session_id;
  system_text = store.system_text;
  kv_persist = store.kv_persist;
  next_memory_idx = store.next_memory_idx;
  memories = map memory_fact store.memories;
  manual_segment_boundaries = store.manual_segment_boundaries;
}

abbrev pub facts? : Option Session → Option SessionFacts
facts? none = none
facts? (some session) = some (session_facts session.store)

abbrev pub view : ContextState → Bytes → Option SessionFacts
view st session_id = facts? (find_session st.sessions session_id)

-- What is on the disk, for a session that is restored.
abbrev pub facts_loaded : Result SessionStore → Option SessionFacts
facts_loaded (ok store) = some (session_facts store)
facts_loaded (err e) = none

abbrev changed : (SessionFacts → SessionFacts) → Option SessionFacts → Option SessionFacts
changed f none = none
changed f (some facts) = some (f facts)

-- What a request does to the facts of its session when it succeeds.
abbrev pub spec : Bytes → Option SessionFacts → Request → Option SessionFacts → Option SessionFacts
spec session_id loaded (creating kv_persist) before = some record {
  session_id = session_id;
  system_text = [];
  kv_persist = kv_persist;
  next_memory_idx = pos 0;
  memories = [];
  manual_segment_boundaries = [];
}
spec session_id loaded restoring none = loaded
spec session_id loaded restoring (some facts) = some facts
spec session_id loaded (setting_system system) before =
    changed (λ facts. record facts { system_text = system }) before
spec session_id loaded (adding_memory memory) before =
    changed
      (λ facts. record facts {
        next_memory_idx = wrap 64 (facts.next_memory_idx +ℤ pos 1);
        memories = facts.memories ++ (facts.next_memory_idx, memory) ∷ [];
      })
      before
spec session_id loaded sealing before =
    changed
      (λ facts. record facts {
        manual_segment_boundaries = facts.manual_segment_boundaries ++ facts.next_memory_idx ∷ [];
      })
      before
spec session_id loaded clearing before = before
spec session_id loaded deleting before = none

-- The estimates are forgotten.
memory_facts : (ms : List MemoryRecord) → map memory_fact (map facts ms) ≡ map memory_fact ms
memory_facts [] = refl
memory_facts (m ∷ ms) = ap (◌∷◌ (memory_fact m)) (memory_facts ms)

session_facts-facts_store :
    (store : SessionStore) → session_facts (facts_store store) ≡ session_facts store
session_facts-facts_store store =
    ap (λ (ms : List (ℤ × MemoryInput)). record (session_facts store) { memories = ms })
      (memory_facts store.memories)

pub session_facts_same :
    (a b : SessionStore) → facts_store a ≡ facts_store b → session_facts a ≡ session_facts b
session_facts_same a b e =
    sym (session_facts-facts_store a) ∙ ap session_facts e ∙ session_facts-facts_store b

-- Every session stands under its own id.
abbrev pub IsKeyed : ContextState → Type 0
IsKeyed st = (i : Bytes) (f : SessionFacts) → view st i ≡ some f → f.session_id ≡ i
