-- ===== src/Tests/ResidentTests.antt =====
-- The store of resident KV states with a budget of 10 bytes and states of 6.
use attemory.Base.Result.{ok}
use attemory.Base.Int.{pos}
use attemory.Kv.Resident.Live.{release_slots, keep_only_segment_live, keep_only_session_live}
use attemory.Kv.Resident.Slots.{Member}
use attemory.Kv.Resident.Evict.{IsOldest, Within}
use attemory.Kv.Resident.Accounting.{IsAccounted}
use attemory.Kv.Resident.{
  count_session, remove, erase_slot, oldest_slot, evict_rounds, next_clock, next_tick, find_slot,
  put_slot, evict_to_budget, store_entry, empty, set_budget_bytes, Slot, peek, store,
  ResidentKvStore,
}
use attemory.Base.Text.{bytes_eq, Bytes}
use attemory.Kv.Handle.{
  write, segment_kv_has_live_context, ensure_segment_kv_snapshot, release_live_context_to_snapshot,
  resident_snapshot_ram_bytes, Export, Heap, SegmentKvState,
}
use attemory.Base.{◌≡◌, refl, ◌⊎◌, inl, true, false, some, [], ◌∷◌, ◌==◌, length}
use attemory.Kv.Resident.Evict
use attemory.Kv.Resident.Stored
use attemory.Kv.Resident.Reachable
use attemory.Kv.Resident.Reachable.{
  Reachable-IsAccounted, Reachable, start, after, by_store, by_set_budget_bytes,
}

abbrev state : SegmentKvState
state = record {
  has_live_context = true;
  active_tokens = 3;
  has_snapshot = true;
  snapshot_bytes = 6;
  snapshot_tokens = 3;
}

abbrev pub heap : Heap
heap a = state

abbrev session : Bytes
session = b's' ∷ []

abbrev budgeted : ResidentKvStore
budgeted = set_budget_bytes empty 10

abbrev pub first : ResidentKvStore
first = (store heap budgeted session (pos 0) (some 1)).1

abbrev second : ResidentKvStore
second = (store heap first session (pos 1) (some 2)).1

budgeted-Reachable : Reachable budgeted
budgeted-Reachable = after heap empty budgeted start (by_set_budget_bytes empty 10)

pub first-Reachable : Reachable first
first-Reachable =
    after heap budgeted first budgeted-Reachable (by_store budgeted session (pos 0) (some 1))

Reachable-IsAccounted_example : IsAccounted first
Reachable-IsAccounted_example = Reachable.Reachable-IsAccounted first first-Reachable

resident : Unit {0}
unfolding store store_entry put_slot find_slot next_tick next_clock evict_to_budget evict_rounds
    oldest_slot erase_slot empty set_budget_bytes bytes_eq resident_snapshot_ram_bytes remove peek
    keep_only_session_live keep_only_segment_live release_slots release_live_context_to_snapshot
    ensure_segment_kv_snapshot segment_kv_has_live_context count_session write
resident = tt

first-IsAccounted : IsAccounted first
first-IsAccounted = Reachable-IsAccounted first first-Reachable

second_ok : (store heap first session (pos 1) (some 2)).0 ≡ ok tt
unfolding resident
second_ok = refl

-- The second state evicts the first.
second_segments : length second.resident_segments ≡ 1
unfolding resident
second_segments = refl

store-peek_example :
    (peek second session (pos 1) ≡ some 2)
    × ((second.budget_bytes ≡ 0) ⊎ Within session (pos 1) second)
store-peek_example = Stored.store-peek heap session (pos 1) first 2 first-IsAccounted second_ok

first_budget : (first.budget_bytes == 0) ≡ false
unfolding resident
first_budget = refl

evict_to_budget-Within_example : Within session (pos 1) (evict_to_budget first session (pos 1))
evict_to_budget-Within_example =
    Evict.evict_to_budget-Within session (pos 1) first first-IsAccounted first_budget

abbrev slot : Slot
slot = record {
  session_id = session;
  segment_id = pos 0;
  entry = record { handle = 1; bytes = 6; last_access = 1 };
}

slot-Member : Member slot first.resident_segments
unfolding resident
slot-Member = inl refl

evict_to_budget-IsOldest_example :
    Member slot (evict_to_budget first session (pos 1)).resident_segments
    ⊎ IsOldest session (pos 1) slot (evict_to_budget first session (pos 1)).resident_segments
evict_to_budget-IsOldest_example =
    Evict.evict_to_budget-IsOldest session (pos 1) first slot first-IsAccounted slot-Member

abbrev pub export : Export
export s = ok (6, s.active_tokens)

abbrev other : Bytes
other = b't' ∷ []

kept_ok : (keep_only_session_live export heap first other).0 ≡ ok tt
unfolding resident
kept_ok = refl

segment_ok : (keep_only_segment_live export heap first session (pos 1)).0 ≡ ok tt
unfolding resident
segment_ok = refl
