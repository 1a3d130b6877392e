-- ===== src/Kv/Manager.antt =====
-- `SegmentKVManager` of src/context/kv/segment_kv_manager.cpp, but for the preparation and the
-- activation of a segment: which KV states are resident, which one is active, and which are staged
-- as the prefix of a segment that has grown. The states stand on one heap, which is part of the
-- state here. The map of prefixes is a list of slots, as that of the resident store; an emptied
-- inner map is dropped by the code, which no call sees.
pub mod Kept
pub mod Staged
use attemory.Base.Result.{err, ok, on_result, ResultStatus}
use attemory.Kv.Resident.{
  is_at, put_slot, erase_slot, find_slot, Slot, ResidentKvStore, ResidentKvEntry,
}
use attemory.Base.Int.{eqb_ℤ, ℤ, negsuc}
use attemory.Kv.Handle.{
  ensure_segment_kv_snapshot, segment_kv_has_live_context, Handle, Export,
  release_segment_kv_context, Heap,
}
use attemory.Base.Text.{bytes_eq, is_empty, Bytes}
use attemory.Base.{
  ℕ, zero, suc, ◌+◌, ◌-◌, ◌*◌, ◌/◌, ◌%◌, ◌^◌, ◌≤◌, ◌<◌, ◌≡◌, refl, sym, ap, subst, ◌∙◌, ◌≢◌, ◌↔◌,
  ◌⊎◌, inl, inr, Bool, true, false, ◌&&◌, ◌||◌, not, Option, none, some, List, [], ◌∷◌, ◌++◌, map,
  arith, ltb, leb, ◌==◌, if◌then◌else◌, Bool-cases, Option-cases, length, All,
}
use attemory.Kv.Resident
use attemory.Kv.Resident.Live

-- A command of src/context/attemory_types.h.
pub data AttemoryCommand : Type 0 where
  add_system add_memory restore clear_session create_session delete_session search next_segment
        save_session index_session oneshot_search :
      AttemoryCommand

-- `command == AttemoryCommand::CREATE_SESSION`
abbrev pub creates : AttemoryCommand → Bool
creates create_session = true
creates add_system = false
creates add_memory = false
creates restore = false
creates clear_session = false
creates delete_session = false
creates search = false
creates next_segment = false
creates save_session = false
creates index_session = false
creates oneshot_search = false

pub record ActiveSegmentKv : Type 0 where
  pub session_id : Bytes
  pub segment_id : ℤ
  pub handle : Handle

-- `ContextKVState`, beside the heap.
pub record ContextKvState : Type 0 where
  pub heap : Heap
  pub resident : ResidentKvStore
  pub active_segment : ActiveSegmentKv
  pub incremental_prefixes : List Slot

abbrev pub inactive : ActiveSegmentKv
inactive = record { session_id = []; segment_id = negsuc 0; handle = none }

-- `clear_active`, and `reset_active_segment` on the active segment.
unfoldable pub clear_active : ContextKvState → ContextKvState
clear_active kv = record kv {
  heap = release_segment_kv_context kv.heap kv.active_segment.handle;
  active_segment = inactive;
}

unfoldable pub take_incremental_prefix : ContextKvState → Bytes → ℤ → Handle × ContextKvState
take_incremental_prefix kv session_id segment_id =
    elim (find_slot kv.incremental_prefixes session_id segment_id) [
      | none ↦ (none, kv)
      | some entry ↦ (
        some entry.handle,
        record kv {
          incremental_prefixes = erase_slot kv.incremental_prefixes session_id segment_id;
        },
      )
    ]

unfoldable pub drop_session : Bytes → List Slot → List Slot
drop_session session_id [] = []
drop_session session_id (s ∷ ss) =
    if bytes_eq s.session_id session_id
    then drop_session session_id ss
    else s ∷ drop_session session_id ss

unfoldable pub clear_incremental_prefix_session : ContextKvState → Bytes → ContextKvState
unfolding drop_session
clear_incremental_prefix_session kv session_id = record kv {
  incremental_prefixes = drop_session session_id kv.incremental_prefixes;
}

unfoldable pub remove_incremental_prefix : ContextKvState → Bytes → ℤ → ContextKvState
remove_incremental_prefix kv session_id segment_id = record kv {
  incremental_prefixes = erase_slot kv.incremental_prefixes session_id segment_id;
}

-- One prefix: its live context goes, behind a snapshot of it.
unfoldable pub release_prefix : Export → Heap → Handle → ResultStatus × Heap
release_prefix export heap handle =
    if not (segment_kv_has_live_context heap handle)
    then (ok tt, heap)
    else let r = ensure_segment_kv_snapshot export heap handle in
      on_result r.0 (λ e. (err e, r.1)) (λ _. (ok tt, release_segment_kv_context r.1 handle))

-- The two loops over the prefixes; they differ in the one that they `keep`.
unfoldable pub release_prefixes : Export → (Slot → Bool) → Heap → List Slot → ResultStatus × Heap
release_prefixes export keep heap [] = (ok tt, heap)
release_prefixes export keep heap (s ∷ ss) =
    let r = release_prefix export heap (some s.entry.handle) in
    elim (keep s) [
      | true ↦ release_prefixes export keep heap ss
      | false ↦ on_result r.0 (λ e. (err e, r.1)) (λ _. release_prefixes export keep r.1 ss)
    ]

abbrev evict_other : ContextKvState → Bytes → Handle → ContextKvState
evict_other kv session_id none = kv
evict_other kv session_id (some a) =
    if is_empty kv.active_segment.session_id || bytes_eq kv.active_segment.session_id session_id
    then kv
    else clear_active kv

unfoldable pub evict_active_for_command : ContextKvState → AttemoryCommand → Bytes → ContextKvState
evict_active_for_command kv command session_id =
    if creates command then kv else evict_other kv session_id kv.active_segment.handle

unfoldable pub evict_session : ContextKvState → Bytes → ContextKvState
evict_session kv session_id =
    if bytes_eq kv.active_segment.session_id session_id then clear_active kv else kv

unfoldable pub clear_resident_session : ContextKvState → Bytes → ContextKvState
unfolding clear_incremental_prefix_session
clear_resident_session kv session_id =
    clear_incremental_prefix_session
      (record kv { resident = Resident.clear_session kv.resident session_id }) session_id

unfoldable pub remove_resident_segment : ContextKvState → Bytes → ℤ → ContextKvState
unfolding remove_incremental_prefix
remove_resident_segment kv session_id segment_id =
    remove_incremental_prefix
      (record kv { resident = Resident.remove kv.resident session_id segment_id }) session_id
      segment_id

abbrev pub prefix_entry : ℕ → ResidentKvEntry
prefix_entry handle = record { handle = handle; bytes = 0; last_access = 0 }

abbrev pub is_active_at : ContextKvState → Bytes → ℤ → Bool
is_active_at kv session_id segment_id =
    bytes_eq kv.active_segment.session_id session_id
    && eqb_ℤ kv.active_segment.segment_id segment_id

-- Behind `find`: the state moves from the resident store to the prefixes.
unfoldable pub stage_handle : ContextKvState → Bytes → ℤ → ℕ → ContextKvState
unfolding clear_active
stage_handle kv session_id segment_id handle =
    let staged : ContextKvState = record kv {
      incremental_prefixes =
          put_slot kv.incremental_prefixes session_id segment_id (prefix_entry handle);
      resident = Resident.remove kv.resident session_id segment_id;
    } in
    if is_active_at kv session_id segment_id then clear_active staged else staged

unfoldable pub stage_incremental_prefix : ContextKvState → Bytes → ℤ → ContextKvState
unfolding stage_handle
stage_incremental_prefix kv session_id segment_id =
    let r = Resident.find kv.resident session_id segment_id in
    let found : ContextKvState = record kv { resident = r.0 } in
    elim r.1 [ none ↦ found | some handle ↦ stage_handle found session_id segment_id handle ]

unfoldable pub resident_segment_count : ContextKvState → Bytes → ℕ
resident_segment_count kv session_id =
    Resident.count_session kv.resident.resident_segments session_id

abbrev with_resident :
    ContextKvState → ResultStatus × Heap × ResidentKvStore → ResultStatus × ContextKvState
with_resident kv r = (r.0, record kv { heap = r.1; resident = r.2 })

unfoldable pub release_all_live_contexts : Export → ContextKvState → ResultStatus × ContextKvState
unfolding clear_active
release_all_live_contexts export kv =
    let cleared = clear_active kv in
    let r = release_prefixes export (λ s. false) cleared.heap cleared.incremental_prefixes in
    let released : ContextKvState = record cleared { heap = r.1 } in
    on_result r.0 (λ e. (err e, released))
      (λ _.
        with_resident released
          (Live.release_all_live_contexts export released.heap released.resident))

unfoldable pub keep_only_session_live :
    Export → ContextKvState → Bytes → ResultStatus × ContextKvState
keep_only_session_live export kv session_id =
    with_resident kv (Live.keep_only_session_live export kv.heap kv.resident session_id)

unfoldable pub clear_all : ContextKvState → ContextKvState
unfolding clear_active
clear_all kv =
    let cleared = clear_active kv in
    record cleared { resident = Resident.clear cleared.resident; incremental_prefixes = [] }

unfoldable pub set_resident_budget_bytes : ContextKvState → ℕ → ContextKvState
set_resident_budget_bytes kv bytes = record kv {
  resident = Resident.set_budget_bytes kv.resident bytes;
}

-- The last test: another segment does not stay active.
unfoldable pub keep_active : ContextKvState → Bytes → ℤ → Handle → ContextKvState
unfolding clear_active
keep_active kv session_id segment_id none = kv
keep_active kv session_id segment_id (some a) =
    if is_active_at kv session_id segment_id then kv else clear_active kv

unfoldable pub keep_only_segment_live :
    Export → ContextKvState → Bytes → ℤ → ResultStatus × ContextKvState
unfolding release_prefixes keep_active
keep_only_segment_live export kv session_id segment_id =
    let (status, kept) =
      with_resident kv
        (Live.keep_only_segment_live export kv.heap kv.resident session_id segment_id) in
    on_result status (λ e. (err e, kept))
      (λ _.
        let r =
          release_prefixes export (λ s. is_at session_id segment_id s) kept.heap
            kept.incremental_prefixes in
        let quiet : ContextKvState = record kept { heap = r.1 } in
        on_result r.0 (λ e. (err e, quiet))
          (λ _. (ok tt, keep_active quiet session_id segment_id quiet.active_segment.handle)))
