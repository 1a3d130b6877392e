-- ===== src/Kv/Handle.antt =====
-- The KV state of one segment behind a shared handle: the first half of
-- src/context/kv/resident_kv_store.cpp. A `SegmentKVHandle` is a `shared_ptr`, so several owners see
-- one state: a handle is an address, or none for `nullptr`, and the states stand on a heap. Of the
-- core's snapshot and live context only what this repository reads is kept: whether a live context
-- is there, the size of the serialised state, and how many base tokens each of them describes.
use attemory.Base.Text.{text}
use attemory.Base.Result.{Result-cases, on_result, err, ok, ResultStatus, Result}
use attemory.Base.{
  ℕ, ◌≡◌, inl, inr, Bool, true, false, ◌&&◌, ◌||◌, not, Option, none, some, arith, ◌==◌,
  if◌then◌else◌, Bool-cases,
}

pub record SegmentKvState : Type 0 where
  -- `active.ctx != nullptr || active.base_kv != nullptr`
  pub has_live_context : Bool
  -- `active.metadata.base_tokens.size()`
  pub active_tokens : ℕ
  pub has_snapshot : Bool
  -- `snapshot.base_seq_state_blob.size()`
  pub snapshot_bytes : ℕ
  -- `snapshot.metadata.base_tokens.size()`
  pub snapshot_tokens : ℕ

abbrev pub Heap : Type 0
Heap = ℕ → SegmentKvState

abbrev pub Handle : Type 0
Handle = Option ℕ

unfoldable pub write : Heap → ℕ → SegmentKvState → Heap
write heap a state b = if a == b then state else heap b

-- `export_kv_snapshot(active, snapshot, error)` of the core: the size of the serialised state and
-- its base tokens, or an error; on an error the snapshot is as it was.
abbrev pub Export : Type 0
Export = SegmentKvState → Result (ℕ × ℕ)

unfoldable pub segment_kv_has_live_context : Heap → Handle → Bool
segment_kv_has_live_context heap none = false
segment_kv_has_live_context heap (some a) = (heap a).has_live_context

unfoldable pub segment_kv_has_snapshot_blob : Heap → Handle → Bool
segment_kv_has_snapshot_blob heap none = false
segment_kv_has_snapshot_blob heap (some a) =
    (heap a).has_snapshot && not ((heap a).snapshot_bytes == 0)

-- The base tokens of `segment_kv_metadata(handle)`, where that is not null.
unfoldable pub segment_kv_metadata_tokens : Heap → Handle → Option ℕ
segment_kv_metadata_tokens heap none = none
segment_kv_metadata_tokens heap (some a) =
    let s = heap a in
    if s.has_live_context || not (s.active_tokens == 0)
    then some s.active_tokens
    else if s.has_snapshot
    then some s.snapshot_tokens
    else none

unfoldable pub segment_kv_base_token_count : Heap → Handle → ℕ
unfolding segment_kv_metadata_tokens
segment_kv_base_token_count heap handle = elim (segment_kv_metadata_tokens heap handle) [
  | none ↦ 0
  | some n ↦ n
]

unfoldable pub ensure_segment_kv_snapshot : Export → Heap → Handle → ResultStatus × Heap
unfolding write
ensure_segment_kv_snapshot export heap none = (err (text "segment KV handle is null"), heap)
ensure_segment_kv_snapshot export heap (some a) =
    let s = heap a in
    if not s.has_live_context
    then if s.has_snapshot
      then (ok tt, heap)
      else (err (text "segment KV has neither snapshot nor live context"), heap)
    else on_result (export s) (λ e. (err e, heap))
        (λ r. (
          ok tt,
          write heap a
              (record s { has_snapshot = true; snapshot_bytes = r.0; snapshot_tokens = r.1 }),
        ))

unfoldable pub release_segment_kv_context : Heap → Handle → Heap
unfolding write
release_segment_kv_context heap none = heap
release_segment_kv_context heap (some a) =
    let s = heap a in
    write heap a (record s {
      has_live_context = false;
      active_tokens = if s.has_snapshot then 0 else s.active_tokens;
    })

unfoldable pub release_live_context_to_snapshot : Export → Heap → Handle → ResultStatus × Heap
unfolding write ensure_segment_kv_snapshot segment_kv_has_live_context
release_live_context_to_snapshot export heap none = (ok tt, heap)
release_live_context_to_snapshot export heap (some a) =
    if not (segment_kv_has_live_context heap (some a))
    then (ok tt, heap)
    else let r = ensure_segment_kv_snapshot export heap (some a) in
      on_result r.0 (λ e. (err e, r.1))
        (λ _. (ok tt, write r.1 a (record (r.1 a) { has_live_context = false; active_tokens = 0 })))

unfoldable pub resident_snapshot_ram_bytes : Heap → Handle → ℕ
resident_snapshot_ram_bytes heap none = 0
resident_snapshot_ram_bytes heap (some a) =
    if (heap a).has_snapshot then (heap a).snapshot_bytes else 0

-- When a live context is released to its snapshot, the state behind the handle has no live context
-- any more and every state that had none still has none, and a state that was live has a snapshot.
pub release_live_context_to_snapshot_lem :
    (export : Export) (heap : Heap) (a : ℕ) (b : ℕ)
    → let r = release_live_context_to_snapshot export heap (some a) in
      r.0 ≡ ok tt
      → ((r.1 a).has_live_context ≡ false)
        × ((heap b).has_live_context ≡ false → (r.1 b).has_live_context ≡ false)
        × ((heap a).has_live_context ≡ true → (r.1 a).has_snapshot ≡ true)
unfolding release_live_context_to_snapshot
release_live_context_to_snapshot_lem export heap a b h =
    elim (Bool-cases (heap a).has_live_context) [
      | inr idle ↦ (ground arith, ground arith, ground arith)
      | inl live ↦ elim (Result-cases (export (heap a))) [
        | inr (e, failed) ↦ absurd (ground arith)
        | inl (r, exported) ↦ (ground arith, ground arith, ground arith)
      ]
    ]
