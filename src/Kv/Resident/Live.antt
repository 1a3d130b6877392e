-- ===== src/Kv/Resident/Live.antt =====
-- `release_all_live_contexts`, `keep_only_session_live` and `keep_only_segment_live`: live contexts
-- are given up for their snapshots, and the sizes of the entries are taken anew.
use attemory.Base.Result.{err, on_result, ok, ResultStatus}
use attemory.Base.{
  ℕ, zero, suc, ◌+◌, ◌/◌, ◌%◌, Bool, true, false, ◌||◌, not, some, List, [], ◌∷◌, ◌++◌, ltb, ◌==◌,
  if◌then◌else◌,
}
use attemory.Base.Text.{Bytes, bytes_eq, text}
use attemory.Base.Int.{eqb_ℤ, ℤ, pos, negsuc}
use attemory.Kv.Handle.{Heap, Export, release_live_context_to_snapshot, resident_snapshot_ram_bytes}
use attemory.Kv.Resident.{sub64, count_session, add64, evict_to_budget, ResidentKvStore, Slot}

-- `std::to_string`; as many digits as the number's size are enough.
digits : ℕ → ℕ → Bytes
digits zero n = []
digits (suc fuel) n =
    if ltb n 10 then (b'0' + n) ∷ [] else digits fuel (n / 10) ++ (b'0' + n % 10) ∷ []

unfoldable pub to_string : ℤ → Bytes
unfolding digits
to_string (pos n) = digits (suc n) n
to_string (negsuc n) = b'-' ∷ digits (suc (suc n)) (suc n)

abbrev pub release_error : Slot → Bytes → Bytes
release_error s error =
    text "failed to release resident live context: session="
    ++ s.session_id
    ++ text " segment="
    ++ to_string s.segment_id
    ++ text " reason="
    ++ error

pub record Released : Type 0 where
  pub status : ResultStatus
  pub heap : Heap
  pub bytes : ℕ
  pub slots : List Slot

abbrev pub refresh_entry_bytes : Heap → Slot → Slot
refresh_entry_bytes heap s = record s {
  entry = record s.entry { bytes = resident_snapshot_ram_bytes heap (some s.entry.handle) };
}

abbrev pub prepend : Slot → Released → Released
prepend s r = record r { slots = s ∷ r.slots }

abbrev pub recount : ℕ → Slot → Slot → ℕ
recount bytes before now = add64 (sub64 bytes before.entry.bytes) now.entry.bytes

-- The loop that the three functions share; they differ in the slots that they `keep`.
unfoldable pub release_slots : Export → (Slot → Bool) → Heap → ℕ → List Slot → Released
release_slots export keep heap bytes [] = record {
  status = ok tt;
  heap = heap;
  bytes = bytes;
  slots = [];
}
release_slots export keep heap bytes (s ∷ ss) =
    let r = release_live_context_to_snapshot export heap (some s.entry.handle) in
    let now = refresh_entry_bytes r.1 s in
    elim (keep s) [
      | true ↦ prepend s (release_slots export keep heap bytes ss)
      | false ↦
          on_result r.0
            (λ e. record {
              status = err (release_error s e);
              heap = r.1;
              bytes = bytes;
              slots = s ∷ ss;
            })
            (λ _. prepend now (release_slots export keep r.1 (recount bytes s now) ss))
    ]

abbrev pub released : ResidentKvStore → Released → ResidentKvStore
released st r = record st { resident_bytes = r.bytes; resident_segments = r.slots }

unfoldable pub release_all_live_contexts :
    Export → Heap → ResidentKvStore → ResultStatus × Heap × ResidentKvStore
release_all_live_contexts export heap st =
    let r = release_slots export (λ s. false) heap st.resident_bytes st.resident_segments in
    (r.status, r.heap, released st r)

abbrev pub evicted : Released → ResidentKvStore → Bytes → ℤ → ResultStatus × Heap × ResidentKvStore
evicted r st session_id segment_id =
    on_result r.status (λ e. (err e, r.heap, released st r))
      (λ _. (ok tt, r.heap, evict_to_budget (released st r) session_id segment_id))

unfoldable pub keep_only_session_live :
    Export → Heap → ResidentKvStore → Bytes → ResultStatus × Heap × ResidentKvStore
keep_only_session_live export heap st session_id =
    evicted
      (release_slots export (λ s. bytes_eq s.session_id session_id) heap st.resident_bytes
        st.resident_segments)
      st session_id (negsuc 0)

unfoldable pub keep_only_segment_live :
    Export → Heap → ResidentKvStore → Bytes → ℤ → ResultStatus × Heap × ResidentKvStore
unfolding count_session
keep_only_segment_live export heap st session_id segment_id =
    if count_session st.resident_segments session_id == 0
    then (ok tt, heap, st)
    else evicted
        (release_slots export
          (λ s. not (bytes_eq s.session_id session_id) || eqb_ℤ s.segment_id segment_id) heap
          st.resident_bytes st.resident_segments)
        st session_id segment_id
