-- ===== src/Kv/Resident.antt =====
-- `ResidentKVStore` of src/context/kv/resident_kv_store.cpp: the KV states that are kept in memory,
-- within a budget of bytes, with the least recently used evicted first. The hash maps by session
-- and by segment are one list of slots, in any order; an iteration over the maps is one over the
-- list. A store never holds a null handle. Sums of bytes are `uint64_t` and wrap.
pub mod Slots
pub mod Accounting
pub mod Evict
pub mod Stored
pub mod Reachable
pub mod Live
pub mod Released
pub mod Recount
use attemory.Base.Result.{on_result, ok, err, ResultStatus}
use attemory.Base.Int.{pos, ltb_ℤ, eqb_ℤ, ℤ}
use attemory.Kv.Handle.{Handle, Heap, resident_snapshot_ram_bytes}
use attemory.Base.Text.{text, bytes_eq, Bytes}
use attemory.Base.{
  ℕ, zero, suc, ◌+◌, ◌-◌, ◌*◌, ◌/◌, ◌%◌, ◌^◌, ◌≤◌, ◌<◌, ◌≡◌, refl, sym, ap, subst, ◌∙◌, ◌≢◌, ◌↔◌,
  ◌⊎◌, inl, inr, Bool, true, false, ◌&&◌, ◌||◌, not, Option, none, some, List, [], ◌∷◌, ◌++◌, map,
  arith, ltb, leb, ◌==◌, if◌then◌else◌, Bool-cases, Option-cases, length, All,
}

abbrev pub u64 : ℕ
u64 = 2 ^ 64

abbrev pub u64_max : ℕ
u64_max = 18446744073709551615

abbrev pub add64 : ℕ → ℕ → ℕ
add64 a b = (a + b) % u64

abbrev pub sub64 : ℕ → ℕ → ℕ
sub64 a b = (a + u64 - b) % u64

pub record ResidentKvEntry : Type 0 where
  pub handle : ℕ
  pub bytes : ℕ
  pub last_access : ℕ

pub record Slot : Type 0 where
  pub session_id : Bytes
  pub segment_id : ℤ
  pub entry : ResidentKvEntry

pub record ResidentKvStore : Type 0 where
  pub resident_segments : List Slot
  pub budget_bytes : ℕ
  pub resident_bytes : ℕ
  pub access_clock : ℕ

unfoldable pub empty : ResidentKvStore
empty = record { resident_segments = []; budget_bytes = 0; resident_bytes = 0; access_clock = 0 }

abbrev pub is_at : Bytes → ℤ → Slot → Bool
is_at session_id segment_id s = bytes_eq s.session_id session_id && eqb_ℤ s.segment_id segment_id

unfoldable pub find_slot : List Slot → Bytes → ℤ → Option ResidentKvEntry
find_slot [] session_id segment_id = none
find_slot (s ∷ ss) session_id segment_id =
    if is_at session_id segment_id s then some s.entry else find_slot ss session_id segment_id

-- `segments[segment_id] = entry`
unfoldable pub put_slot : List Slot → Bytes → ℤ → ResidentKvEntry → List Slot
put_slot [] session_id segment_id entry =
    record { session_id = session_id; segment_id = segment_id; entry = entry } ∷ []
put_slot (s ∷ ss) session_id segment_id entry =
    if is_at session_id segment_id s
    then record s { entry = entry } ∷ ss
    else s ∷ put_slot ss session_id segment_id entry

unfoldable pub erase_slot : List Slot → Bytes → ℤ → List Slot
erase_slot [] session_id segment_id = []
erase_slot (s ∷ ss) session_id segment_id =
    if is_at session_id segment_id s then ss else s ∷ erase_slot ss session_id segment_id

-- The clock after a tick; the entry's time is the tick before the reset.
unfoldable pub next_tick : ℕ → ℕ
next_tick clock = add64 clock 1

unfoldable pub next_clock : ℕ → ℕ
unfolding next_tick
next_clock clock = if next_tick clock == u64_max then 1 else next_tick clock

unfoldable pub set_budget_bytes : ResidentKvStore → ℕ → ResidentKvStore
set_budget_bytes st bytes = record st { budget_bytes = bytes }

-- `find`, which touches the entry.
unfoldable pub find : ResidentKvStore → Bytes → ℤ → ResidentKvStore × Handle
unfolding find_slot put_slot next_tick next_clock
find st session_id segment_id = elim (find_slot st.resident_segments session_id segment_id) [
  | none ↦ (st, none)
  | some entry ↦ (
    record st {
      resident_segments =
          put_slot st.resident_segments session_id segment_id
            (record entry { last_access = next_tick st.access_clock });
      access_clock = next_clock st.access_clock;
    },
    some entry.handle,
  )
]

unfoldable pub peek : ResidentKvStore → Bytes → ℤ → Handle
unfolding find_slot
peek st session_id segment_id = elim (find_slot st.resident_segments session_id segment_id) [
  | none ↦ none
  | some entry ↦ some entry.handle
]

unfoldable pub remove : ResidentKvStore → Bytes → ℤ → ResidentKvStore
unfolding find_slot erase_slot
remove st session_id segment_id = elim (find_slot st.resident_segments session_id segment_id) [
  | none ↦ st
  | some entry ↦ record st {
    resident_bytes = sub64 st.resident_bytes entry.bytes;
    resident_segments = erase_slot st.resident_segments session_id segment_id;
  }
]

-- The loop of `clear_session` over the slots of the session, and the slots that stay.
unfoldable pub clear_slots : Bytes → ℕ → List Slot → ℕ × List Slot
clear_slots session_id bytes [] = (bytes, [])
clear_slots session_id bytes (s ∷ ss) =
    let here = bytes_eq s.session_id session_id in
    let r = clear_slots session_id (if here then sub64 bytes s.entry.bytes else bytes) ss in
    (r.0, if here then r.1 else s ∷ r.1)

unfoldable pub clear_session : ResidentKvStore → Bytes → ResidentKvStore
unfolding clear_slots
clear_session st session_id =
    let r = clear_slots session_id st.resident_bytes st.resident_segments in
    record st { resident_bytes = r.0; resident_segments = r.1 }

unfoldable pub clear : ResidentKvStore → ResidentKvStore
clear st = record st { resident_segments = []; resident_bytes = 0 }

unfoldable pub count_session : List Slot → Bytes → ℕ
count_session [] session_id = 0
count_session (s ∷ ss) session_id =
    if bytes_eq s.session_id session_id
    then suc (count_session ss session_id)
    else count_session ss session_id

-- The slots that eviction must leave: a protected segment, or for a negative id a whole session.
abbrev pub is_protected : Bytes → ℤ → Slot → Bool
is_protected session_id segment_id s =
    bytes_eq s.session_id session_id && (ltb_ℤ segment_id (pos 0) || eqb_ℤ s.segment_id segment_id)

-- The scan for the oldest slot: `found` and `oldest` are the two variables of the loop.
unfoldable pub oldest_slot : Bytes → ℤ → Option Slot → ℕ → List Slot → Option Slot
oldest_slot session_id segment_id found oldest [] = found
oldest_slot session_id segment_id found oldest (s ∷ ss) =
    let better = not (is_protected session_id segment_id s) && ltb s.entry.last_access oldest in
    oldest_slot session_id segment_id (if better then some s else found)
      (if better then s.entry.last_access else oldest) ss

abbrev pub candidate : ResidentKvStore → Bytes → ℤ → Option Slot
candidate st session_id segment_id =
    oldest_slot session_id segment_id none u64_max st.resident_segments

abbrev pub evict_slot : ResidentKvStore → Slot → ResidentKvStore
evict_slot st s = record st {
  resident_bytes = sub64 st.resident_bytes s.entry.bytes;
  resident_segments = erase_slot st.resident_segments s.session_id s.segment_id;
}

-- The `while` loop; a round takes one slot away, so as many rounds as slots are enough.
unfoldable pub evict_rounds : ℕ → ResidentKvStore → Bytes → ℤ → ResidentKvStore
unfolding oldest_slot erase_slot
evict_rounds zero st session_id segment_id = st
evict_rounds (suc fuel) st session_id segment_id = elim (ltb st.budget_bytes st.resident_bytes) [
  | false ↦ st
  | true ↦ elim (candidate st session_id segment_id) [
    | none ↦ st
    | some s ↦ evict_rounds fuel (evict_slot st s) session_id segment_id
  ]
]

unfoldable pub evict_to_budget : ResidentKvStore → Bytes → ℤ → ResidentKvStore
unfolding evict_rounds
evict_to_budget st session_id segment_id =
    if st.budget_bytes == 0
    then st
    else evict_rounds (length st.resident_segments) st session_id segment_id

abbrev pub entry_bytes : Option ResidentKvEntry → ℕ
entry_bytes none = 0
entry_bytes (some e) = e.bytes

-- `store`, behind the test for a null handle: `touched` is the state with the clock moved on. Before
-- the test of the overflow the source makes an empty inner map for a session that has none, which
-- stays when the test fails; here such a session has no slot and no map.
unfoldable pub store_entry : Heap → ResidentKvStore → Bytes → ℤ → ℕ → ResultStatus × ResidentKvStore
unfolding find_slot put_slot next_tick next_clock resident_snapshot_ram_bytes
store_entry heap st session_id segment_id handle =
    let bytes = resident_snapshot_ram_bytes heap (some handle) in
    let entry : ResidentKvEntry = record {
      handle = handle;
      bytes = bytes;
      last_access = next_tick st.access_clock;
    } in
    let touched : ResidentKvStore = record st { access_clock = next_clock st.access_clock } in
    let previous_bytes = entry_bytes (find_slot st.resident_segments session_id segment_id) in
    let rest = sub64 st.resident_bytes previous_bytes in
    if ltb (u64_max - rest) bytes
    then (err (text "resident KV byte accounting overflow"), touched)
    else (
      ok tt,
      record touched {
        resident_segments = put_slot st.resident_segments session_id segment_id entry;
        resident_bytes = add64 rest bytes;
      },
    )

unfoldable pub store : Heap → ResidentKvStore → Bytes → ℤ → Handle → ResultStatus × ResidentKvStore
store heap st session_id segment_id none = (ok tt, remove st session_id segment_id)
store heap st session_id segment_id (some handle) =
    let r = store_entry heap st session_id segment_id handle in
    on_result r.0 (λ e. (err e, r.1)) (λ _. (ok tt, evict_to_budget r.1 session_id segment_id))
