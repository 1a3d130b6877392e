-- ===== src/Session.antt =====
-- src/context/session/session_state.h: a session is its store on disk, a plan that splits its
-- memories into segments, and what is known of each segment's KV cache. The hash map by segment
-- id is an association list; no code depends on its order.
use attemory.Base.{ℕ, Bool, false, Option, none, some, List, [], ◌∷◌, map, if◌then◌else◌}
use attemory.Base.Int.{ℤ, pos, eqb_ℤ}
use attemory.Base.Text.{Bytes}
use attemory.Persistent.{
  CacheState, missing, resident, SessionStore, KvCacheEntry, find_memory, empty_store,
}

pub record Segment : Type 0 where
  pub segment_id : ℤ
  pub memory_indices : List ℤ
  pub estimated_tokens : ℤ
  pub exact_tokens : ℤ
  pub manual_start : Bool
  pub auto_split_start : Bool

-- src/context/context_types.h: a memory as a client gives it.
pub record MemoryInput : Type 0 where
  pub has_id : Bool
  pub id : Bytes
  pub text : Bytes

-- `split_ratio` in hundredths.
pub record SegmentPlanConfig : Type 0 where
  pub model_cache_key : Bytes
  pub ctx_limit : ℤ
  pub split_ratio : ℕ
  pub max_segments : ℕ

pub record SegmentPlan : Type 0 where
  pub session_id : Bytes
  pub config : SegmentPlanConfig
  pub segments : List Segment

-- `session.segment_plan = {};`
unfoldable pub empty_plan : SegmentPlan
empty_plan = record {
  session_id = [];
  config = record { model_cache_key = []; ctx_limit = pos 0; split_ratio = 85; max_segments = 100 };
  segments = [];
}

pub record Session : Type 0 where
  pub store : SessionStore
  pub segment_plan : SegmentPlan
  pub segment_kv_metadata : List (ℤ × KvCacheEntry)
  pub facts_dirty : Bool

-- `Session session;`
unfoldable pub new_session : Session
unfolding empty_store empty_plan
new_session = record {
  store = empty_store;
  segment_plan = empty_plan;
  segment_kv_metadata = [];
  facts_dirty = false;
}

find_in_segments : List Segment → ℤ → Option Segment
find_in_segments [] segment_id = none
find_in_segments (s ∷ ss) segment_id =
    if eqb_ℤ s.segment_id segment_id then some s else find_in_segments ss segment_id

unfoldable pub find_segment : SegmentPlan → ℤ → Option Segment
unfolding find_in_segments
find_segment plan segment_id = find_in_segments plan.segments segment_id

unfoldable pub texts_of : SessionStore → List ℤ → List Bytes
texts_of store [] = []
texts_of store (z ∷ zs) = elim (find_memory store z) [
  | none ↦ texts_of store zs
  | some m ↦ m.text ∷ texts_of store zs
]

unfoldable pub collect_segment_memory_texts : SessionStore → Segment → List Bytes
unfolding texts_of
collect_segment_memory_texts store segment = texts_of store segment.memory_indices

unfoldable pub find_metadata : List (ℤ × KvCacheEntry) → ℤ → Option KvCacheEntry
find_metadata [] segment_id = none
find_metadata ((k, entry) ∷ rest) segment_id =
    if eqb_ℤ k segment_id then some entry else find_metadata rest segment_id

unfoldable pub find_segment_kv_metadata : Session → ℤ → Option KvCacheEntry
unfolding find_metadata
find_segment_kv_metadata session segment_id = find_metadata session.segment_kv_metadata segment_id

clear_state : CacheState → CacheState
clear_state resident = missing
clear_state other = other

unfoldable pub clear_session_resident_kv_metadata : Session → Session
unfolding clear_state
clear_session_resident_kv_metadata session = record session {
  segment_kv_metadata =
      map (λ e. (e.0, record e.1 { state = clear_state e.1.state })) session.segment_kv_metadata;
}
