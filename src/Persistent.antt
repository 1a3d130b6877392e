-- ===== src/Persistent.antt =====
-- src/persistent/persistent.h: the records that are kept on disk, and the look-ups on them. A
-- `MemoryIndex` (int64_t) and a `SegmentId` (int32_t) are integers.
pub mod Lookup
pub mod Validity
pub mod Binary
pub mod Paths
pub mod Records
pub mod SessionFile
pub mod Replace
use attemory.Base.{
  ℕ, zero, ◌≡◌, Bool, true, false, ◌&&◌, ◌||◌, not, Option, none, some, List, [], ◌∷◌, map, leb,
  ◌==◌, get_elem?, if◌then◌else◌,
}
use attemory.Base.Int.{ℤ, pos, negsuc, eqb_ℤ}
use attemory.Base.Text.{Bytes, text, bytes_eq, is_empty}

pub data CacheState : Type 0 where
  missing building resident disk_only invalid : CacheState

pub record MemoryRecord : Type 0 where
  pub memory_idx : ℤ
  pub has_id : Bool
  pub id : Bytes
  pub text : Bytes
  pub estimated_tokens : ℤ

pub record SessionStore : Type 0 where
  pub schema_version : ℕ
  pub session_id : Bytes
  pub system_text : Bytes
  pub system_locked : Bool
  pub kv_persist : Bool
  pub next_memory_idx : ℤ
  pub memories : List MemoryRecord
  pub manual_segment_boundaries : List ℤ

-- `SessionStore store = {};`
unfoldable pub empty_store : SessionStore
empty_store = record {
  schema_version = 2;
  session_id = [];
  system_text = [];
  system_locked = false;
  kv_persist = false;
  next_memory_idx = pos 0;
  memories = [];
  manual_segment_boundaries = [];
}

abbrev pub indices : List MemoryRecord → List ℤ
indices = map (λ m. m.memory_idx)

-- `std::isalnum` in the "C" locale, which the program never leaves.
is_alnum : ℕ → Bool
is_alnum c = (leb b'0' c && leb c b'9') || (leb b'a' c && leb c b'z') || (leb b'A' c && leb c b'Z')

unfoldable pub id_char : ℕ → Bool
unfolding is_alnum
id_char c = is_alnum c || c == b'.' || c == b'_' || c == b'-'

id_chars : Bytes → Bool
unfolding id_char
id_chars [] = true
id_chars (c ∷ cs) = if id_char c then id_chars cs else false

unfoldable pub is_valid_session_id : Bytes → Bool
unfolding id_chars
is_valid_session_id id =
    if is_empty id
    then false
    else if bytes_eq id (text ".") || bytes_eq id (text "..")
    then false
    else id_chars id

-- The candidate at the position that the index names, if that lies in the vector.
abbrev candidate : List MemoryRecord → ℤ → Option MemoryRecord
candidate ms (pos n) = get_elem? ms n
candidate ms (negsuc n) = none

-- The linear search.
unfoldable pub scan_memory : List MemoryRecord → ℤ → Option MemoryRecord
scan_memory [] memory_idx = none
scan_memory (m ∷ ms) memory_idx =
    if eqb_ℤ m.memory_idx memory_idx then some m else scan_memory ms memory_idx

unfoldable pub find_memory : SessionStore → ℤ → Option MemoryRecord
find_memory store memory_idx = elim (candidate store.memories memory_idx) [
  | some m ↦ if eqb_ℤ m.memory_idx memory_idx then some m else scan_memory store.memories memory_idx
  | none ↦ scan_memory store.memories memory_idx
]

pub record ModelCacheKey : Type 0 where
  pub value : Bytes
  pub vendor : Bytes
  pub model_desc : Bytes
  pub model_name : Bytes
  pub backend : Bytes
  pub template_hash : Bytes
  pub kv_type_k : Bytes
  pub kv_type_v : Bytes

unfoldable pub model_cache_key_equal : ModelCacheKey → ModelCacheKey → Bool
model_cache_key_equal lhs rhs =
    bytes_eq lhs.value rhs.value
    && bytes_eq lhs.vendor rhs.vendor
    && bytes_eq lhs.model_desc rhs.model_desc
    && bytes_eq lhs.model_name rhs.model_name
    && bytes_eq lhs.backend rhs.backend
    && bytes_eq lhs.template_hash rhs.template_hash
    && bytes_eq lhs.kv_type_k rhs.kv_type_k
    && bytes_eq lhs.kv_type_v rhs.kv_type_v

pub record SegmentCacheKey : Type 0 where
  pub model : ModelCacheKey
  pub session_id : Bytes
  pub segment_id : ℤ
  pub segment_content_hash : Bytes

pub record SegmentCacheManifest : Type 0 where
  pub segment_id : ℤ
  pub first_memory_idx : ℤ
  pub last_memory_idx_exclusive : ℤ
  pub segment_content_hash : Bytes
  pub kv_file : Bytes
  pub search_cache_file : Bytes
  pub token_count : ℤ
  pub bytes : ℤ
  pub created_at_ms : ℤ
  pub last_access_ms : ℤ

pub record CacheManifest : Type 0 where
  pub schema_version : ℕ
  pub model : ModelCacheKey
  pub session_id : Bytes
  pub segments : List SegmentCacheManifest

pub record KvCacheEntry : Type 0 where
  pub key : SegmentCacheKey
  pub state : CacheState
  pub kv_path : Bytes
  pub search_cache_path : Bytes
  pub token_count : ℤ
  pub bytes_on_disk : ℤ
  pub bytes_in_memory : ℤ
  pub created_at_ms : ℤ
  pub last_access_ms : ℤ
