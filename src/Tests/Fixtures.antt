-- ===== src/Tests/Fixtures.antt =====
-- A small session and an estimator that counts the bytes of the texts, plus 1 for each memory and 2
-- for the system text.
use attemory.Base.Result.{ok, err}
use attemory.Base.Int.{pos}
use attemory.Kv.Metadata.{Disk}
use attemory.Persistent.{MemoryRecord, ModelCacheKey}
use attemory.Session.{Session}
use attemory.Core.{Core}
use attemory.Base.Text.{text, Bytes}
use attemory.Base.{ℕ, ◌+◌, true, false, List, [], ◌∷◌, length}

unfoldable pub kv_count : List Bytes → ℕ
kv_count [] = 2
kv_count (t ∷ ts) = length t + 1 + kv_count ts

abbrev pub bytes_core : Core
bytes_core = record {
  context_length = pos 20;
  text_tokens = λ t. ok (pos (length t));
  kv_tokens = λ s ts. ok (pos (kv_count ts));
}

abbrev pub memory : ℕ → Bytes → MemoryRecord
memory n t = record {
  memory_idx = pos n;
  has_id = false;
  id = [];
  text = t;
  estimated_tokens = pos 0;
}

abbrev pub two : Session
two = record {
  store = record {
    schema_version = 2;
    session_id = b's' ∷ [];
    system_text = [];
    system_locked = true;
    kv_persist = false;
    next_memory_idx = pos 2;
    memories = memory 0 (1 ∷ 2 ∷ 3 ∷ []) ∷ memory 1 (4 ∷ 5 ∷ []) ∷ [];
    manual_segment_boundaries = [];
  };
  segment_plan = record {
    session_id = [];
    config = record {
      model_cache_key = [];
      ctx_limit = pos 0;
      split_ratio = 85;
      max_segments = 100;
    };
    segments = [];
  };
  segment_kv_metadata = [];
  facts_dirty = false;
}

abbrev pub broken_core : Core
broken_core = record bytes_core { kv_tokens = λ s ts. err (text "no model") }

abbrev pub key : ModelCacheKey
key = record {
  value = b'k' ∷ [];
  vendor = [];
  model_desc = [];
  model_name = [];
  backend = [];
  template_hash = [];
  kv_type_k = [];
  kv_type_v = [];
}

abbrev pub bare_disk : Disk
bare_disk = record {
  manifest = err [];
  file_exists = λ path. false;
  segment_kv_path = λ z. b'p' ∷ [];
  segment_search_cache_path = λ z. b'q' ∷ [];
}
