-- ===== src/Persistent/SessionFile.antt =====
-- The files of a session and of its cache manifest: `load_session` of
-- src/persistent/session_persistence.cpp and `load_kv_cache_manifest` of
-- src/persistent/kv_cache_persistence.cpp. A file is its bytes, or none where it cannot be opened;
-- a `path` is its name, which only the error texts mention.
pub mod RoundTrip
use attemory.Persistent.Binary.{read_pod, read_each}
use attemory.Persistent.Validity.{validate_loaded_store}
use attemory.Persistent.Records.{
  read_segment, max_cache_manifest_segments, read_memory_record, read_manifest_body,
  read_store_body, cache_manifest_magic, session_memories_magic, session_store_magic, read_header,
  max_session_memory_records,
}
use attemory.Persistent.{is_valid_session_id, CacheManifest, SessionStore}
use attemory.Base.Text.{bytes_eq, is_empty, text, Bytes}
use attemory.Base.{
  ℕ, zero, suc, ◌+◌, ◌-◌, ◌*◌, ◌/◌, ◌%◌, ◌^◌, ◌≤◌, ◌<◌, ◌≡◌, refl, sym, ap, subst, ◌∙◌, ◌≢◌, ◌↔◌,
  ◌⊎◌, inl, inr, Bool, true, false, ◌&&◌, ◌||◌, not, Option, none, some, List, [], ◌∷◌, ◌++◌, map,
  arith, ltb, leb, ◌==◌, if◌then◌else◌, Bool-cases, Option-cases, length, All,
}
use attemory.Base.Result.{require, ok, err, Result, ◌>>=◌, ◌>>◌}

abbrev pub on_read {ℓ κ} : {A : Type ℓ} {B : Type κ} → Option (A × Bytes) → B → (A → Bytes → B) → B
on_read none failed done = failed
on_read (some (a, rest)) failed done = done a rest

unfoldable pub read_store_metadata : Bytes → Option Bytes → Result (SessionStore × ℕ)
read_store_metadata path none = err (text "failed to open session store file: " ++ path)
read_store_metadata path (some file) =
    on_read (read_header file) (err (text "failed to read session store header")) (λ header rest.
      if not (header.0 == session_store_magic) || not (header.1 == 1 || header.1 == 2)
      then err (text "unsupported session store format")
      else on_read (read_store_body header.1 rest) (err (text "failed to read session store body"))
          (λ body _.
            if ltb max_session_memory_records body.1
            then err (text "session memory count exceeds supported limit")
            else if not (is_valid_session_id body.0.session_id)
            then err (text "invalid session id in store")
            else ok body))

unfoldable pub read_store_memories : Bytes → Option Bytes → ℕ → SessionStore → Result SessionStore
read_store_memories path file memory_count store =
    if memory_count == 0
    then ok (record store { memories = [] })
    else if ltb max_session_memory_records memory_count
    then err (text "session memory count exceeds supported limit")
    else elim file [
      | none ↦ err (text "failed to open session memories file: " ++ path)
      | some bytes ↦
          on_read (read_header bytes) (err (text "failed to read session memories header"))
            (λ header rest.
              if not (header.0 == session_memories_magic) || not (header.1 == 1)
              then err (text "unsupported session memories format")
              else on_read (read_each (read_memory_record header.1) memory_count rest)
                  (err (text "failed to read memory record"))
                  (λ memories _. ok (record store { memories = memories })))
    ]

-- `layout_id` is `layout.session_id`, and the files are those of the layout's paths.
unfoldable pub load_session :
    Bytes → Bytes → Bytes → Option Bytes → Option Bytes → Result SessionStore
load_session layout_id meta_path memories_path meta memories = do
  body ← read_store_metadata meta_path meta
  store ← read_store_memories memories_path memories body.1 body.0
  require (is_empty layout_id || bytes_eq store.session_id layout_id)
      (text "session store path does not match session id")
  validate_loaded_store store
  ok store

unfoldable pub load_kv_cache_manifest : Bytes → Option Bytes → Result CacheManifest
load_kv_cache_manifest path none = err (text "failed to open cache manifest file: " ++ path)
load_kv_cache_manifest path (some file) =
    on_read (read_header file) (err (text "failed to read cache manifest header")) (λ header rest.
      if not (header.0 == cache_manifest_magic) || not (header.1 == 1)
      then err (text "unsupported cache manifest format")
      else on_read (read_manifest_body rest) (err (text "failed to read cache manifest body"))
          (λ body rest.
            on_read (read_pod 8 rest) (err (text "failed to read cache manifest segment count"))
              (λ segment_count rest.
                if ltb max_cache_manifest_segments segment_count
                then err (text "cache manifest segment count exceeds supported limit")
                else on_read (read_each read_segment segment_count rest)
                    (err (text "failed to read cache manifest segment"))
                    (λ segments _. ok (record {
                      schema_version = body.0;
                      model = body.1;
                      session_id = body.2;
                      segments = segments;
                    })))))
