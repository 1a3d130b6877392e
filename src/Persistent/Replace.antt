-- ===== src/Persistent/Replace.antt =====
-- How a file is replaced, `write_store_metadata_to_path`, `write_store_memories_to_path` of
-- src/persistent/session_persistence.cpp and the end of `save_kv_cache_manifest` of
-- src/persistent/kv_cache_persistence.cpp: a temporary file is written and renamed over the old one;
-- where that fails the old one is removed and the rename is tried again. The disk is its files by
-- their paths, and what the calls of the operating system answer is given.
pub mod Outcomes
pub mod Saved
use attemory.Persistent.Records.{cache_manifest_bytes, store_memories_bytes, store_metadata_bytes}
use attemory.Persistent.Validity.{validate_loaded_store}
use attemory.Persistent.{CacheManifest, SessionStore}
use attemory.Base.Text.{is_empty, text, bytes_eq, Bytes}
use attemory.Base.{
  ℕ, zero, suc, ◌+◌, ◌-◌, ◌*◌, ◌/◌, ◌%◌, ◌^◌, ◌≤◌, ◌<◌, ◌≡◌, refl, sym, ap, subst, ◌∙◌, ◌≢◌, ◌↔◌,
  ◌⊎◌, inl, inr, Bool, true, false, ◌&&◌, ◌||◌, not, Option, none, some, List, [], ◌∷◌, ◌++◌, map,
  arith, ltb, leb, ◌==◌, if◌then◌else◌, Bool-cases, Option-cases, length, All,
}
use attemory.Base.Result.{require, on_result, err, ok, ResultStatus, ◌>>=◌, ◌>>◌}

abbrev pub Files : Type 0
Files = Bytes → Option Bytes

unfoldable pub put_file : Files → Bytes → Option Bytes → Files
put_file files path content other = if bytes_eq other path then content else files other

pub record Io : Type 0 where
  -- `out.is_open()`, and `ok && out.good()` after `out.close()`
  pub opens : Bool
  pub writes : Bool
  -- the message of the `error_code` of the two renames, none for success
  pub rename_error : Option Bytes
  pub retry_error : Option Bytes
  -- whether `std::filesystem::remove(path, ec)` removes
  pub removes : Bool
  -- what stands at the temporary path after its removal was tried
  pub leftover : Option Bytes

abbrev pub temp_path : Bytes → Bytes
temp_path path = path ++ text ".tmp"

abbrev pub moved : Files → Bytes → Bytes → Files
moved files path content = put_file (put_file files (temp_path path) none) path (some content)

-- The second rename.
abbrev pub retry : Bytes → Io → Files → Bytes → Bytes → Option Bytes → ResultStatus × Files
retry kind io files path content none = (ok tt, moved files path content)
retry kind io files path content (some message) = (
  err (text "failed to replace " ++ kind ++ text " file: " ++ path ++ text ": " ++ message),
  put_file files (temp_path path) io.leftover,
)

abbrev pub rename : Bytes → Io → Files → Bytes → Bytes → Option Bytes → ResultStatus × Files
rename kind io files path content none = (ok tt, moved files path content)
rename kind io files path content (some message) =
    retry kind io (if io.removes then put_file files path none else files) path content
      io.retry_error

-- `kind` is `session store`, `session memories` or `cache manifest`.
unfoldable pub replace_file : Bytes → Io → Files → Bytes → Bytes → ResultStatus × Files
replace_file kind io files path content =
    if not io.opens
    then (err (text "failed to open " ++ kind ++ text " file: " ++ temp_path path), files)
    else if not io.writes
    then (
      err (text "failed to write " ++ kind ++ text " file: " ++ path),
      put_file files (temp_path path) io.leftover,
    )
    else rename kind io (put_file files (temp_path path) (some content)) path content
        io.rename_error

-- The checks of `save_session` and `save_session_metadata` before they touch the disk.
unfoldable pub check_save : Bytes → SessionStore → ResultStatus
check_save layout_id store = do
  validate_loaded_store store
  require (is_empty layout_id || bytes_eq store.session_id layout_id)
      (text "session store path does not match session id")

-- `directory` is what `ensure_directory` answers.
unfoldable pub save_session_metadata :
    Bytes → Bytes → ResultStatus → Io → Files → SessionStore → ResultStatus × Files
save_session_metadata layout_id meta_path directory io files store =
    on_result (check_save layout_id store >> directory) (λ e. (err e, files))
      (λ _. replace_file (text "session store") io files meta_path (store_metadata_bytes store))

unfoldable pub save_session :
    Bytes → Bytes → Bytes → ResultStatus → Io → Io → Files → SessionStore → ResultStatus × Files
save_session layout_id meta_path memories_path directory memories_io meta_io files store =
    on_result (check_save layout_id store >> directory) (λ e. (err e, files))
      (λ _.
        let first =
          replace_file (text "session memories") memories_io files memories_path
            (store_memories_bytes store) in
        on_result first.0 (λ e. (err e, first.1))
          (λ _.
            replace_file (text "session store") meta_io first.1 meta_path
              (store_metadata_bytes store)))

unfoldable pub save_kv_cache_manifest :
    Bytes → ResultStatus → Io → Files → CacheManifest → ResultStatus × Files
save_kv_cache_manifest path directory io files manifest =
    on_result directory (λ e. (err e, files))
      (λ _. replace_file (text "cache manifest") io files path (cache_manifest_bytes manifest))
