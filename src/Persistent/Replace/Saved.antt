-- ===== src/Persistent/Replace/Saved.antt =====
-- A load after a save.
use attemory.Persistent.Records.{store_metadata_bytes, store_memories_bytes}
use attemory.Persistent.SessionFile.{load_session}
use attemory.Persistent.Replace.Outcomes.{replace_file_lem}
use attemory.Persistent.SessionFile.RoundTrip.{load_session-store_bytes, IsStorable}
use attemory.Persistent.Validity.{validate_loaded_store_iff, validate_loaded_store, IsValidStore}
use attemory.Persistent.{SessionStore}
use attemory.Persistent.Replace.{temp_path, replace_file, Files, Io, save_session, check_save}
use attemory.Base.Text.{text, bytes_eq, is_empty, Bytes}
use attemory.Base.{◌≡◌, refl, ◌∙◌, inl, inr, Bool, true, false, ◌||◌, some, arith}
use attemory.Base.Result.{err, on_result, require, ok, ResultStatus, ◌>>◌}

replaced :
    (kind : Bytes) (io : Io) (files : Files) (path content : Bytes)
    → (replace_file kind io files path content).0 ≡ ok tt
    → (replace_file kind io files path content).1 path ≡ some content
replaced kind io files path content h = elim (replace_file_lem kind io files path content).0 [
  | inl (o, e) ↦ e
  | inr ((x, f), k) ↦ absurd (ground arith)
]

both_ok : (m k : ResultStatus) → (m >> k) ≡ ok tt → (m ≡ ok tt) × (k ≡ ok tt)
both_ok (ok u) k h = (refl, h)
both_ok (err e) k h = absurd (ground arith)

required : (b : Bool) (e : Bytes) → require b e ≡ ok tt → b ≡ true
required true e h = refl
required false e h = absurd (ground arith)

-- Both steps of a save that succeeded did.
sequence_ok :
    (m : ResultStatus) (first : ResultStatus × Files) (second : ResultStatus × Files)
    (files : Files)
    → (on_result m
        (λ e. (err e, files))
        (λ _. on_result first.0 (λ e. (err e, first.1)) (λ _. second))).0
      ≡ ok tt
    → (m ≡ ok tt)
      × (first.0 ≡ ok tt)
      × (second.0 ≡ ok tt)
      × (on_result m
            (λ e. (err e, files))
            (λ _. on_result first.0 (λ e. (err e, first.1)) (λ _. second))
          ≡ second)
sequence_ok (ok u) (ok v, f) second files h = (refl, refl, h, refl)
sequence_ok (ok u) (err e, f) second files h = absurd (ground arith)
sequence_ok (err e) first second files h = absurd (ground arith)

checked :
    (layout_id : Bytes) (store : SessionStore) (directory : ResultStatus)
    → (check_save layout_id store >> directory) ≡ ok tt
    → IsValidStore store × ((is_empty layout_id || bytes_eq store.session_id layout_id) ≡ true)
unfolding check_save
checked layout_id store directory h =
    let a = both_ok (check_save layout_id store) directory h in
    let b =
      both_ok (validate_loaded_store store)
        (require (is_empty layout_id || bytes_eq store.session_id layout_id)
          (text "session store path does not match session id"))
        a.0 in
    (
      (validate_loaded_store_iff store).0 b.0,
      required (is_empty layout_id || bytes_eq store.session_id layout_id)
          (text "session store path does not match session id") b.1,
    )

-- A save of a session that succeeds, of a store that fits the limits of the file format, where the
-- memories file is neither the metadata file nor its temporary file: a load from the disk that the
-- save leaves gives the store that was saved.
pub save_session-load :
    (layout_id meta_path memories_path : Bytes) (directory : ResultStatus)
    (memories_io meta_io : Io) (files : Files) (store : SessionStore)
    → IsStorable store
    → bytes_eq memories_path meta_path ≡ false
    → bytes_eq memories_path (temp_path meta_path) ≡ false
    → let r =
        save_session layout_id meta_path memories_path directory memories_io meta_io files store in
      r.0 ≡ ok tt
      → load_session layout_id meta_path memories_path (r.1 meta_path) (r.1 memories_path)
        ≡ ok store
unfolding save_session
save_session-load layout_id meta_path memories_path directory memories_io meta_io files store fits
      apart apart_temp h =
    let first =
      replace_file (text "session memories") memories_io files memories_path
        (store_memories_bytes store) in
    let second =
      replace_file (text "session store") meta_io first.1 meta_path (store_metadata_bytes store) in
    let done = sequence_ok (check_save layout_id store >> directory) first second files h in
    let valid = checked layout_id store directory done.0 in
    let there =
      replaced (text "session store") meta_io first.1 meta_path (store_metadata_bytes store)
        done.2 in
    let kept =
      (replace_file_lem (text "session store") meta_io first.1 meta_path
          (store_metadata_bytes store)).1
        memories_path apart apart_temp
      ∙ replaced (text "session memories") memories_io files memories_path
          (store_memories_bytes store) done.1 in
    rw (done.3, there, kept)
      (load_session-store_bytes store layout_id meta_path memories_path fits valid.0 valid.1)
