-- ===== src/SessionManager/Alias.antt =====
-- A restored session is filed under the id of the command, and keeps the id of its directory.
use attemory.SessionManager.Consistent.{valid-not_empty, load_session-checked}
use attemory.SessionManager.Map.{find_session-put_session}
use attemory.Persistent.Paths.{
  layout_session_id_collides, layout_session_id-is_valid, layout_session_id,
}
use attemory.SessionManager.Refinement.Whole.{on_disk}
use attemory.Base.Result.{Result-cases, on_result}
use attemory.Persistent.{is_valid_session_id}
use attemory.Session.{new_session, Session}
use attemory.Base.Text.{bytes_eq_iff, is_empty, Bytes}
use attemory.SessionManager.Steps.{restoring, run}
use attemory.Command.{error_result, success_result}
use attemory.SessionManager.{find_session, ContextState, Environment}
use attemory.SessionManager.Commands
use attemory.Base.{
  ◌≡◌, refl, sym, ap, subst, ◌∙◌, inl, inr, true, false, not, Option, none, some, ◌∷◌, arith,
  if◌then◌else◌, Bool-cases,
}

-- The session that the files of the command's directory hold.
loaded : Environment → ContextState → Option Session
loaded env st =
    if not env.directory_exists
    then none
    else on_result (on_disk env st) (λ e. none)
        (λ store. some (record new_session { store = store }))

-- Restoring a session that is not in memory finds what the files hold, and succeeds when they hold
-- something.
restore_session-loaded :
    (env : Environment) (i : Bytes) (st : ContextState)
    → is_valid_session_id i ≡ true
    → find_session st.sessions i ≡ none
    → let r = Commands.restore_session env i st in
      (r.0.is_ok ≡ Commands.has_session (loaded env st))
      × (find_session r.1.sessions i ≡ loaded env st)
unfolding Commands.restore_session Commands.restore_from_disk loaded success_result error_result
restore_session-loaded env i st valid absent = elim (Bool-cases env.directory_exists) [
  | inr e ↦ rw (valid, absent, e) (refl, absent)
  | inl e ↦ elim (Result-cases (on_disk env st)) [
    | inr (m, f) ↦ rw (valid, absent, e, f) (refl, absent)
    | inl (store, f) ↦
        rw (valid, absent, e, f)
          (refl, find_session-put_session i st.sessions (record new_session { store = store }))
  ]
]

loaded-id :
    (env : Environment) (st : ContextState) (s : Session)
    → is_empty env.layout_id ≡ false
    → loaded env st ≡ some s
    → s.store.session_id ≡ env.layout_id
unfolding loaded
loaded-id env st s there h = elim (Bool-cases env.directory_exists) [
  | inr e ↦ absurd (ground arith)
  | inl e ↦ elim (Result-cases (on_disk env st)) [
    | inr (m, f) ↦ absurd (ground arith)
    | inl (store, f) ↦
        let (_, named) =
          load_session-checked env.layout_id env.meta_path env.memories_path
            (st.files env.meta_path) (st.files env.memories_path) store f in
        let same : record new_session { store = store } ≡ s = ground arith in
        subst (λ (x : Session). x.store.session_id ≡ env.layout_id) same
          ((bytes_eq_iff store.session_id env.layout_id).0 (rw there at named))
  ]
]

-- What stands outside is given by the name of a session's directory, and says this name as the id
-- of its layout. For any such outside and any state in which neither a valid id nor the valid id
-- with an underscore in front of it is in memory, restoring either succeeds when restoring the
-- other does, and files the same session, if any; the session filed under the id with the
-- underscore has the name of the directory as its own id.
pub restore_session-aliases :
    (outside : Bytes → Environment) (st : ContextState) (cs : Bytes)
    → ((name : Bytes) → (outside name).layout_id ≡ name)
    → is_valid_session_id cs ≡ true
    → is_valid_session_id (b'_' ∷ cs) ≡ true
    → find_session st.sessions cs ≡ none
    → find_session st.sessions (b'_' ∷ cs) ≡ none
    → let plain = run (outside (layout_session_id cs)) cs restoring st in
      let underscored = run (outside (layout_session_id (b'_' ∷ cs))) (b'_' ∷ cs) restoring st in
      (underscored.0.is_ok ≡ plain.0.is_ok)
      × (find_session underscored.1.sessions (b'_' ∷ cs) ≡ find_session plain.1.sessions cs)
      × ((s : Session)
          → find_session underscored.1.sessions (b'_' ∷ cs) ≡ some s
          → s.store.session_id ≡ layout_session_id cs)
unfolding run
restore_session-aliases outside st cs named valid valid' absent absent' =
    let name = layout_session_id cs in
    let env = outside name in
    let (done, filed) = restore_session-loaded env cs st valid absent in
    let (done', filed') = restore_session-loaded env (b'_' ∷ cs) st valid' absent' in
    let there : is_empty env.layout_id ≡ false =
      ap is_empty (named name)
      ∙ valid-not_empty name (layout_session_id-is_valid cs (valid-not_empty cs valid)) in
    rw (layout_session_id_collides cs valid) (
      done' ∙ sym done,
      filed' ∙ sym filed,
      λ s h. loaded-id env st s there (sym filed' ∙ h) ∙ named name,
    )
