-- ===== src/SessionManager/Errors.antt =====
-- The errors that commands make themselves and the classification of their messages alone.
use attemory.Session.{Session}
use attemory.SessionManager.Refinement.Whole.{on_disk}
use attemory.Base.Result.{Result-cases}
use attemory.Command.Inferred.{infer_error_info-session}
use attemory.Persistent.{empty_store, is_valid_session_id}
use attemory.Kv.Manager.{evict_active_for_command, creates, AttemoryCommand}
use attemory.Base.Text.{bytes_eq, text, Bytes}
use attemory.SessionManager.{
  found, on_checked, find_session, refuses, ContextState, passes, Environment, command_scope,
  Checked, require_session, unknown_session,
}
use attemory.Command.{
  token_usage_result, detail, invalid_session_id, session_already_exists, session_not_found,
  make_error_info, success_result, starts_with, error_result, infer_from_words, internal_error,
  make_error, exists_prefix, not_found_prefix, inferred_error, infer_error_info, CommandResult,
}
use attemory.SessionManager.Commands
use attemory.Persistent.Replace
use attemory.Kv.Manager
use attemory.Base.{
  ◌≡◌, refl, ap, ◌⊎◌, inl, inr, Bool, true, ◌||◌, Option, none, some, [], ◌∷◌, ◌++◌, arith,
  Bool-cases, Option-cases,
}

-- A result that is ok, an internal error, or the error that `infer_error_info` makes of its message.
abbrev pub IsInferred : CommandResult → Type 0
IsInferred r =
    (r.is_ok ≡ true)
    ⊎ ((r.error_info.code ≡ internal_error) ⊎ (infer_error_info r.error ≡ r.error_info))

abbrev pub Refusal : {A : Type 0} → (CommandResult → Type 0) → Checked A → Type 0
Refusal P (passes a) = Unit
Refusal P (refuses r) = P r

infer_error_info-message : (message : Bytes) → (infer_error_info message).message ≡ message
unfolding infer_error_info infer_from_words
infer_error_info-message m = ground arith

inferred_error-IsInferred : (message : Bytes) → IsInferred (inferred_error message)
unfolding inferred_error error_result
inferred_error-IsInferred m = inr (inr (ap infer_error_info (infer_error_info-message m)))

-- The literal that stands in the command is the one that the classification looks for.
infer_error_info-unknown :
    (i : Bytes)
    → infer_error_info (text "session not found: " ++ i)
      ≡ make_error_info session_not_found
          (text "session not found: " ++ i)
          (detail (text "session_id") i ∷ [])
unfolding not_found_prefix
infer_error_info-unknown i = (infer_error_info-session i).0

infer_error_info-exists :
    (i : Bytes)
    → infer_error_info (text "session already exists: " ++ i)
      ≡ make_error_info session_already_exists
          (text "session already exists: " ++ i)
          (detail (text "session_id") i ∷ [])
unfolding exists_prefix
infer_error_info-exists i = (infer_error_info-session i).1

unknown_session-IsInferred : (i : Bytes) → IsInferred (unknown_session i)
unfolding unknown_session make_error error_result
unknown_session-IsInferred i = inr (inr (infer_error_info-unknown i))

invalid_id :
    infer_error_info (text "invalid session id")
    ≡ make_error_info invalid_session_id (text "invalid session id") []
unfolding infer_error_info not_found_prefix exists_prefix starts_with text bytes_eq
invalid_id = refl

create_session-IsInferred :
    (env : Environment) (i : Bytes) (kv_persist : Bool) (st : ContextState)
    → IsInferred (Commands.create_session env i kv_persist st).0
unfolding Commands.create_session make_error error_result token_usage_result success_result
create_session-IsInferred env i kv_persist st = elim (Bool-cases (is_valid_session_id i)) [
  | inr e ↦ rw e (inr (inr invalid_id))
  | inl e ↦
      elim (Bool-cases
        (Commands.has_session (find_session st.sessions i) || env.directory_exists)) [
          | inl f ↦ rw (e, f) (inr (inr (infer_error_info-exists i)))
          | inr f ↦
              let saved =
                Replace.save_session_metadata env.layout_id env.meta_path env.directory env.meta_io
                  st.files (record empty_store { session_id = i; kv_persist = kv_persist }) in
              elim (Result-cases saved.0) [
                | inr (m, g) ↦ rw (e, f, g) (inr (inl refl))
                | inl (u, g) ↦ rw (e, f, g) (inl refl)
              ]
        ]
]

restore_session-IsInferred :
    (env : Environment) (i : Bytes) (st : ContextState)
    → IsInferred (Commands.restore_session env i st).0
unfolding Commands.restore_session Commands.restore_from_disk make_error error_result success_result
restore_session-IsInferred env i st = elim (Bool-cases (is_valid_session_id i)) [
  | inr e ↦ rw e (inr (inr invalid_id))
  | inl e ↦ elim (Option-cases (find_session st.sessions i)) [
    | inr (s, f) ↦ rw (e, f) (inl refl)
    | inl f ↦ elim (Bool-cases env.directory_exists) [
      | inr d ↦ rw (e, f, d) (inr (inr (infer_error_info-unknown i)))
      | inl d ↦ elim (Result-cases (on_disk env st)) [
        | inr (m, l) ↦ rw (e, f, d, l) (inr (inl refl))
        | inl (store, l) ↦ rw (e, f, d, l) (inl refl)
      ]
    ]
  ]
]

command_scope-IsInferred :
    (env : Environment) (command : AttemoryCommand) (i : Bytes) (st : ContextState)
    → Refusal IsInferred (command_scope env command i st).0
unfolding command_scope make_error error_result
command_scope-IsInferred env command i st = elim (Bool-cases (is_valid_session_id i)) [
  | inr e ↦ rw e (inr (inr invalid_id))
  | inl e ↦ elim (Bool-cases (creates command)) [
    | inl f ↦ rw (e, f) tt
    | inr f ↦
        let kept =
          Manager.keep_only_session_live env.export (evict_active_for_command st.kv command i) i in
        elim (Result-cases kept.0) [
          | inr (m, g) ↦ rw (e, f, g) (inferred_error-IsInferred m)
          | inl (u, g) ↦ rw (e, f, g) tt
        ]
  ]
]

found-IsInferred :
    (i : Bytes) (st : ContextState) (s : Option Session) → Refusal IsInferred (found st i s).0
found-IsInferred i st none = unknown_session-IsInferred i
found-IsInferred i st (some s) = tt

scope_found-IsInferred :
    (i : Bytes) (st : ContextState) (c : Checked (Unit {0}))
    → Refusal IsInferred c
    → Refusal IsInferred
        (on_checked c (λ r. (refuses r, st)) (λ _. found st i (find_session st.sessions i))).0
scope_found-IsInferred i st (refuses r) h = h
scope_found-IsInferred i st (passes u) h = found-IsInferred i st (find_session st.sessions i)

require_session-IsInferred :
    (env : Environment) (command : AttemoryCommand) (i : Bytes) (st : ContextState)
    → Refusal IsInferred (require_session env command i st).0
unfolding require_session
require_session-IsInferred env command i st =
    let scope = command_scope env command i st in
    scope_found-IsInferred i scope.1 scope.0 (command_scope-IsInferred env command i st)

-- For any outside, session id and state, whatever `create_session` and `restore_session` return, and
-- whatever `require_session` refuses a command with, is ok, is an internal error, or has the code,
-- the message and the details that `infer_error_info` makes of its message alone.
pub commands-IsInferred :
    (env : Environment) (i : Bytes) (kv_persist : Bool) (command : AttemoryCommand)
    → (st : ContextState)
    → IsInferred (Commands.create_session env i kv_persist st).0
      × IsInferred (Commands.restore_session env i st).0
      × Refusal IsInferred (require_session env command i st).0
commands-IsInferred env i kv_persist command st = (
  create_session-IsInferred env i kv_persist st,
  restore_session-IsInferred env i st,
  require_session-IsInferred env command i st,
)
