-- ===== src/SessionManager/Quiet.antt =====
-- What is live when the scope of a command is open.
use attemory.Base.Result.{Result-cases}
use attemory.Persistent.{is_valid_session_id}
use attemory.SessionManager.{passes, ContextState, Environment, command_scope}
use attemory.Kv.Manager.{
  creates, AttemoryCommand, clear_active, ContextKvState, evict_active_for_command, ActiveSegmentKv,
}
use attemory.Base.Text.{bytes_eq, is_empty, Bytes}
use attemory.Kv.Handle.{Heap}
use attemory.Base.{
  ℕ, ◌≡◌, refl, ◌⊎◌, inl, inr, true, false, none, arith, Bool-cases, Option-cases, All,
}
use attemory.Kv.Manager
use attemory.Kv.Resident.Released.{keep_only_session_live_lem}
use attemory.Kv.Resident.Live

abbrev IsIdle : Heap → ℕ → Type 0
IsIdle heap a = (heap a).has_live_context ≡ false

-- Another session has nothing live but staged prefixes, and is not active.
abbrev pub IsOnlyLive : Bytes → ContextKvState → Type 0
IsOnlyLive i kv =
    All (λ s. (bytes_eq s.session_id i ≡ true) ⊎ IsIdle kv.heap s.entry.handle)
      kv.resident.resident_segments
    × ((kv.active_segment.handle ≡ none)
        ⊎ (is_empty kv.active_segment.session_id ≡ true)
        ⊎ (bytes_eq kv.active_segment.session_id i ≡ true))

abbrev IsElsewhere : ActiveSegmentKv → Bytes → Type 0
IsElsewhere active i =
    (active.handle ≡ none)
    ⊎ (is_empty active.session_id ≡ true)
    ⊎ (bytes_eq active.session_id i ≡ true)

evict_active-other :
    (kv : ContextKvState) (command : AttemoryCommand) (i : Bytes)
    → creates command ≡ false
    → IsElsewhere (evict_active_for_command kv command i).active_segment i
unfolding evict_active_for_command clear_active
evict_active-other kv command i c = elim (Option-cases kv.active_segment.handle) [
  | inl e ↦ rw (c, e) (inl refl)
  | inr (a, e) ↦ elim (Bool-cases (is_empty kv.active_segment.session_id)) [
    | inl k ↦ rw (c, e, k) (inr (inl k))
    | inr k ↦ elim (Bool-cases (bytes_eq kv.active_segment.session_id i)) [
      | inl o ↦ rw (c, e, k, o) (inr (inr o))
      | inr o ↦ rw (c, e, k, o) (inl refl)
    ]
  ]
]

-- When the scope of any command but the creation of a session opens, no resident segment of another
-- session has a live context, and a segment that is active belongs to the command's session or to
-- none.
pub command_scope-IsOnlyLive :
    (env : Environment) (command : AttemoryCommand) (session_id : Bytes) (st : ContextState)
    → creates command ≡ false
    → let s = command_scope env command session_id st in
      s.0 ≡ passes tt → IsOnlyLive session_id s.1.kv
unfolding command_scope Manager.keep_only_session_live
command_scope-IsOnlyLive env command i st c h =
    let kv = evict_active_for_command st.kv command i in
    let r = Live.keep_only_session_live env.export kv.heap kv.resident i in
    elim (Bool-cases (is_valid_session_id i)) [
      | inr e ↦ absurd (ground arith)
      | inl e ↦ elim (Result-cases r.0) [
        | inr (x, f) ↦ absurd (ground arith)
        | inl (u, f) ↦
            rw (e, c, f)
              (
                keep_only_session_live_lem env.export kv.heap kv.resident i f,
                evict_active-other st.kv command i c,
              )
      ]
    ]
