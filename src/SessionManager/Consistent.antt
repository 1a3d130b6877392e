-- ===== src/SessionManager/Consistent.antt =====
-- Every command keeps every session valid and under its own id.
use attemory.SessionManager.Refinement.Whole.{run-Refined, on_disk}
use attemory.SessionManager.Steps.{run, Request}
use attemory.SessionManager.Abstract.{session_facts, view, facts_loaded, IsKeyed}
use attemory.Session.{Session}
use attemory.SessionManager.Invariant.{spec-IsOwn, IsValidStore-IsValidFacts, HasRoom, IsOwn}
use attemory.SessionManager.{find_session, ContextState, Environment}
use attemory.Persistent.Validity.{validate_loaded_store_iff, IsValidStore, validate_loaded_store}
use attemory.Persistent.{is_valid_session_id, SessionStore}
use attemory.Base.Text.{bytes_eq_iff, bytes_eq, is_empty, Bytes}
use attemory.Base.{
  ◌≡◌, sym, subst, ◌∙◌, inl, inr, true, false, ◌||◌, Option, some, arith, Bool-cases, Option-cases,
}
use attemory.Base.Result.{Result-cases, ok}
use attemory.Persistent.SessionFile

pub load_session-checked :
    (layout_id meta_path memories_path : Bytes) (meta memories : Option Bytes)
    (store : SessionStore)
    → SessionFile.load_session layout_id meta_path memories_path meta memories ≡ ok store
    → (validate_loaded_store store ≡ ok tt)
      × ((is_empty layout_id || bytes_eq store.session_id layout_id) ≡ true)
unfolding SessionFile.load_session
load_session-checked layout_id meta_path memories_path meta memories store h =
    elim (Result-cases (SessionFile.read_store_metadata meta_path meta)) [
      | inr (e, f) ↦ absurd (ground arith)
      | inl (body, f) ↦
          elim (Result-cases
            (SessionFile.read_store_memories memories_path memories body.1 body.0)) [
              | inr (e, g) ↦ absurd (ground arith)
              | inl (s, g) ↦
                  elim (Bool-cases (is_empty layout_id || bytes_eq s.session_id layout_id)) [
                    | inr k ↦ absurd (ground arith)
                    | inl k ↦ elim (Result-cases (validate_loaded_store s)) [
                      | inr (e, v) ↦ absurd (ground arith)
                      | inl (u, v) ↦
                          let same : s ≡ store = ground arith in
                          subst
                            (λ (x : SessionStore).
                              (validate_loaded_store x ≡ ok tt)
                              × ((is_empty layout_id || bytes_eq x.session_id layout_id) ≡ true))
                            same (v, k)
                    ]
                  ]
            ]
    ]

pub valid-not_empty : (i : Bytes) → is_valid_session_id i ≡ true → is_empty i ≡ false
unfolding is_valid_session_id
valid-not_empty i h = ground arith

loaded-IsOwn :
    (env : Environment) (st : ContextState) (i : Bytes)
    → env.layout_id ≡ i
    → is_valid_session_id i ≡ true
    → IsOwn i (facts_loaded (on_disk env st))
loaded-IsOwn env st i layout valid = elim (Result-cases (on_disk env st)) [
  | inr (e, f) ↦ rw f tt
  | inl (store, f) ↦
      let (checked, named) =
        load_session-checked env.layout_id env.meta_path env.memories_path (st.files env.meta_path)
          (st.files env.memories_path) store f in
      let own : bytes_eq store.session_id i ≡ true =
        rw (layout, valid-not_empty i valid) at named in
      rw f (
        (bytes_eq_iff store.session_id i).0 own,
        (IsValidStore-IsValidFacts store).0 ((validate_loaded_store_iff store).0 checked),
      )
]

-- A session is consistent: its store is valid and has the id under which it stands.
abbrev pub IsConsistent : ContextState → Type 0
IsConsistent st =
    (i : Bytes) (session : Session)
    → find_session st.sessions i ≡ some session
    → (session.store.session_id ≡ i) × IsValidStore session.store

view-IsOwn : (st : ContextState) → IsConsistent st → (i : Bytes) → IsOwn i (view st i)
view-IsOwn st h i = elim (Option-cases (find_session st.sessions i)) [
  | inl e ↦ rw e tt
  | inr (s, e) ↦ rw e ((h i s e).0, (IsValidStore-IsValidFacts s.store).0 (h i s e).1)
]

own-Consistent :
    (st : ContextState) (i : Bytes) (session : Session)
    → find_session st.sessions i ≡ some session
    → IsOwn i (view st i)
    → (session.store.session_id ≡ i) × IsValidStore session.store
own-Consistent st i session f h =
    let own : IsOwn i (some (session_facts session.store)) = rw f at h in
    (own.0, (IsValidStore-IsValidFacts session.store).1 own.1)

pub IsKeyed-IsConsistent : (st : ContextState) → IsConsistent st → IsKeyed st
IsKeyed-IsConsistent st h i f e = (subst (IsOwn i) e (view-IsOwn st h i)).0

-- Every command, whatever it returns, keeps the sessions consistent: each has a store that a load or a
-- save accepts, and the id under which it stands. The command's id is valid and is its own directory
-- name, and its session, if it is there, has an index left to give.
pub run-IsConsistent :
    (env : Environment) (session_id : Bytes) (request : Request) (st : ContextState)
    → is_valid_session_id session_id ≡ true
    → env.layout_id ≡ session_id
    → HasRoom (view st session_id)
    → IsConsistent st
    → IsConsistent (run env session_id request st).1
run-IsConsistent env i request st valid layout room h j session f =
    let st' = (run env i request st).1 in
    let (_, step, others) = run-Refined env i request st (IsKeyed-IsConsistent st h) in
    elim (Bool-cases (bytes_eq i j)) [
      | inr e ↦ h j session (sym (others j e) ∙ f)
      | inl e ↦
          let same : i ≡ j = (bytes_eq_iff i j).0 e in
          let before = view-IsOwn st h i in
          let after : IsOwn i (view st' i) = elim step [
            | inl k ↦ subst (IsOwn i) (sym k) before
            | inr k ↦ subst (IsOwn i) (sym k) (
                spec-IsOwn i (facts_loaded (on_disk env st)) request (view st i) valid
                  (loaded-IsOwn env st i layout valid) room before)
          ] in
          own-Consistent st' j session f (subst (λ (x : Bytes). IsOwn x (view st' x)) same after)
    ]
