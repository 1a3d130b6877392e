-- ===== src/SessionManager/Map.antt =====
-- The map of sessions as an association list.
use attemory.Session.{Session}
use attemory.SessionManager.{find_session, erase_session, put_session}
use attemory.Base.Text.{bytes_eq_iff, bytes_eq_self, bytes_eq, Bytes}
use attemory.Base.{◌≡◌, refl, ap, inl, inr, false, none, some, List, [], ◌∷◌, arith, Bool-cases}

module _ (i : Bytes) where
  pub find_session-put_session :
      (ss : List (Bytes × Session)) (s : Session) → find_session (put_session ss i s) i ≡ some s
  unfolding find_session put_session
  find_session-put_session [] s = rw (bytes_eq_self i) refl
  find_session-put_session ((k, old) ∷ ss) s = elim (Bool-cases (bytes_eq k i)) [
    | inl e ↦ rw (e, e) refl
    | inr e ↦ rw (e, e) (find_session-put_session ss s)
  ]

  pub find_session-erase_session :
      (ss : List (Bytes × Session)) → find_session (erase_session ss i) i ≡ none
  unfolding find_session erase_session
  find_session-erase_session [] = refl
  find_session-erase_session ((k, old) ∷ ss) = elim (Bool-cases (bytes_eq k i)) [
    | inl e ↦ rw e (find_session-erase_session ss)
    | inr e ↦ rw (e, e) (find_session-erase_session ss)
  ]

  module _ (j : Bytes) (other : bytes_eq i j ≡ false) where
    pub find_session-put_session_ne :
        (ss : List (Bytes × Session)) (s : Session)
        → find_session (put_session ss i s) j ≡ find_session ss j
    unfolding find_session put_session
    find_session-put_session_ne [] s = rw other refl
    find_session-put_session_ne ((k, old) ∷ ss) s = elim (Bool-cases (bytes_eq k i)) [
      | inl e ↦ let same : k ≡ i = (bytes_eq_iff k i).0 e in rw (e, same, other) refl
      | inr e ↦ rw (e) (ground (arith, find_session-put_session_ne ss s))
    ]

    pub find_session-erase_session_ne :
        (ss : List (Bytes × Session)) → find_session (erase_session ss i) j ≡ find_session ss j
    unfolding find_session erase_session
    find_session-erase_session_ne [] = refl
    find_session-erase_session_ne ((k, old) ∷ ss) = elim (Bool-cases (bytes_eq k i)) [
      | inl e ↦
          let same : k ≡ i = (bytes_eq_iff k i).0 e in
          rw (e, same, other) (find_session-erase_session_ne ss)
      | inr e ↦ rw (e) (ground (arith, find_session-erase_session_ne ss))
    ]

-- The last write stands.
pub put_session-put_session :
    (ss : List (Bytes × Session)) (i : Bytes) (a b : Session)
    → put_session (put_session ss i a) i b ≡ put_session ss i b
unfolding put_session
put_session-put_session [] i a b = rw (bytes_eq_self i) refl
put_session-put_session ((k, old) ∷ ss) i a b = elim (Bool-cases (bytes_eq k i)) [
  | inl e ↦ rw (e, e) refl
  | inr e ↦ rw (e, e) (ap (λ rest. (k, old) ∷ rest) (put_session-put_session ss i a b))
]
