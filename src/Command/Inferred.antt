-- ===== src/Command/Inferred.antt =====
-- The classification of the two messages that name a session.
use attemory.Base.Text.{text, Bytes}
use attemory.Base.{◌≡◌, refl, true, false, [], ◌∷◌, ◌++◌, arith}
use attemory.Command.{
  make_error_info, detail, not_found_prefix, drop, infer_error_info, exists_prefix, after_prefix,
  starts_with, session_not_found, session_already_exists,
}

starts_with-append : (p cs : Bytes) → starts_with (p ++ cs) p ≡ true
unfolding starts_with
starts_with-append [] cs = refl
starts_with-append (c ∷ p) cs = ground (arith, starts_with-append p cs)

after_prefix-append : (p cs : Bytes) → after_prefix (p ++ cs) p ≡ cs
unfolding after_prefix drop
after_prefix-append [] cs = refl
after_prefix-append (c ∷ p) cs = after_prefix-append p cs

not_that_prefix : (cs : Bytes) → starts_with (exists_prefix ++ cs) not_found_prefix ≡ false
unfolding exists_prefix not_found_prefix starts_with text
not_that_prefix cs = refl

-- For any session id, the two prefixes with that id behind them are classified by the prefix, with
-- the id as the detail.
pub infer_error_info-session :
    (session_id : Bytes)
    → let details = detail (text "session_id") session_id ∷ [] in
      (infer_error_info (not_found_prefix ++ session_id)
        ≡ make_error_info session_not_found (not_found_prefix ++ session_id) details)
      × (infer_error_info (exists_prefix ++ session_id)
          ≡ make_error_info session_already_exists (exists_prefix ++ session_id) details)
unfolding infer_error_info
infer_error_info-session i = (
  rw (starts_with-append not_found_prefix i, after_prefix-append not_found_prefix i) refl,
  rw (not_that_prefix i, starts_with-append exists_prefix i, after_prefix-append exists_prefix i)
      refl,
)
