-- ===== src/Persistent/Paths.antt =====
-- Names on disk: `sanitize_storage_component` of src/persistent/storage_paths.cpp and
-- `safe_storage_component` of src/context/storage/storage_layout.cpp.
use attemory.Persistent.{is_alnum, id_chars, id_char, is_valid_session_id}
use attemory.Base.Text.{is_empty-nil, text, bytes_eq, is_empty, Bytes}
use attemory.Base.{
  ℕ, ◌≡◌, refl, ◌⊎◌, inl, inr, Bool, true, false, ◌&&◌, ◌||◌, not, [], ◌∷◌, arith, ◌==◌,
  if◌then◌else◌, Bool-cases,
}

-- The loop; `started` says that the result is not empty, `sep` is `last_was_sep`.
unfoldable pub clean : Bool → Bool → Bytes → Bytes
clean started sep [] = []
clean started sep (c ∷ cs) =
    let keep = id_char c in
    let put = started && not sep in
    let rest = clean (started || keep) (if keep then false else put || sep) cs in
    if keep then c ∷ rest else if put then b'_' ∷ rest else rest

unfoldable pub drop_front : Bytes → Bytes
drop_front [] = []
drop_front (c ∷ cs) = if c == b'_' then drop_front cs else c ∷ cs

unfoldable pub drop_back : Bytes → Bytes
drop_back [] = []
drop_back (c ∷ cs) = let rest = drop_back cs in if is_empty rest && c == b'_' then [] else c ∷ rest

unfoldable pub sanitize_storage_component : Bytes → Bytes
unfolding clean drop_front drop_back
sanitize_storage_component value =
    let result = drop_back (drop_front (clean false false value)) in
    if bytes_eq result (text ".") || bytes_eq result (text "..") then [] else result

unfoldable pub safe_storage_component : Bytes → Bytes → Bytes
unfolding sanitize_storage_component
safe_storage_component value fallback =
    let sanitized = sanitize_storage_component value in
    if is_empty sanitized then fallback else sanitized

-- `layout.session_id` of `session_storage_layout` and of `cache_layout_for_session`.
unfoldable pub layout_session_id : Bytes → Bytes
unfolding safe_storage_component
layout_session_id session_id =
    if is_empty session_id then [] else safe_storage_component session_id (text "session")

clean-id_chars : (started sep : Bool) (cs : Bytes) → id_chars (clean started sep cs) ≡ true
unfolding clean id_chars id_char is_alnum
clean-id_chars started sep [] = refl
clean-id_chars started sep (c ∷ cs) = ground (
  arith,
  clean-id_chars (started || id_char c) (if id_char c then false else (started && not sep) || sep)
      cs,
)

drop_front-id_chars : (cs : Bytes) → id_chars cs ≡ true → id_chars (drop_front cs) ≡ true
unfolding drop_front id_chars
drop_front-id_chars [] h = refl
drop_front-id_chars (c ∷ cs) h = ground (arith, drop_front-id_chars cs)

drop_back-id_chars : (cs : Bytes) → id_chars cs ≡ true → id_chars (drop_back cs) ≡ true
unfolding drop_back id_chars
drop_back-id_chars [] h = refl
drop_back-id_chars (c ∷ cs) h = ground (arith, drop_back-id_chars cs)

text_chars : is_valid_session_id (text "session") ≡ true
unfolding is_valid_session_id text bytes_eq is_empty id_chars id_char is_alnum
text_chars = refl

sanitize_storage_component_cases :
    (value : Bytes)
    → (sanitize_storage_component value ≡ [])
      ⊎ (is_valid_session_id (sanitize_storage_component value) ≡ true)
unfolding sanitize_storage_component is_valid_session_id
sanitize_storage_component_cases value =
    let name = drop_front (clean false false value) in
    let chars =
      drop_back-id_chars name
        (drop_front-id_chars (clean false false value) (clean-id_chars false false value)) in
    elim (Bool-cases
      (bytes_eq (drop_back name) (text ".") || bytes_eq (drop_back name) (text ".."))) [
        | inl e ↦ inl (rw e refl)
        | inr e ↦ elim (Bool-cases (is_empty (drop_back name))) [
          | inl n ↦ inl (rw e (is_empty-nil (drop_back name) n))
          | inr n ↦ inr (rw (e, e, n, chars) refl)
        ]
      ]

nothing : is_empty {A = ℕ} [] ≡ true
unfolding is_empty
nothing = refl

something : (c : ℕ) (cs : Bytes) → is_empty (c ∷ cs) ≡ false
unfolding is_empty
something c cs = refl

-- A session with an id that is not empty gets a valid session id as its name on disk, whatever the
-- id is: letters, digits, dots, underscores and dashes, and neither "." nor "..".
pub layout_session_id-is_valid :
    (session_id : Bytes)
    → is_empty session_id ≡ false
    → is_valid_session_id (layout_session_id session_id) ≡ true
unfolding layout_session_id safe_storage_component
layout_session_id-is_valid session_id h = elim (sanitize_storage_component_cases session_id) [
  | inl e ↦ rw (h, e, nothing) text_chars
  | inr v ↦ elim (Bool-cases (is_empty (sanitize_storage_component session_id))) [
    | inl n ↦ rw (h, n) text_chars
    | inr n ↦ rw (h, n) v
  ]
]

clean-same : (started : Bool) (cs : Bytes) → id_chars cs ≡ true → clean started false cs ≡ cs
unfolding clean id_chars
clean-same started [] h = refl
clean-same started (c ∷ cs) h = ground (arith, clean-same true cs, clean-same started cs)

sanitize-underscore :
    (cs : Bytes)
    → id_chars cs ≡ true
    → sanitize_storage_component (b'_' ∷ cs) ≡ sanitize_storage_component cs
unfolding sanitize_storage_component id_char is_alnum
sanitize-underscore cs h = rw (clean-same true cs h, clean-same false cs h) refl

-- A valid session id and the one with an underscore in front of it have the same name on disk.
pub layout_session_id_collides :
    (cs : Bytes)
    → is_valid_session_id cs ≡ true
    → layout_session_id (b'_' ∷ cs) ≡ layout_session_id cs
unfolding layout_session_id safe_storage_component is_valid_session_id
layout_session_id_collides cs h =
    let chars : id_chars cs ≡ true = ground arith in
    let some_there : is_empty cs ≡ false = ground arith in
    rw (something b'_' cs, some_there, sanitize-underscore cs chars) refl
