-- ===== src/Command.antt =====
-- src/context/command/command_result.cpp: what a command returns, and how an error message alone is
-- classified. The two lists of search results stay empty in the commands that are modelled here.
pub mod Inferred
use attemory.Core.{Core}
use attemory.Kv.Status.{SessionSummary, empty_summary}
use attemory.Base.Int.{pos, negsuc, ℤ}
use attemory.Base.Text.{bytes_eq, text, is_empty, Bytes}
use attemory.Base.{
  ℕ, zero, suc, ◌+◌, ◌-◌, ◌*◌, ◌/◌, ◌%◌, ◌^◌, ◌≤◌, ◌<◌, ◌≡◌, refl, sym, ap, subst, ◌∙◌, ◌≢◌, ◌↔◌,
  ◌⊎◌, inl, inr, Bool, true, false, ◌&&◌, ◌||◌, not, Option, none, some, List, [], ◌∷◌, ◌++◌, map,
  arith, ltb, leb, ◌==◌, if◌then◌else◌, Bool-cases, Option-cases, length, All,
}

pub data ErrorCode : Type 0 where
  bad_request invalid_request invalid_session_id session_not_found session_already_exists not_found
        unsupported_media_type payload_too_large internal_error :
      ErrorCode

pub record ErrorDetail : Type 0 where
  pub key : Bytes
  pub value : Bytes

pub record ErrorInfo : Type 0 where
  pub code : ErrorCode
  pub message : Bytes
  pub details : List ErrorDetail

pub data ResultPayload : Type 0 where
  no_payload token_usage restore_summary save_summary search search_ordered oneshot_search_ordered :
      ResultPayload

pub record TokenUsage : Type 0 where
  pub token_count : ℤ
  pub ctx_length : ℤ
  pub segment_id : ℤ
  pub segment_count : ℕ
  pub memory_index : ℤ
  pub has_memory_id : Bool
  pub memory_id : Bytes

pub record CommandResult : Type 0 where
  pub is_ok : Bool
  pub error : Bytes
  pub error_info : ErrorInfo
  pub payload : ResultPayload
  pub usage : TokenUsage
  pub restored : Bool
  pub summary : SessionSummary

abbrev pub empty_error_info : ErrorInfo
empty_error_info = record { code = bad_request; message = []; details = [] }

abbrev pub empty_usage : TokenUsage
empty_usage = record {
  token_count = negsuc 0;
  ctx_length = pos 0;
  segment_id = negsuc 0;
  segment_count = 0;
  memory_index = negsuc 0;
  has_memory_id = false;
  memory_id = [];
}

-- `CommandResult result;`
abbrev pub empty_result : CommandResult
empty_result = record {
  is_ok = false;
  error = [];
  error_info = empty_error_info;
  payload = no_payload;
  usage = empty_usage;
  restored = false;
  summary = empty_summary;
}

-- `text.rfind(prefix, 0) == 0`
unfoldable pub starts_with : Bytes → Bytes → Bool
starts_with cs [] = true
starts_with [] (p ∷ ps) = false
starts_with (c ∷ cs) (p ∷ ps) = if c == p then starts_with cs ps else false

-- `text.substr(n)` for an `n` within the text.
unfoldable pub drop : ℕ → Bytes → Bytes
drop zero cs = cs
drop (suc n) [] = []
drop (suc n) (c ∷ cs) = drop n cs

unfoldable pub after_prefix : Bytes → Bytes → Bytes
unfolding drop
after_prefix cs prefix = drop (length prefix) cs

-- `text.find(part)`: what stands before the first occurrence, and what stands behind it.
unfoldable pub split_at : Bytes → Bytes → Option (Bytes × Bytes)
unfolding starts_with after_prefix
split_at [] part = if is_empty part then some ([], []) else none
split_at (c ∷ cs) part =
    let rest = split_at cs part in
    if starts_with (c ∷ cs) part
    then some ([], after_prefix (c ∷ cs) part)
    else elim rest [ none ↦ none | some (before, behind) ↦ some (c ∷ before, behind) ]

abbrev pub contains : Bytes → Bytes → Bool
contains cs part = elim (split_at cs part) [ none ↦ false | some r ↦ true ]

abbrev pub make_error_info : ErrorCode → Bytes → List ErrorDetail → ErrorInfo
make_error_info code message details = record { code = code; message = message; details = details }

abbrev pub detail : Bytes → Bytes → ErrorDetail
detail key value = record { key = key; value = value }

-- The function's own copies of the two messages.
unfoldable pub not_found_prefix : Bytes
not_found_prefix = text "session not found: "

unfoldable pub exists_prefix : Bytes
exists_prefix = text "session already exists: "

-- The end of the function: what is left is told by the words in it.
unfoldable pub infer_from_words : Bytes → ErrorInfo
unfolding split_at
infer_from_words message = elim (split_at message (text " contains unknown field: ")) [
  | some (location, field) ↦
      make_error_info invalid_request message
        (detail (text "location") location ∷ detail (text "field") field ∷ [])
  | none ↦
      if contains message (text "must be")
        || contains message (text "requires")
        || contains message (text "exceeds maximum length")
        || contains message (text "invalid")
      then make_error_info invalid_request message []
      else make_error_info bad_request message []
]

unfoldable pub infer_error_info : Bytes → ErrorInfo
unfolding starts_with after_prefix infer_from_words not_found_prefix exists_prefix
infer_error_info message =
    if starts_with message not_found_prefix
    then make_error_info session_not_found message
        (detail (text "session_id") (after_prefix message not_found_prefix) ∷ [])
    else if starts_with message exists_prefix
    then make_error_info session_already_exists message
        (detail (text "session_id") (after_prefix message exists_prefix) ∷ [])
    else if bytes_eq message (text "invalid session id")
    then make_error_info invalid_session_id message []
    else if bytes_eq message (text "not found")
    then make_error_info not_found message []
    else if bytes_eq message (text "payload too large")
    then make_error_info payload_too_large message []
    else if bytes_eq message (text "Content-Type must be application/json")
    then make_error_info unsupported_media_type message []
    else infer_from_words message

unfoldable pub command_error_info : CommandResult → ErrorInfo
command_error_info result =
    if is_empty result.error_info.message then infer_error_info result.error else result.error_info

-- `make_error(error_info)`, `make_error(code, error, details)` and `make_error(error)`.
unfoldable pub error_result : ErrorInfo → CommandResult
error_result info = record empty_result { error = info.message; error_info = info }

unfoldable pub make_error : ErrorCode → Bytes → List ErrorDetail → CommandResult
unfolding error_result
make_error code error details = error_result (make_error_info code error details)

unfoldable pub inferred_error : Bytes → CommandResult
unfolding error_result
inferred_error error = error_result (infer_error_info error)

unfoldable pub success_result : ResultPayload → CommandResult
success_result payload = record empty_result { is_ok = true; payload = payload }

unfoldable pub token_usage_result : Core → ℕ → ℤ → ℤ → ℤ → CommandResult
unfolding success_result
token_usage_result core segment_count token_count segment_id memory_index =
    record (success_result token_usage) {
      usage = record empty_usage {
        token_count = token_count;
        ctx_length = core.context_length;
        segment_id = segment_id;
        segment_count = segment_count;
        memory_index = memory_index;
      };
    }
