-- ===== src/Core.antt =====
-- The inference core (the submodule attemory-core), which this repository only calls. What its
-- estimators answer is a parameter: one answer for one argument, and no effect on a failure.
use attemory.Base.{List}
use attemory.Base.Int.{ℤ}
use attemory.Base.Text.{Bytes}
use attemory.Base.Result.{Result}

-- The core and the runtime options of one process, as the planner asks them.
pub record Core : Type 0 where
  -- `effective_context_length(core, runtime)`
  pub context_length : ℤ
  -- `estimate_text_token_count_fast(core, text, false, token_count, error)`
  pub text_tokens : Bytes → Result ℤ
  -- `estimate_memory_kv_token_count(core, runtime, system, memories, token_count, error)`
  pub kv_tokens : Bytes → List Bytes → Result ℤ
