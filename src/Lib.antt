-- ===== src/Lib.antt =====
-- Attemory keeps the memories of a session in segments, each with a KV cache that the model core
-- builds, and answers a search by ranking the memories of every segment. This library models the
-- parts of src/context, src/persistent and src/server that decide what a plan of segments is, which KV
-- states stay in memory, what a search returns, what the files on disk hold, and which numbers the
-- command line takes.
--
-- Parts and files. Base has the shared Boolean tests, lists, integers, bytes, results and words.
-- Core is the parameter that stands for the submodule attemory-core: the context length and the two
-- token estimators. Persistent has the records of src/persistent/persistent.h and the look-ups on
-- them; below it, Validity is `validate_loaded_store`, Binary is src/persistent/binary_io.cpp,
-- Records and SessionFile are the formats of session_persistence.cpp and kv_cache_persistence.cpp
-- with their loads, Paths is the sanitising of names in storage_paths.cpp and of
-- src/context/storage/storage_layout.cpp, and Replace is how the two persistence files replace a file,
-- with the saves on top.
-- Session has the records of src/context/session/session_state.h. Planner is segment_planner.cpp
-- next to it: `rebuild_segment_plan_fast` stands in Planner itself, the plan from a cache manifest in
-- Planner/Restore, `initialize_session_plan` and `prepare_session_plan` in Planner/Prepare. Kv has
-- src/context/kv: ContentHash and Metadata for segment_kv_metadata.cpp, Handle and Resident for
-- resident_kv_store.cpp, whose release of live contexts is in Resident/Live; Manager is
-- segment_kv_manager.cpp but for the preparation and the activation of a segment, and Status its
-- `status` with session_summary.cpp and session_status.cpp of src/context/session. SessionAppend is
-- `append_memory_and_update_plan` of session_manager.cpp. Command is
-- src/context/command/command_result.cpp. SessionManager is the state of session_manager.cpp with the
-- scopes of src/context/command/command_scope.cpp; its commands stand in SessionManager/Commands, the
-- request that calls each in SessionManager/Steps, and what a client may know of a session in
-- SessionManager/Abstract. Search has
-- src/context/search: search_results.cpp, the loop of `run_ephemeral` in search_runner.cpp, and
-- the limits and the one-shot session of search_service.cpp. ServerArgs has the
-- numbers of the command line of src/server/server_args.cpp. Tests runs the definitions on small
-- inputs.
--
-- How the parts interact. A command opens a scope, which frees the active segment and the live states
-- of other sessions, finds the session and prepares its plan; it then changes the session, its place
-- in the KV manager and its files, and puts the session back. `initialize_session_plan` drops a plan
-- of another model, takes a plan from the cache manifest or else rebuilds one, and refreshes the KV
-- metadata; a search walks the plan's segments, merges what the core ranks and looks the memories up in the session's store; the content
-- hash ties a manifest's segment to the texts that it was built from.
--
-- Conventions. A C++ function that returns a Boolean and sets an error string, or a ResultStatus, is
-- a Result. State that a function changes is passed in and given back. A size_t and a uint64_t are
-- natural numbers; sums that the source forms in a uint64_t are taken modulo 2^64. An int32_t or
-- int64_t is an integer, wrapped where the source's arithmetic can leave the type. A string is its
-- bytes. A shared_ptr is an address on a heap. A hash map is a list in any order; a session without resident states has
-- no place in it, so that the empty inner map is forgotten which the source leaves when the bytes of a
-- session's first state overflow the counter.
--
-- Fuel. Eviction runs on fuel, one unit for each slot, which is enough since a round takes a slot
-- away; the digits of a number run on as much fuel as the number, and the loop of `parse_v` on one unit
-- more than the bytes of its argument, each round of which moves the cursor. Every other loop recurses on the
-- list it walks, or on the length of the range it counts.
--
-- Not modelled: the core's model, tokenizer and KV contents, which are not in the repository; log
-- lines and times; the start and the end of the session manager and its list of sessions; the
-- preparation and the activation of a segment in the KV manager and the commands that index and save
-- its caches; the cached search; the server, the
-- parsing of requests and the flags of the command line; the joining of
-- paths and the removal of directories.
pub mod Base
pub mod Core
pub mod Command
pub mod SessionManager
pub mod Kv
pub mod Persistent
pub mod Planner
pub mod Search
pub mod ServerArgs
pub mod SessionAppend
pub mod Session
mod Tests
