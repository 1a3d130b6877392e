-- ===== src/SessionManager/Steps.antt =====
-- The commands of src/context/session/session_manager.cpp as the requests of one client.
use attemory.Session.{MemoryInput}
use attemory.Command.{CommandResult}
use attemory.SessionManager.{ContextState, Environment}
use attemory.Base.Text.{Bytes}
use attemory.Base.{Bool}
use attemory.SessionManager.Commands

pub data Request : Type 0 where
  creating : Bool → Request
  restoring : Request
  setting_system : Bytes → Request
  adding_memory : MemoryInput → Request
  sealing clearing deleting : Request

-- The method that a request calls.
unfoldable pub run : Environment → Bytes → Request → ContextState → CommandResult × ContextState
run env session_id (creating kv_persist) st = Commands.create_session env session_id kv_persist st
run env session_id restoring st = Commands.restore_session env session_id st
run env session_id (setting_system system) st = Commands.add_system env session_id system st
run env session_id (adding_memory memory) st = Commands.add_memory env session_id memory st
run env session_id sealing st = Commands.next_segment env session_id st
run env session_id clearing st = Commands.clear_session env session_id st
run env session_id deleting st = Commands.delete_session env session_id st
