-- ===== src/Tests.antt =====
-- Runs of the definitions on small inputs.
mod Fixtures
mod PlannerTests
mod SearchTests
mod ResidentTests
mod PersistentTests
mod AppendTests
mod ManagerTests
mod KvTests
mod ArgsTests
