-- ===== src/Tests.antt =====
-- The theorems at concrete inputs.
mod Fixtures
mod Vm
mod Utils
mod Value
mod Options
mod Compiler
mod Parser
mod Start
mod Session
mod Files
mod Methods
mod Classes
