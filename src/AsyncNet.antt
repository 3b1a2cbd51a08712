-- ===== src/AsyncNet.antt =====
-- 01_AsyncNet_Server: the framed TCP server.
pub mod Logger
pub mod Protocol
pub mod SessionManager
pub mod Session
pub mod Server
pub mod Main
pub mod BenchmarkClient
mod Tests
mod ServerTests
mod ClientTests
mod UnitTests
