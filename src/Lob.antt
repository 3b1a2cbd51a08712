-- ===== src/Lob.antt =====
-- 02_LOB_Engine: the limit order book.
pub mod Types
pub mod Pool
pub mod PriceLevel
pub mod Preserves
pub mod OrderBook
pub mod LockFreeQueue
pub mod Exchange
mod Demo
pub mod Benchmark
mod Tests
mod WithdrawnTests
mod QueueTests
mod ReplayTests
mod BenchmarkTests
mod UnitTests
