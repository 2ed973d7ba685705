-- ===== src/Executor.antt =====
-- internal/adapters/executor: the dispatcher and the handlers of the three job types.
pub mod Payload
pub mod Dispatcher
pub mod SendEmail
pub mod ReportGeneration
pub mod DataCleanup
pub mod Simulated
pub mod Routing
pub mod Limits
