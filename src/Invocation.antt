-- ===== src/Invocation.antt =====
-- The invocation subsystem: the table that serves as the work queue, the dispatcher that wakes the
-- waiting workers, and the manager's handlers.
pub mod Queue
pub mod Dispatcher
pub mod Codec
pub mod Manager
pub mod Examples
pub mod HandlerExamples
pub mod RaceExamples
