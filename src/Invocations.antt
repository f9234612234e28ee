-- ===== src/Invocations.antt =====
-- invocation/InvocationService.ts: requests, and the responses, acknowledgements of backups, errors
-- and retries that settle them.
pub mod Request
pub mod Routing
pub mod Retrying
pub mod Service
pub mod Acknowledgements
pub mod Retries
pub mod Shutdown
