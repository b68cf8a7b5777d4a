-- ===== src/Worker.antt =====
-- base/worker: the worker that takes requests, and the operation that processes job assignments.
pub mod Dispatch
pub mod Jobs
