-- ===== src/Client.antt =====
-- base/client: the clients of other services.
pub mod Auth
pub mod Http
pub mod Manager
pub mod Requests
pub mod Services
