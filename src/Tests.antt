-- ===== src/Tests.antt =====
-- Runs of the model at concrete inputs.
mod Logs
mod Locks
mod Tables
mod Jobs
mod Requests
mod Resources
mod Calls
mod Clients
mod Containers
mod Queries
mod Documents
mod Addresses
mod Filters
