-- ===== src/HttpApi.antt =====
-- internal/adapters/httpapi: the local HTTP protocol.
pub mod Ids
pub mod Faults
pub mod Client
pub mod Events
pub mod Service
pub mod Routes
pub mod Server
