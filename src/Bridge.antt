-- ===== src/Bridge.antt =====
-- internal/adapters/mcpbridge: the stdio bridge, a client of the running service.
pub mod Output
pub mod Envelope
pub mod Framer
pub mod Input
pub mod Calls
pub mod Create
pub mod Reading
pub mod Waiting
pub mod Listing
pub mod Slots
