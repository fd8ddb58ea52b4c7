-- ===== src/Examples.antt =====
-- Concrete inputs for the theorems: one store, one job, one transaction.
pub mod Data
mod Core
mod Disk
mod Http
mod Bridge
mod Ollama
