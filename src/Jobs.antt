-- ===== src/Jobs.antt =====
-- Migration jobs.
pub mod Types
pub mod Actions
pub mod Retries
pub mod Create
pub mod Source
pub mod Listing
pub mod Service
pub mod Settled
pub mod Laws
pub mod Rights
pub mod Isolation
