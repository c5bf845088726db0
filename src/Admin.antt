-- ===== src/Admin.antt =====
-- The administration of actors, API tokens and configurations.
pub mod Registry
pub mod Actors
pub mod Tokens
pub mod Operations
pub mod Kube
pub mod Listing
pub mod Examples
