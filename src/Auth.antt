-- ===== src/Auth.antt =====
-- Who may call an operation: the API tokens, the bearer check and the permissions.
pub mod Token
pub mod Permissions
pub mod Soundness
pub mod Examples
