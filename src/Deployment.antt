-- ===== src/Deployment.antt =====
-- Deployments: the tables and their statements, the handlers of the administrators, and the job
-- that a publication starts.
pub mod Store
pub mod Manage
pub mod Job
pub mod System
pub mod Examples
