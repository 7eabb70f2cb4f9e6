-- ===== src/Tests.antt =====
-- Tests on concrete inputs.
pub mod Fixtures
pub mod Workflow
pub mod Resumes
pub mod Core
pub mod Import
pub mod Service
pub mod Outside
pub mod Postgres
