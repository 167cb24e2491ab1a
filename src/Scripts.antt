-- ===== src/Scripts.antt =====
-- The scripts around the program.
pub mod Aks
pub mod Json
pub mod Answers
pub mod Render
pub mod Secrets
pub mod Smoke
