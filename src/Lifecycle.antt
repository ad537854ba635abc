-- ===== src/Lifecycle.antt =====
-- src/naiw_tasks/naiw_tasks/lifecycle.py
pub mod Teardown
pub mod Start
pub mod Finish
pub mod Recover
