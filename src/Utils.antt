-- ===== src/Utils.antt =====
-- app/utils.py, by topic.
pub mod Download
pub mod Env
pub mod Names
pub mod Size
pub mod Mac
pub mod Tests
