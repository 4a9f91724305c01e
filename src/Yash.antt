-- ===== src/Yash.antt =====
-- Project 1/yash
pub mod Types
pub mod Parse
pub mod Jobs
pub mod Redirect
pub mod Shell
mod Tests
