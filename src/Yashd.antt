-- ===== src/Yashd.antt =====
-- The shell daemon of Project 2/yashd: the server's session thread, its job table and the client
-- protocol.
pub mod Types
pub mod Output
pub mod Input
pub mod Parse
pub mod Jobs
pub mod Client
pub mod Dispatch
pub mod Foreground
pub mod Exec
pub mod Session
mod Tests
