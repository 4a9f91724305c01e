-- ===== src/Pintos.antt =====
-- The kernel of Project_3 (Pintos).
pub mod Bitmap
pub mod FreeMap
pub mod Inode
pub mod File
pub mod Lists
pub mod Stdlib
pub mod Strings
pub mod Threads
pub mod Synch
mod Tests
mod FileTests
