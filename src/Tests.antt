-- ===== src/Tests.antt =====
-- The code run on small inputs, and each theorem applied to one.
pub mod Platform
pub mod Storage
pub mod System
pub mod Pages
pub mod Tables
pub mod Containers
pub mod Emitters
pub mod Files
pub mod Locks
pub mod Links
pub mod Generator
pub mod Templates
