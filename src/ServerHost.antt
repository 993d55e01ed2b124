-- ===== src/ServerHost.antt =====
-- The host's main program (ServerHost/main.cpp): its options, the folders of servers, and what it
-- reads from each server's main and configuration file.
pub mod Options
pub mod Elements
pub mod Configuration
pub mod Entries
pub mod Reading
pub mod Port
pub mod Servers
pub mod Running
