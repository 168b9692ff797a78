-- ===== src/Trials/NetLib.antt =====
-- test_cpp/src/NetLib.c: Net_1, which prints the addresses of the kernel's table (Dump), and
-- Net_2, which adds an address (Add, Session), with what they do (Ends, Says).
pub mod Dump
pub mod Ends
pub mod Add
pub mod Session
pub mod Says
