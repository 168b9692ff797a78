-- ===== src/Library/Link.antt =====
-- libnettool/src/ip_link.c: requests about devices (Requests), what a receiver reads in them
-- (Sent), the search through the replies (Receive, Search, Found, Dump), and the functions of the library
-- (Sessions) with what their runs do (Outcome, Notify).
pub mod Requests
pub mod Sent
pub mod Receive
pub mod Search
pub mod Found
pub mod Dump
pub mod Sessions
pub mod Outcome
pub mod Notify
