-- ===== src/Netlink.antt =====
-- What the program takes from Linux: the messages of netlink(7) and rtnetlink(7) with the macros
-- that go through them (Headers, Buffer, Messages, Attributes), the system calls (System),
-- runs that end (Finishes), and what a receiver reads in a request (Requests).
pub mod Headers
pub mod Buffer
pub mod Messages
pub mod Attributes
pub mod System
pub mod Finishes
pub mod Requests
