-- ===== src/Library/Address.antt =====
-- libnettool/src/ip_add.c, ip_del.c and ip_show.c: requests about addresses (Requests), what a
-- receiver reads in them (Sent), and the exchanges with the kernel (Sessions, Outcome).
pub mod Requests
pub mod Sent
pub mod Sessions
pub mod Outcome
