-- ===== src/Library/Route.antt =====
-- libnettool/src/gateway_add.c, gateway_del.c and gateway_show.c: requests about routes (Requests),
-- what a receiver reads in them (Sent), and the exchanges with the kernel (Sessions, Outcome).
pub mod Requests
pub mod Sent
pub mod Sessions
pub mod Outcome
