-- ===== src/Library.antt =====
-- libnettool/src less its list: util.c (Util, Parse), what the exchanges with the kernel share
-- (Exchange, Verdict), addresses, routes and links, the printing of messages that nothing calls
-- (Listing), the network that a kernel keeps (Network), and runs of them (Examples, Runs).
pub mod Util
pub mod Exchange
pub mod Verdict
pub mod Parse
pub mod Address
pub mod Route
pub mod Link
pub mod Listing
pub mod Network
pub mod Examples
pub mod Runs
