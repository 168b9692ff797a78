-- ===== src/Nettool.antt =====
-- The command of nettool/src: its tables of names (Tables, Lookup, Names), what it prints of a
-- device (Links, Flags) and of an address (Addresses), the events (Events, Reading, Overrun),
-- what nothing calls (SetLink, Unused), the command line (Main, Command), and commands one behind
-- the other (Series, Shown).
pub mod Tables
pub mod Lookup
pub mod Links
pub mod Flags
pub mod Names
pub mod Addresses
pub mod Events
pub mod Reading
pub mod Overrun
pub mod SetLink
pub mod Unused
pub mod Main
pub mod Command
pub mod Series
pub mod Shown
mod Service
mod Examples
