-- ===== src/Trials.antt =====
-- The trials of test_cpp/src: small programs on times, threads, signals and address texts.
pub mod Time
pub mod Calls
pub mod Condition
pub mod Signals
pub mod Sleep
pub mod Fields
pub mod Pton
pub mod Timer
pub mod Lines
pub mod Double
pub mod Remaining
pub mod States
pub mod Scan
pub mod Units
pub mod Gpio
pub mod ReadFile
pub mod NetLib
pub mod Fifo
pub mod Counter
pub mod Menu
pub mod Countdown
pub mod Examples
pub mod Runs
mod Fixed
