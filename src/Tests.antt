-- ===== src/Tests.antt =====
-- The theorems at concrete inputs.
pub mod Bench
mod Exchanges
mod Devices
mod Texts
mod Dialogs
mod Window
mod Panel
mod Settings
