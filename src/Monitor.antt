-- ===== src/Monitor.antt =====
-- The background service: pc/src/pywinhello/monitor.
pub mod Versions
pub mod UsbWatcher
pub mod Hello
pub mod Lock
pub mod Updates
pub mod Schedule
pub mod Service
pub mod Threads
