-- ===== src/Gui/Steps.antt =====
-- The four steps of the set-up wizard: pc/src/pywinhello/gui/wizard/. Their widgets are left out; a
-- step is what `can_proceed` and `get_data` read.
pub mod Desktop
pub mod Typing
pub mod DeviceStep
pub mod TestStep
pub mod PinStep
pub mod ScheduleStep
