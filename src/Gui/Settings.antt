-- ===== src/Gui/Settings.antt =====
-- `SettingsPanel` of pc/src/pywinhello/gui/settings/__init__.py and its sections. Each section sends
-- raw commands through the window's connection and shows how they end; a section's thread is one
-- step. Widgets are what is read from them.
pub mod Saving
pub mod Basic
pub mod Advanced
pub mod Apps
pub mod Panel
pub mod LogView
pub mod VersionInfo
pub mod Effects
