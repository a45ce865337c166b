-- ===== src/Gui.antt =====
-- The settings window: pc/src/pywinhello/gui/.
pub mod I18n
pub mod Constants
pub mod Connection
pub mod Window
pub mod Steps
pub mod Wizard
pub mod Settings
pub mod LockTest
pub mod NotepadTest
