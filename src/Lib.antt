-- ===== src/Lib.antt =====
-- pywinhello: the PC side of a Pico that types the Windows PIN. A monitor watches for the Pico, speaks a
-- line protocol with it over a serial port, asks it for the PIN when a Windows Hello dialog or the
-- lock screen is there, and keeps wake tasks, software and firmware up to date.
--
-- Parts, with the files of pc/src/pywinhello that they model:
--
-- - Prelude: Python's texts (lists of code points), integers, dicts, JSON values, exceptions as a
--   result type, and methods that change a state and may raise (Exec).
-- - Models (models.py): the table of boards.
-- - Serial.Protocol (serial/protocol.py): encode_command, parse_response, parse_ping.
-- - Serial.Port: what is used of pyserial, json and the clock, as the record Pyserial of parameters.
-- - Serial.Link (serial/protocol.py): SerialProtocol, one exchange for each command. Commands of one
--   device exclude each other by its lock, so an exchange is one step.
-- - Serial.Flasher (serial/flasher.py): flash_firmware and flash_and_verify over the link.
-- - Serial.Ports and Serial.Device (serial/device.py): find_pico_port and PicoDevice, which owns a link.
-- - Monitor.UsbWatcher (monitor/usb_watcher.py): what each check of the ports makes of the watcher; in Loops
--   the loop that polls and the one that waits for WMI, with checks that raise.
-- - Monitor.Hello (monitor/hello_detector.py): the whitelist and _handle_dialog; in Loop the
--   rounds of the thread.
-- - Monitor.Lock (monitor/lock_detector.py): when and how the desktop is unlocked; in Desktop the
--   look at the desktop and the tick counter.
-- - Monitor.Versions and Monitor.Updates (monitor/updater.py): compare_versions, check_for_updates,
--   cleanup_old_update, download_asset, what a daily check applies, and the loop of checks; in Cache the
--   installed version and the cache file, in Firmware the update of the firmware over the link.
-- - Monitor.Schedule (monitor/scheduler_sync.py): the wake task and the deletion of tasks, on the
--   set of the scheduler's tasks; in Schtasks the commands and the temporary file that do it.
-- - Monitor.Service (monitor/service.py): the watcher's callbacks arm and disarm the others; its start
--   and the two halves of its stop; Monitor.Service.Entry (__main__.py): the program.
-- - Monitor.Threads: start and stop of the threads of the watcher and the two detectors.
-- - Setup (setup/): the detection of a Pico and its provisioning, over a link of its own.
-- - Polling and Dialog (dialog.py): the waits for the Windows Security dialog, its focus and its owner.
-- - Gui.I18n and Gui.Constants (gui/i18n/__init__.py, gui/constants.py): the texts and the check of a PIN.
-- - Gui.Connection and Gui.Window (gui/app.py): the window's own connection, which screen it
--   shows, in Posts the results of polls that wait to be handled, and in LockDialog the dialog of the
--   lock test.
-- - Gui.Steps and Gui.Wizard (gui/wizard/): the four steps of the set-up wizard and their navigation; in
--   Gui.Wizard.Bars the bars and the frames around the steps.
-- - Gui.Settings (gui/settings/): what the sections read of the configuration, and what they send; in
--   Panel the build and rebuild of the sections, in Advanced.Rows the entries and their reset.
-- - Gui.LockTest (gui/tests/lock_test.py): the test that locks the desktop and waits for the unlock.
-- - Gui.NotepadTest (gui/tests/notepad_test.py): the typing test outside of the wizard.
-- - Tests, and modules of that name: the theorems at concrete inputs.
--
-- A Python class is a record, a method a function that gives the record back, an exception a value
-- of Error; messages of exceptions and log lines are not modelled. Calls of Windows and of callbacks
-- are logged in order where their order matters (Action, UnlockCall, Notice).
--
-- Fuel: the loop that streams an image has one round of fuel for each byte, and each round sends
-- a byte at least, so no image is cut. The loop that prints a number has one round for each unit
-- of the number and one more, and each round divides by ten. The waits of Polling have one round for
-- each millisecond of the timeout and one more, and each round takes a millisecond at least on a clock
-- that goes on. All other loops are structural: over
-- the lines, ports, rounds or attempts that the code loops over.
--
-- Not modelled: elapsed times and the lengths of waits where nothing depends on them, decimal digits
-- outside ASCII in int(), characters outside ASCII in lower(), assets whose name is
-- no text (they count as a TypeError), the interleaving of threads beyond that of polls with the main thread
-- and of the checks of the watcher with the halves of a stop
-- (a step is what one thread does under a lock), the fixed text of the task XML, times of the schedule
-- that are no text, the layout and the labels of the windows, and the firmware of the Pico. A dict that is handed to configure of a widget counts as its options, as in tkinter.
pub mod Prelude
pub mod Models
pub mod Polling
pub mod Dialog
pub mod Serial
pub mod Gui
pub mod Monitor
pub mod Setup
pub mod Tests
