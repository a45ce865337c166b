-- ===== src/Monitor/Updates/Renames.antt =====
-- The renames that `cleanup_old_update` of pc/src/pywinhello/monitor/updater.py makes at a start.
use pywinhello.Prelude.{
  Bool, Option, arith, false, if◌then◌else◌, none, not, some, true, ◌&&◌, ◌||◌, ◌≡◌, ◌⊎◌,
}
use pywinhello.Prelude.Dict.{is_some}
use pywinhello.Prelude.Text.{Text}

-- The files of the installed program: the running one, the one before, and a staged one.
pub record Files : Type 0 where
  pub exe : Option Text
  pub exe_old : Option Text
  pub exe_new : Option Text

-- The file operations that fail at this start.
pub record Faults : Type 0 where
  pub unlink_old : Bool
  pub rename_exe : Bool
  pub rename_new : Bool

-- old_path.unlink(), whose failure is logged
unlinked : Faults → Files → Files
unlinked faults files =
    if is_some files.exe_old && not faults.unlink_old
    then record files { exe_old = none }
    else files

-- new_path.rename(current_exe), which on Windows fails where the target exists
take_new : Faults → Files → Files
take_new faults files =
    if is_some files.exe || faults.rename_new
    then files
    else record files { exe = files.exe_new; exe_new = none }

-- The `try` of a staged update.
apply_staged : Faults → Files → Files
unfolding take_new
apply_staged faults files =
    if not (is_some files.exe_new)
    then files
    else if not (is_some files.exe)
    then take_new faults files
    else if is_some files.exe_old || faults.rename_exe
    then files
    else take_new faults (record files { exe = none; exe_old = files.exe })

-- cleanup_old_update; `frozen` is whether this is an installed program
pub cleanup_old_update : Bool → Faults → Files → Files
unfolding apply_staged unlinked
cleanup_old_update frozen faults files =
    if not frozen then files else apply_staged faults (unlinked faults files)

-- Whatever fails, the program that was installed is kept, under its name or under the old one.
pub cleanup-keeps :
    (frozen : Bool) (faults : Faults) (files : Files) (program : Text)
    → files.exe ≡ some program
    → ((cleanup_old_update frozen faults files).exe ≡ some program)
      ⊎ ((cleanup_old_update frozen faults files).exe_old ≡ some program)
unfolding cleanup_old_update apply_staged take_new unlinked
cleanup-keeps frozen faults files program h = ground arith

-- Where a program is staged and neither the renames fail nor an old program stays in the way, the
-- start installs it, keeps the one before as the old one, and leaves nothing staged.
pub cleanup-installs :
    (faults : Faults) (files : Files) (staged : Text)
    → files.exe_new ≡ some staged
    → faults.rename_exe ≡ false
    → faults.rename_new ≡ false
    → (files.exe_old ≡ none) ⊎ (faults.unlink_old ≡ false)
    → (is_some files.exe ≡ true)
    → cleanup_old_update true faults files
      ≡ record { exe = some staged; exe_old = files.exe; exe_new = none }
unfolding cleanup_old_update apply_staged take_new unlinked
cleanup-installs faults files staged h k l u e = ground arith
