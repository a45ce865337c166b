-- ===== src/Setup/Waiting.antt =====
-- The wait for a drive in BOOTSEL mode, and the firmware that is there: pc/src/pywinhello/setup/bootsel.py
-- and firmware.py. `clock` is time.monotonic, in milliseconds.
use pywinhello.Models.{BoardVariant, pico, pico_2, pico_2_w, pico_w}
use pywinhello.Polling.{Polled, poll_for}
use pywinhello.Polling.Ended.{Ended, IsTimed, held, over, poll_for-Ended}
use pywinhello.Prelude.{
  Bool, List, Option, [], false, none, refl, some, true, ℕ, ◌+◌, ◌∷◌, ◌≡◌, ◌≤◌,
}
use pywinhello.Prelude.Dict.{is_some}
use pywinhello.Prelude.Text.{Text}
use pywinhello.Serial.Port.{Pyserial}
use pywinhello.Setup.{Media, find_bootsel_drive}
use pywinhello.Setup.Provision.{get_firmware_path}

module _ (W : Pyserial) (M : Media W) (clock : W.State → ℕ) where
  -- One look at the drives every half second.
  unfoldable pub drive_loop : Polled W.State
  drive_loop = record {
    now = clock;
    pause = W.sleep 500;
    test = λ s. (is_some (find_bootsel_drive W M s), s);
  }

  found_drive : Option Bool × W.State → Option (Option Text) × W.State
  found_drive (none, s) = (none, s)
  found_drive (some true, s) = (some (find_bootsel_drive W M s), s)
  found_drive (some false, s) = (some none, s)

  unfoldable pub wait_for_bootsel_drive : ℕ → W.State → Option (Option Text) × W.State
  unfolding found_drive
  wait_for_bootsel_drive timeout s = found_drive (poll_for drive_loop timeout s)

  -- The wait has ended with a drive that is there, or with none when the time was over.
  abbrev pub IsWaited : ℕ → ℕ → Option (Option Text) × W.State → Type 0
  IsWaited timeout start (none, s) = ⊥
  IsWaited timeout start (some none, s) = start + timeout ≤ clock s
  IsWaited timeout start (some (some d), s) = find_bootsel_drive W M s ≡ some d

  held-IsWaited :
      (timeout start : ℕ) (o : Option Text) (s : W.State)
      → find_bootsel_drive W M s ≡ o
      → is_some o ≡ true
      → IsWaited timeout start (some o, s)
  held-IsWaited timeout start none s e h = cc
  held-IsWaited timeout start (some d) s e h = e

  found_drive-IsWaited :
      (timeout start : ℕ) (r : Option Bool × W.State)
      → Ended drive_loop timeout start r
      → IsWaited timeout start (found_drive r)
  unfolding found_drive drive_loop
  found_drive-IsWaited timeout start r (held s h l) =
      held-IsWaited timeout start (find_bootsel_drive W M s) s refl h
  found_drive-IsWaited timeout start r (over s l) = l

  -- On a clock that goes on the wait ends: with a drive in BOOTSEL mode that is there, or with none
  -- once the time is over.
  pub wait_for_bootsel_drive-IsWaited :
      (timeout : ℕ) (s : W.State)
      → IsTimed drive_loop
      → IsWaited timeout (clock s) (wait_for_bootsel_drive timeout s)
  unfolding wait_for_bootsel_drive drive_loop
  wait_for_bootsel_drive-IsWaited timeout s T =
      found_drive-IsWaited timeout (clock s) _ (poll_for-Ended drive_loop timeout s T)

  with_path : BoardVariant → Option Text → List (BoardVariant × Text) → List (BoardVariant × Text)
  with_path b none found = found
  with_path b (some path) found = (b, path) ∷ found

  bundled : List BoardVariant → W.State → List (BoardVariant × Text)
  unfolding with_path
  bundled [] s = []
  bundled (b ∷ bs) s = with_path b (get_firmware_path W M b none s) (bundled bs s)

  -- The variants in the order of BoardVariant.
  pub list_bundled_firmware : W.State → List (BoardVariant × Text)
  unfolding bundled
  list_bundled_firmware = bundled (pico ∷ pico_w ∷ pico_2 ∷ pico_2_w ∷ [])
