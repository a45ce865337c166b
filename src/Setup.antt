-- ===== src/Setup.antt =====
-- Detection for the first-run set-up: pc/src/pywinhello/setup/detect.py and bootsel.py. Progress
-- reports and log lines are left out; the drives and the files are what `Media` says of a state.
pub mod Provision
pub mod Waiting
use pywinhello.Serial.Link
use pywinhello.Gui.NotepadTest.{device}
use pywinhello.Gui.Window.Routing.{closed}
use pywinhello.Models.{BoardVariant, board_by_pid, board_name, pico, pico_2, pico_2_w, pico_w}
use pywinhello.Prelude.{
  Bool, List, Option, [], false, if◌then◌else◌, keep, ltb, map, none, some, true, ◌||◌, ◌∷◌,
}
use pywinhello.Prelude.Dict.{get_or}
use pywinhello.Prelude.Exec.{Exec, attempt, pure, raise, ◌>>=◌, ◌>>◌}
use pywinhello.Prelude.Result.{Result, err, ok, os_error}
use pywinhello.Prelude.Text.{Text, codes, contains, text_eq}
use pywinhello.Serial.Link.{SerialProtocol, close, open_protocol}
use pywinhello.Serial.Port.{ComPort, Pyserial}
use pywinhello.Serial.Ports.{has_vid, is_candidate}
use pywinhello.Serial.Protocol.{PingInfo}

-- DeviceState
pub data SetupState : Type 0 where
  bootsel running_pywinhello unknown_firmware not_found : SetupState

pub record DetectedDevice : Type 0 where
  pub state : SetupState
  pub board : Option BoardVariant
  pub port : Option Text
  pub drive : Option Text
  pub firmware_version : Option Text

-- BoardVariant(device_type), or none where that raises
pub board_from_device_type : Text → Option BoardVariant
board_from_device_type s =
    if text_eq s (board_name pico)
    then some pico
    else if text_eq s (board_name pico_w)
    then some pico_w
    else if text_eq s (board_name pico_2)
    then some pico_2
    else if text_eq s (board_name pico_2_w)
    then some pico_2_w
    else none

-- The two-axis check of parse_board_info.
pub board_of_info : Text → BoardVariant
board_of_info info =
    let is_wifi = contains (codes "Pico W") info || contains (codes "Pico 2 W") info in
    if contains (codes "RP2350") info
    then (if is_wifi then pico_2_w else pico_2)
    else (if is_wifi then pico_w else pico)

-- Whether INFO_UF2.TXT is one of a Pico; a file that cannot be read is passed over.
is_pico_info : Option (Result Text) → Bool
is_pico_info (some (ok info)) =
    contains (codes "RPI-RP2") info || contains (codes "Raspberry Pi") info
is_pico_info _ = false

-- `<` on texts
text_lt : Text → Text → Bool
text_lt [] [] = false
text_lt [] (d ∷ t) = true
text_lt (c ∷ s) [] = false
text_lt (c ∷ s) (d ∷ t) = if ltb c d then true else if ltb d c then false else text_lt s t

-- max(candidates, key=lambda p: p.device)
max_by_name : ComPort → List ComPort → ComPort
max_by_name best [] = best
max_by_name best (p ∷ ports) = max_by_name (if text_lt best.device p.device then p else best) ports

choose : List ComPort → List ComPort → Option ComPort
choose (p ∷ candidates) by_vid = some (max_by_name p candidates)
choose [] (p ∷ by_vid) = some (max_by_name p by_vid)
choose [] [] = none

-- The port that _detect_serial probes.
pub setup_port : List ComPort → Option ComPort
unfolding choose
setup_port ports = choose (keep is_candidate ports) (keep has_vid ports)

-- BOARD_BY_PID.get(best.pid) if best.pid else None
board_of_port : ComPort → Option BoardVariant
board_of_port p = elim p.pid [ none ↦ none | some i ↦ board_by_pid i ]

or_else : Option BoardVariant → Option BoardVariant → Option BoardVariant
or_else none other = other
or_else (some b) other = some b

module _ (W : Pyserial) where
  -- What the set-up sees of drives and files: INFO_UF2.TXT of a drive, whether a path exists, the firmware in
  -- the package's data and beside it, and the copy of a file to a drive.
  pub record Media : Type 0 where
    pub info : Text → W.State → Option (Result Text)
    pub exists : Text → W.State → Bool
    pub in_directory : Text → BoardVariant → Text
    pub package_data : BoardVariant → W.State → Option Text
    pub beside_package : BoardVariant → Text
    pub copy : Text → Text → Exec W.State (Unit {0})

  drive_letters : List Text
  drive_letters = map (λ c. c ∷ codes ":/") (codes "DEFGHIJKLMNOPQRSTUVWXYZ")

  first_drive : Media → W.State → List Text → Option Text
  first_drive M s [] = none
  first_drive M s (d ∷ drives) =
      let later = first_drive M s drives in if is_pico_info (M.info d s) then some d else later

  pub find_bootsel_drive : Media → W.State → Option Text
  unfolding first_drive drive_letters
  find_bootsel_drive M s = first_drive M s drive_letters

  parse_board_info : Option (Result Text) → Option BoardVariant
  parse_board_info (some (ok info)) = some (board_of_info info)
  parse_board_info _ = none

  bootsel_device : Media → W.State → Text → DetectedDevice
  bootsel_device M s drive = record {
    state = bootsel;
    board = parse_board_info (M.info drive s);
    port = none;
    drive = some drive;
    firmware_version = none;
  }

  -- What `finally: proto.close()` makes of the body's result.
  pub after_close : Result PingInfo → Result (Unit {0}) → Result PingInfo
  after_close r (ok u) = r
  after_close r (err e) = err e

  pub ping_and_close : SerialProtocol W → Exec W.State PingInfo
  ping_and_close p s =
      let pinged = Link.ping W p s in
      let closed = close W p pinged.1 in (after_close pinged.0 closed.0, closed.1)

  pub probe_port : Text → Exec W.State PingInfo
  probe_port name = do proto ← open_protocol W name 115200; ping_and_close proto

  serial_device : ComPort → Exec W.State DetectedDevice
  serial_device best =
      attempt
        (do
          ping_info ← probe_port best.device
          pure (record {
            state = running_pywinhello;
            board = or_else (board_from_device_type ping_info.device_type) (board_of_port best);
            port = some best.device;
            drive = none;
            firmware_version = some ping_info.firmware_version;
          }))
        (λ e. pure (record {
          state = unknown_firmware;
          board = board_of_port best;
          port = some best.device;
          drive = none;
          firmware_version = none;
        }))

  probe_best : Option ComPort → Exec W.State DetectedDevice
  unfolding serial_device
  probe_best (some best) = serial_device best
  probe_best none = pure (record {
    state = not_found;
    board = none;
    port = none;
    drive = none;
    firmware_version = none;
  })

  -- _detect_serial, and what `detect` answers where that finds nothing
  detect_serial : Exec W.State DetectedDevice
  unfolding probe_best
  detect_serial = W.comports >>= λ ports. probe_best (setup_port ports)

  detect_by : Media → Option Text → Exec W.State DetectedDevice
  detect_by M (some drive) s = (ok (bootsel_device M s drive), s)
  detect_by M none s = detect_serial s

  pub detect : Media → Exec W.State DetectedDevice
  unfolding detect_by
  detect M s = detect_by M (find_bootsel_drive M s) s
