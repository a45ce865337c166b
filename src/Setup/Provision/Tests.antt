-- ===== src/Setup/Provision/Tests.antt =====
-- The set-up on the scripted port.
use pywinhello.Serial.Link
use pywinhello.Models.{board_by_pid, board_name, pico_w}
use pywinhello.Prelude.{[], false, none, refl, some, true, ◌∷◌, ◌≡◌}
use pywinhello.Prelude.Exec.{pure}
use pywinhello.Prelude.Text.{codes, has_char, is_space, starts_with, strip, text_eq}
use pywinhello.Prelude.Text.Split.{parse_int, split}
use pywinhello.Serial.Link.{answer, close, exchange, open_protocol, send}
use pywinhello.Serial.Ports.{is_candidate}
use pywinhello.Serial.Protocol.{
  command_line, command_name, encode_command, parse_ping, parse_response, parse_stripped, utf8,
  utf8_char,
}
use pywinhello.Setup.{
  DetectedDevice, Media, after_close, board_from_device_type, board_of_port, choose, detect,
  detect_by, detect_serial, drive_letters, find_bootsel_drive, first_drive, is_pico_info,
  max_by_name, or_else, ping_and_close, probe_best, probe_port, running_pywinhello, serial_device,
  setup_port,
}
use pywinhello.Setup.Provision.{ProvisionResult, already_running, provision, provision_for, report}
use pywinhello.Setup.Provision.Outcome.{IsAnswered, provision_success}
use pywinhello.Tests.Bench.{Bench, bench}

-- No drive is mounted, and no file is there.
abbrev no_media : Media bench
no_media = record {
  info = λ drive s. none;
  exists = λ path s. false;
  in_directory = λ dir b. dir;
  package_data = λ b s. none;
  beside_package = λ b. codes "fw";
  copy = λ drive path. pure tt;
}

-- A Pico that answers a PING.
abbrev answering_bench : Bench
answering_bench = record { written = []; replies = codes "PONG:pico_w,1.2.0" ∷ []; opened = 0 }

abbrev running_result : ProvisionResult
running_result = record {
  success = true;
  state = running_pywinhello;
  board = some pico_w;
  firmware_version = some (codes "1.2.0");
  message = already_running;
}

abbrev running_device : DetectedDevice
running_device = record {
  state = running_pywinhello;
  board = some pico_w;
  port = some (codes "COM3");
  drive = none;
  firmware_version = some (codes "1.2.0");
}

provision_success_example :
    (running_result.state ≡ running_pywinhello)
    × IsAnswered bench running_result.firmware_version
        (provision bench no_media none answering_bench).1
unfolding provision provision_for report detect detect_by find_bootsel_drive first_drive
    drive_letters is_pico_info detect_serial setup_port choose max_by_name probe_best serial_device
    probe_port ping_and_close after_close open_protocol close Link.ping send exchange answer
    encode_command utf8 command_name utf8_char command_line parse_response parse_stripped strip
    is_space starts_with parse_ping split has_char parse_int text_eq is_candidate board_by_pid
    or_else board_from_device_type board_name board_of_port
provision_success_example =
    provision_success bench no_media none answering_bench running_result refl refl
