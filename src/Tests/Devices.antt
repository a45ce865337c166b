-- ===== src/Tests/Devices.antt =====
-- Connections of a device, on the scripted port.
use pywinhello.Serial.Link
use pywinhello.Prelude.{[], inr, none, refl, some, ◌≡◌}
use pywinhello.Prelude.Int.{pos}
use pywinhello.Prelude.Result.{connection_error}
use pywinhello.Prelude.Text.{codes}
use pywinhello.Serial.Device.{
  PicoDevice, chosen_port, connect, connected, disconnect, disconnected, ensure_connected,
  handshake, reconnect,
}
use pywinhello.Serial.Device.Connection.{
  Ensured, Fresh, IsCoherent, ensure_connected-Ensured, methods-IsCoherent, reconnect-Fresh,
}
use pywinhello.Serial.Device.Connection.Held.{IsHolding, connect-held}
use pywinhello.Serial.Link.{answer, exchange, open_protocol, send}
use pywinhello.Serial.Port.{ComPort}
use pywinhello.Serial.Protocol.{
  command_line, command_name, command_timeout, encode_command, utf8, utf8_char,
}
use pywinhello.Tests.Bench.{Bench, bench, bench_opened, bench_protocol, flash_bench}

-- A device that a user has just made.
abbrev fresh_device : PicoDevice bench
fresh_device = record {
  port = none;
  baud_rate = 115200;
  reconnect_attempts = 3;
  reconnect_delay = 1000;
  protocol = none;
  info = none;
  state = disconnected;
}

-- It reports a connection that the script then answers.
abbrev open_device : PicoDevice bench
open_device = record {
  port = some (codes "COM3");
  baud_rate = 115200;
  reconnect_attempts = 3;
  reconnect_delay = 1000;
  protocol = some bench_protocol;
  info = some (record {
    port = codes "COM3";
    ping_info = record {
      protocol_version = pos 2;
      device_type = codes "rp2040";
      firmware_version = codes "1.2.0";
    };
  });
  state = connected;
}

open_device-IsCoherent : IsCoherent bench open_device
open_device-IsCoherent = inr (refl, refl)

reconnect-Fresh_example :
    Fresh bench
      (reconnect bench open_device flash_bench).0
      (reconnect bench open_device flash_bench).1
reconnect-Fresh_example = reconnect-Fresh bench open_device flash_bench

ensure_connected-Ensured_example :
    Ensured bench
      (ensure_connected bench open_device flash_bench).0
      (ensure_connected bench open_device flash_bench).1
ensure_connected-Ensured_example =
    ensure_connected-Ensured bench open_device flash_bench open_device-IsCoherent

methods-IsCoherent_example : IsCoherent bench (disconnect bench open_device flash_bench).0
methods-IsCoherent_example =
    (methods-IsCoherent bench open_device flash_bench open_device-IsCoherent).1

other_port : ComPort
other_port = record { device = codes "COM1"; vid = none; pid = none }

bench-IsHolding : IsHolding bench bench_opened
bench-IsHolding = record {
  opened = λ n b s p h. refl;
  not_opened = λ n b s e h. cc;
  comports_keeps = λ s. refl;
  set_timeout_keeps = λ p t s. refl;
  reset_keeps = λ p s. refl;
  write_keeps = λ p b s. refl;
  flush_keeps = λ p s. refl;
  readline_keeps = λ p s. refl;
}

-- A Pico that does not answer, at a configured port.
abbrev silent_bench : Bench
silent_bench = record { written = []; replies = []; opened = 0 }

abbrev named_device : PicoDevice bench
named_device = record fresh_device { port = some (codes "COM3") }

connect-held_example : (connect bench named_device silent_bench).2.opened ≡ 1
unfolding connect chosen_port handshake open_protocol Link.ping send exchange answer encode_command
    command_line utf8 utf8_char command_name command_timeout
connect-held_example =
    (connect-held bench bench_opened bench-IsHolding named_device b'C' (codes "OM3") silent_bench 1
      connection_error refl refl refl).0
