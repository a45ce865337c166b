-- ===== src/Tests/Exchanges.antt =====
-- Exchanges with a Pico, on the scripted port.
use pywinhello.Serial.Link
use pywinhello.Monitor.Updates.Firmware.{apply_firmware_update, apply_firmware_update-sent}
use pywinhello.Prelude.{List, [], count, length, none, refl, some, true, ◌++◌, ◌+◌, ◌∷◌, ◌≡◌}
use pywinhello.Prelude.Result.{ok}
use pywinhello.Prelude.Text.{codes, has_char, is_space, starts_with, strip, text_eq}
use pywinhello.Prelude.Text.Split.{parse_int, split}
use pywinhello.Serial.Flasher.{
  check_version, flash_and_verify, flash_content, flash_firmware, push_image, push_or_report,
  remove_prefix, stream, verdict, verify,
}
use pywinhello.Serial.Flasher.Outcome.{flash_firmware-sent}
use pywinhello.Serial.Link.{answer, exchange, flash_begin, read_line, send, show, write_raw}
use pywinhello.Serial.Link.Session.{
  Frames, Request, exchanges, exchanges-sent, framed, inner_newlines, no_frames,
}
use pywinhello.Serial.Protocol.{
  Command, PingInfo, command_line, command_name, command_timeout, encode_command, parse_ping,
  parse_response, parse_stripped, utf8, utf8_char,
}
use pywinhello.Tests.Bench.{
  Bench, bench, bench-IsRecording, bench_protocol, bench_written, flash_bench, no_progress,
  text_hash, two_bytes,
}

-- A Pico that answers a PING.
abbrev ping_bench : Bench
ping_bench = record { written = []; replies = codes "PONG:rp2040,1.2.0" ∷ []; opened = 0 }

-- Two commands, the second with a payload.
abbrev two_requests : List Request
two_requests = (Command.ping, none) ∷ (Command.press, some (codes "A")) ∷ []

abbrev two_replies : Bench
two_replies = record {
  written = [];
  replies = codes "PONG:rp2040,1.2.0" ∷ codes "OK" ∷ [];
  opened = 0;
}

two_requests-Frames : Frames two_requests (codes "PING\nPRESS:A\n")
unfolding encode_command utf8 command_name utf8_char command_line
two_requests-Frames =
    framed Command.ping none ((Command.press, some (codes "A")) ∷ []) (codes "PING\n")
      (codes "PRESS:A\n") refl
      (framed Command.press (some (codes "A")) [] (codes "PRESS:A\n") [] refl no_frames)

exchanges-sent_example :
    ((exchanges bench bench_protocol two_requests two_replies).1.written ≡ codes "PING\nPRESS:A\n")
    × (count b'\n' (codes "PING\nPRESS:A\n") ≡ length two_requests + inner_newlines two_requests)
unfolding encode_command utf8 command_name utf8_char command_line send exchange answer
    parse_response parse_stripped strip is_space starts_with exchanges text_eq command_timeout
exchanges-sent_example =
    exchanges-sent bench bench_written bench-IsRecording bench_protocol two_requests
      (codes "PING\nPRESS:A\n") two_replies
      (parse_response (codes "PONG:rp2040,1.2.0") ∷ parse_response (codes "OK") ∷ [])
      two_requests-Frames refl

flash_firmware-sent_example :
    (flash_firmware bench text_hash bench_protocol no_progress
      (some (ok two_bytes))
      (some two_bytes)
      flash_bench).1.written
    ≡ codes "FLASH:2\n" ++ two_bytes
unfolding flash_firmware flash_content push_or_report push_image flash_begin send encode_command
    utf8 command_name utf8_char show exchange answer text_eq strip parse_response is_space
    starts_with remove_prefix stream verdict read_line write_raw command_line command_timeout
    parse_stripped
flash_firmware-sent_example =
    flash_firmware-sent bench bench_written bench-IsRecording text_hash bench_protocol no_progress
      (λ i n s. refl) two_bytes (codes "FLASH:2\n") refl (some two_bytes) flash_bench
      (record { success = true; size = 2; sha256 = two_bytes; error = none }) refl refl

apply_firmware_update-sent_example : (info : PingInfo) × (info.firmware_version ≡ codes "1.2.0")
unfolding flash_firmware flash_content push_or_report push_image flash_begin send encode_command
    utf8 command_name utf8_char show exchange answer text_eq strip parse_response is_space
    starts_with remove_prefix stream verdict read_line write_raw command_line command_timeout
    parse_stripped flash_and_verify check_version verify Link.ping parse_ping split has_char
    parse_int apply_firmware_update
apply_firmware_update-sent_example =
    let r =
      apply_firmware_update-sent bench bench_written bench-IsRecording text_hash bench_protocol
        no_progress (λ i n s. refl) two_bytes (codes "FLASH:2\n") refl two_bytes (codes "1.2.0")
        flash_bench refl in
    (r.1, r.5)
