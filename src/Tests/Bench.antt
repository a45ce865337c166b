-- ===== src/Tests/Bench.antt =====
-- A serial port that records what is written and answers from a script.
use pywinhello.Gui.Connection.{Gui}
use pywinhello.Models.{pico_vid}
use pywinhello.Prelude.{List, [], arith, none, refl, some, true, ℕ, ◌++◌, ◌+◌, ◌∷◌}
use pywinhello.Prelude.Exec.{Exec, pure}
use pywinhello.Prelude.Result.{ok}
use pywinhello.Prelude.Text.{Text, codes}
use pywinhello.Prelude.Value.{str}
use pywinhello.Serial.Device.{connected}
use pywinhello.Serial.Device.Connection.Attempts.{IsCounting}
use pywinhello.Serial.Link.{SerialProtocol}
use pywinhello.Serial.Port.{ComPort, IsRecording, Pyserial}
use pywinhello.Serial.Protocol.{Bytes}

pub record Bench : Type 0 where
  pub written : Bytes
  pub replies : List Bytes
  pub opened : ℕ

-- The next line of the script; an empty line is a timeout.
abbrev next_reply : List Bytes → Bytes × List Bytes
next_reply [] = ([], [])
next_reply (line ∷ later) = (line, later)

abbrev pub pico_port : ComPort
pico_port = record { device = codes "COM3"; vid = some pico_vid; pid = some 5 }

abbrev pub bench : Pyserial
bench = record {
  State = Bench;
  Port = ℕ;
  comports = λ s. (ok (pico_port ∷ []), s);
  open_port = λ n b s. (ok 1, record s { opened = s.opened + 1 });
  is_open = λ p s. true;
  set_timeout = λ p t s. (ok tt, s);
  reset_input_buffer = λ p s. (ok tt, s);
  write = λ p b s. (ok tt, record s { written = s.written ++ b });
  flush = λ p s. (ok tt, s);
  readline = λ p s. (ok (next_reply s.replies).0, record s { replies = (next_reply s.replies).1 });
  close = λ p s. (ok tt, s);
  decode = λ b. b;
  loads = λ s. ok (str s);
  dumps = λ v. codes "{}";
  sleep = λ t s. s;
}

abbrev pub bench_written : Bench → Bytes
bench_written s = s.written

abbrev pub bench_opened : Bench → ℕ
bench_opened s = s.opened

pub bench-IsRecording : IsRecording bench bench_written
bench-IsRecording = record {
  write_appends = λ p b s h. refl;
  set_timeout_keeps = λ p t s. refl;
  reset_keeps = λ p s. refl;
  flush_keeps = λ p s. refl;
  readline_keeps = λ p s. refl;
}

pub bench-IsCounting : IsCounting bench bench_opened
bench-IsCounting = record {
  open_port_counts = λ n b s. omega arith;
  comports_keeps = λ s. omega arith;
  set_timeout_keeps = λ p t s. omega arith;
  reset_keeps = λ p s. omega arith;
  write_keeps = λ p b s. omega arith;
  flush_keeps = λ p s. omega arith;
  readline_keeps = λ p s. omega arith;
  close_keeps = λ p s. omega arith;
  sleep_keeps = λ t s. omega arith;
}

abbrev pub bench_protocol : SerialProtocol bench
bench_protocol = record { port_name = codes "COM3"; default_timeout = 2000; serial = 1 }

abbrev pub no_progress : ℕ → ℕ → Exec Bench (Unit {0})
no_progress i n = pure tt

-- The script of a flash of two bytes, and the PING after it.
abbrev pub flash_bench : Bench
flash_bench = record {
  written = [];
  replies = codes "READY" ∷ codes "OK" ∷ codes "PONG:rp2040,1.2.0" ∷ [];
  opened = 0;
}

abbrev pub two_bytes : Bytes
two_bytes = 7 ∷ 9 ∷ []

-- A hash that is the text itself.
abbrev pub text_hash : Bytes → Text
text_hash b = b

-- A device that the script answers.
abbrev pub linked : Gui bench
linked = (
  some (record {
    port = none;
    baud_rate = 115200;
    reconnect_attempts = 3;
    reconnect_delay = 1000;
    protocol = some bench_protocol;
    info = none;
    state = connected;
  }),
  record { written = []; replies = codes "OK" ∷ []; opened = 1 },
)
