-- ===== src/Serial/Port.antt =====
-- What the program uses of pyserial, of `json` and of the clock, as parameters.
use pywinhello.Prelude.{Bool, List, Option, ℕ, ◌++◌, ◌≡◌}
use pywinhello.Prelude.Exec.{Exec}
use pywinhello.Prelude.Result.{Result, ok}
use pywinhello.Prelude.Text.{Text}
use pywinhello.Prelude.Value.{Value}
use pywinhello.Serial.Protocol.{Bytes}

-- list_ports.comports(): `device`, `vid` and `pid` of an entry.
pub record ComPort : Type 0 where
  pub device : Text
  pub vid : Option ℕ
  pub pid : Option ℕ

-- `Port` is an open `serial.Serial`. Times are in milliseconds.
pub record Pyserial : Type 1 where
  pub State : Type 0
  pub Port : Type 0
  pub comports : Exec State (List ComPort)
  pub open_port : Text → ℕ → Exec State Port
  pub is_open : Port → State → Bool
  pub set_timeout : Port → ℕ → Exec State (Unit {0})
  pub reset_input_buffer : Port → Exec State (Unit {0})
  pub write : Port → Bytes → Exec State (Unit {0})
  pub flush : Port → Exec State (Unit {0})
  pub readline : Port → Exec State Bytes
  pub close : Port → Exec State (Unit {0})
  pub decode : Bytes → Text
  pub loads : Text → Result Value
  pub dumps : Value → Text
  pub sleep : ℕ → State → State

-- A log of the bytes written, which `write` alone extends, and only where it returns. This is
-- the documented effect of `Serial.write` without a partial write.
pub record IsRecording (W : Pyserial) (sent : W.State → Bytes) : Type 0 where
  pub write_appends :
      (p : W.Port) (b : Bytes) (s : W.State)
      → (W.write p b s).0 ≡ ok tt
      → sent (W.write p b s).1 ≡ sent s ++ b
  pub set_timeout_keeps : (p : W.Port) (t : ℕ) (s : W.State) → sent (W.set_timeout p t s).1 ≡ sent s
  pub reset_keeps : (p : W.Port) (s : W.State) → sent (W.reset_input_buffer p s).1 ≡ sent s
  pub flush_keeps : (p : W.Port) (s : W.State) → sent (W.flush p s).1 ≡ sent s
  pub readline_keeps : (p : W.Port) (s : W.State) → sent (W.readline p s).1 ≡ sent s
