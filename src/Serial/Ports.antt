-- ===== src/Serial/Ports.antt =====
-- Choice of the COM port: `find_pico_port` of pc/src/pywinhello/serial/device.py.
pub mod Choice
use pywinhello.Models.{board_by_pid, pico_vid}
use pywinhello.Prelude.{
  Bool, List, Option, [], false, if◌then◌else◌, keep, leb, ltb, none, some, ℕ, ◌&&◌, ◌*◌, ◌+◌, ◌-◌,
  ◌==◌, ◌∷◌,
}
use pywinhello.Prelude.Dict.{is_some}
use pywinhello.Prelude.Text.{Text}
use pywinhello.Serial.Port.{ComPort}

abbrev pub has_vid : ComPort → Bool
has_vid p = elim p.vid [ none ↦ false | some v ↦ v == pico_vid ]

-- p.pid in PICO_PIDS
abbrev pub has_pid : ComPort → Bool
has_pid p = elim p.pid [ none ↦ false | some i ↦ is_some (board_by_pid i) ]

unfoldable pub is_candidate : ComPort → Bool
is_candidate p = has_vid p && has_pid p

-- The number that the digits of a name spell, 0 without digits.
digits_value : ℕ → Text → ℕ
digits_value acc [] = acc
digits_value acc (c ∷ s) =
    digits_value (if leb b'0' c && leb c b'9' then acc * 10 + (c - 48) else acc) s

unfoldable pub port_number : ComPort → ℕ
unfolding digits_value
port_number p = digits_value 0 p.device

-- The greater of two by `_port_number`, the first where they are equal.
better : ComPort → ComPort → ComPort
better best p = if ltb (port_number best) (port_number p) then p else best

-- max(best :: ports, key=_port_number): the first of the greatest.
unfoldable pub max_port : ComPort → List ComPort → ComPort
unfolding better
max_port best [] = best
max_port best (p ∷ ports) = max_port (better best p) ports

-- The fallback loop: the first port with the vendor id.
unfoldable pub first_by_vid : List ComPort → Option Text
first_by_vid [] = none
first_by_vid (p ∷ ports) = if has_vid p then some p.device else first_by_vid ports

unfoldable pub pick : List ComPort → List ComPort → Option Text
pick [] ports = first_by_vid ports
pick (c ∷ candidates) ports = some (max_port c candidates).device

unfoldable pub find_pico_port : List ComPort → Option Text
find_pico_port ports = pick (keep is_candidate ports) ports
