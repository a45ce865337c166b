-- ===== src/Serial/Protocol.antt =====
-- The wire format of pc/src/pywinhello/serial/protocol.py: commands, responses, PING metadata.
-- The proofs about it are in the modules below.
pub mod Framing
pub mod Responses
pub mod Ping
use pywinhello.Prelude.{
  Bool, List, Option, [], drop, false, if◌then◌else◌, leb, ltb, none, some, true, ℕ, ◌%◌, ◌&&◌,
  ◌++◌, ◌+◌, ◌/◌, ◌||◌, ◌∷◌,
}
use pywinhello.Prelude.Int.{pos, ℤ}
use pywinhello.Prelude.Result.{Result, err, ok, value_error, ◌>>=◌}
use pywinhello.Prelude.Text.{Text, codes, has_char, starts_with, strip, text_eq}
use pywinhello.Prelude.Text.Split.{first_part, parse_int, split}

-- Command, with the names of its members.
pub data Command : Type 0 where
  ping get_config set_config setup_pin clear unlock hello get_log flash status press : Command

abbrev pub commands : List Command
commands =
    ping ∷ get_config ∷ set_config ∷ setup_pin ∷ clear ∷ unlock ∷ hello ∷ get_log ∷ flash ∷ status
    ∷ press ∷ []

-- command.value
unfoldable pub command_name : Command → Text
command_name ping = codes "PING"
command_name get_config = codes "GET_CONFIG"
command_name set_config = codes "SET_CONFIG"
command_name setup_pin = codes "SETUP_PIN"
command_name clear = codes "CLEAR"
command_name unlock = codes "UNLOCK"
command_name hello = codes "HELLO"
command_name get_log = codes "GET_LOG"
command_name flash = codes "FLASH"
command_name status = codes "STATUS"
command_name press = codes "PRESS"

-- _COMMAND_TIMEOUTS, in milliseconds; every command has an entry.
unfoldable pub command_timeout : Command → ℕ
command_timeout ping = 2000
command_timeout get_config = 3000
command_timeout set_config = 3000
command_timeout setup_pin = 2000
command_timeout clear = 2000
command_timeout unlock = 5000
command_timeout hello = 5000
command_timeout get_log = 5000
command_timeout flash = 10000
command_timeout status = 2000
command_timeout press = 2000

abbrev pub Bytes : Type 0
Bytes = List ℕ

-- One code point of `str.encode("utf-8")`; a lone surrogate raises UnicodeEncodeError.
unfoldable pub utf8_char : ℕ → Result Bytes
utf8_char c =
    if ltb c 0x80
    then ok (c ∷ [])
    else if ltb c 0x800
    then ok ((0xC0 + c / 64) ∷ (0x80 + c % 64) ∷ [])
    else if leb 0xD800 c && leb c 0xDFFF
    then err value_error
    else if ltb c 0x10000
    then ok ((0xE0 + c / 4096) ∷ (0x80 + c / 64 % 64) ∷ (0x80 + c % 64) ∷ [])
    else ok
        ((0xF0 + c / 262144) ∷ (0x80 + c / 4096 % 64) ∷ (0x80 + c / 64 % 64) ∷ (0x80 + c % 64) ∷ [])

-- s.encode("utf-8")
unfoldable pub utf8 : Text → Result Bytes
utf8 [] = ok []
utf8 (c ∷ s) = do b ← utf8_char c; bs ← utf8 s; ok (b ++ bs)

-- The line that `encode_command` builds.
unfoldable pub command_line : Command → Option Text → Text
command_line c none = command_name c ++ codes "\n"
command_line c (some payload) = command_name c ++ (codes ":" ++ (payload ++ codes "\n"))

unfoldable pub encode_command : Command → Option Text → Result Bytes
unfolding command_line
encode_command c payload = utf8 (command_line c payload)

pub record Response : Type 0 where
  pub raw : Text
  pub ok? : Bool
  pub payload : Text

unfoldable pub parse_stripped : Text → Response
parse_stripped raw =
    if text_eq raw []
    then record { raw = []; ok? = false; payload = codes "empty response" }
    else if starts_with raw (codes "ERR:")
    then record { raw = raw; ok? = false; payload = drop 4 raw }
    else if text_eq raw (codes "OK") || text_eq raw (codes "PONG") || text_eq raw (codes "READY")
    then record { raw = raw; ok? = true; payload = [] }
    else if starts_with raw (codes "OK:")
    then record { raw = raw; ok? = true; payload = drop 3 raw }
    else if starts_with raw (codes "PONG:")
    then record { raw = raw; ok? = true; payload = drop 5 raw }
    else record { raw = raw; ok? = true; payload = raw }

-- parse_response, which strips the line first
unfoldable pub parse_response : Text → Response
parse_response raw = parse_stripped (strip raw)

pub record PingInfo : Type 0 where
  pub protocol_version : ℤ
  pub device_type : Text
  pub firmware_version : Text

-- parts[1].strip() if len(parts) >= 2 else "0.0.0"
comma_version : List Text → Text
comma_version (d ∷ v ∷ rest) = strip v
comma_version _ = codes "0.0.0"

-- The text after an optional "v" before the protocol number.
without_v : Text → Text
without_v p = if starts_with p (codes "v") then drop 1 p else p

proto_number : Text → ℤ
unfolding without_v
proto_number p = elim (parse_int (without_v p)) [ none ↦ pos 2 | some n ↦ n ]

-- What `parse_ping` makes of the parts between colons.
colon_info : List Text → PingInfo
colon_info (p ∷ d ∷ v ∷ rest) = record {
  protocol_version = proto_number p;
  device_type = d;
  firmware_version = v;
}
colon_info (p ∷ rest) = record {
  protocol_version = pos 2;
  device_type = p;
  firmware_version = codes "0.0.0";
}
colon_info [] = record {
  protocol_version = pos 2;
  device_type = codes "unknown";
  firmware_version = codes "0.0.0";
}

ping_data : Text → PingInfo
ping_data s =
    if text_eq s []
    then record {
      protocol_version = pos 1;
      device_type = codes "unknown";
      firmware_version = codes "0.0.0";
    }
    else if has_char b',' s
    then record {
      protocol_version = pos 2;
      device_type = strip (first_part (split b',' s));
      firmware_version = comma_version (split b',' s);
    }
    else colon_info (split b':' s)

unfoldable pub parse_ping : Response → Result PingInfo
unfolding ping_data colon_info comma_version proto_number
parse_ping r = if r.ok? then ok (ping_data r.payload) else err value_error
