-- ===== src/Serial/Link/Session.antt =====
-- Several exchanges after each other on one port: pc/src/pywinhello/serial/protocol.py.
use pywinhello.Prelude.{
  List, Option, [], ap, append-nil, arith, count, count-append, length, refl, subst, ℕ, ◌++◌, ◌+◌,
  ◌∷◌, ◌≡◌,
}
use pywinhello.Prelude.Exec.{Exec, pure, ◌>>=◌}
use pywinhello.Prelude.Result.{ok}
use pywinhello.Prelude.Text.{Text}
use pywinhello.Serial.Link.{SerialProtocol, send}
use pywinhello.Serial.Link.Exchange.{Sends, Sends-bind, Sends-pure, send-Sends}
use pywinhello.Serial.Port.{IsRecording, Pyserial}
use pywinhello.Serial.Protocol.{Bytes, Command, Response, encode_command}
use pywinhello.Serial.Protocol.Framing.{encode_command-frames, payload_newlines}

abbrev pub Request : Type 0
Request = Command × Option Text

-- Commands that are sent one after the other, up to the first that raises.
unfoldable pub exchanges :
    (W : Pyserial) → SerialProtocol W → List Request → Exec W.State (List Response)
exchanges W p [] = pure []
exchanges W p ((c, payload) ∷ later) = do
  r ← send W p c payload
  rs ← exchanges W p later
  pure (r ∷ rs)

-- The number of newlines that stand in payloads.
pub inner_newlines : List Request → ℕ
inner_newlines [] = 0
inner_newlines ((c, payload) ∷ later) = payload_newlines payload + inner_newlines later

-- The bytes of the commands, each encoded.
pub data Frames : List Request → Bytes → Type 0 where
  no_frames : Frames [] []
  framed :
      (c : Command) (payload : Option Text) (later : List Request) (frame rest : Bytes)
      → encode_command c payload ≡ ok frame
      → Frames later rest
      → Frames ((c, payload) ∷ later) (frame ++ rest)

-- One newline ends each line, and the others stand in payloads.
pub Frames-count :
    (cs : List Request) (b : Bytes) → Frames cs b → count b'\n' b ≡ length cs + inner_newlines cs
unfolding inner_newlines
Frames-count cs b no_frames = refl
Frames-count cs b (framed c payload later frame rest e fs) =
    let (body, same, inner) = encode_command-frames c payload frame e in
    omega (
      arith,
      count-append b'\n' frame rest,
      ap (count b'\n') same,
      count-append b'\n' body (b'\n' ∷ []),
      inner,
      Frames-count later rest fs,
    )

exchanges-Sends :
    (W : Pyserial) (sent : W.State → Bytes) (R : IsRecording W sent) (p : SerialProtocol W)
    (cs : List Request) (b : Bytes)
    → Frames cs b
    → Sends W sent (exchanges W p cs) b
unfolding exchanges
exchanges-Sends W sent R p cs b no_frames = Sends-pure W sent []
exchanges-Sends W sent R p cs b (framed c payload later frame rest e fs) =
    Sends-bind W sent (send W p c payload) _ frame rest (send-Sends W sent R p c payload frame e)
      λ r. subst (Sends W sent _) (append-nil rest) (
        Sends-bind W sent (exchanges W p later) _ rest [] (exchanges-Sends W sent R p later rest fs)
          λ rs. Sends-pure W sent (r ∷ rs))

-- If all commands of a session are answered, what was written is their encoded lines in order, with nothing
-- before, between or behind them. There are as many newlines in it as commands, and one more for
-- each newline in a payload: without those, each command is one line.
pub exchanges-sent :
    (W : Pyserial) (sent : W.State → Bytes) (R : IsRecording W sent) (p : SerialProtocol W)
    (cs : List Request) (b : Bytes) (s : W.State) (rs : List Response)
    → Frames cs b
    → (exchanges W p cs s).0 ≡ ok rs
    → (sent (exchanges W p cs s).1 ≡ sent s ++ b) × (count b'\n' b ≡ length cs + inner_newlines cs)
exchanges-sent W sent R p cs b s rs fs h =
    ((exchanges-Sends W sent R p cs b fs).at s rs h, Frames-count cs b fs)
