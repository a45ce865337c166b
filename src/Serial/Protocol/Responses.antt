-- ===== src/Serial/Protocol/Responses.antt =====
-- Responses on the wire: `parse_response` of pc/src/pywinhello/serial/protocol.py.
use mathlib.Core.List.{reverse-append}
use pywinhello.Prelude.{
  Bool, [], ap, append_assoc, arith, drop_while_stop, false, refl, reverse, true, ◌++◌, ◌↔◌, ◌∙◌,
  ◌∷◌, ◌≡◌, ◌⊎◌,
}
use pywinhello.Prelude.Text.{Text, codes, is_space, starts_with, strip, text_eq, text_eq_iff}
use pywinhello.Prelude.Text.Strip.{IsBlank, IsRightTrimmed, strip-append}
use pywinhello.Serial.Protocol.{parse_response, parse_stripped}

-- The lines that the protocol documents.
pub data Reply : Type 0 where
  done pong ready : Reply
  done_with pong_with failed : Text → Reply

abbrev pub content : Reply → Text
content (done_with d) = d
content (pong_with d) = d
content (failed m) = m
content _ = []

abbrev pub succeeds : Reply → Bool
succeeds (failed m) = false
succeeds _ = true

abbrev pub render : Reply → Text
render done = codes "OK"
render pong = codes "PONG"
render ready = codes "READY"
render (done_with d) = codes "OK:" ++ d
render (pong_with d) = codes "PONG:" ++ d
render (failed m) = codes "ERR:" ++ m

IsRightTrimmed-colon : (p d : Text) → IsRightTrimmed d → IsRightTrimmed (p ++ (b':' ∷ d))
IsRightTrimmed-colon p d h =
    let e : reverse (p ++ (b':' ∷ d)) ≡ reverse d ++ (b':' ∷ reverse p) =
      reverse-append p (b':' ∷ d)
      ∙ ap (λ l. l ++ reverse p) (reverse-append (b':' ∷ []) d)
      ∙ append_assoc (reverse d) (b':' ∷ []) (reverse p) in
    rw e (drop_while_stop is_space (reverse d) b':' (reverse p) h (unfold is_space in refl))

strip-render :
    (r : Reply) (w : Text)
    → IsRightTrimmed (content r)
    → IsBlank w
    → strip (render r ++ w) ≡ render r
unfolding is_space
strip-render done w h hw = strip-append b'O' (codes "K") w refl refl hw
strip-render pong w h hw = strip-append b'P' (codes "ONG") w refl refl hw
strip-render ready w h hw = strip-append b'R' (codes "EADY") w refl refl hw
strip-render (done_with d) w h hw =
    strip-append b'O' (codes "K:" ++ d) w refl (IsRightTrimmed-colon (codes "OK") d h) hw
strip-render (pong_with d) w h hw =
    strip-append b'P' (codes "ONG:" ++ d) w refl (IsRightTrimmed-colon (codes "PONG") d h) hw
strip-render (failed m) w h hw =
    strip-append b'E' (codes "RR:" ++ m) w refl (IsRightTrimmed-colon (codes "ERR") m h) hw

parse_stripped-render :
    (r : Reply)
    → parse_stripped (render r) ≡ record { raw = render r; ok? = succeeds r; payload = content r }
unfolding parse_stripped text_eq starts_with
parse_stripped-render done = refl
parse_stripped-render _ = refl

-- Each documented line is read back with its status and its content, whatever white space ends
-- the line, if the content itself does not end in white space.
pub parse_response-render :
    (r : Reply) (w : Text)
    → IsRightTrimmed (content r)
    → IsBlank w
    → parse_response (render r ++ w)
      ≡ record { raw = render r; ok? = succeeds r; payload = content r }
unfolding parse_response
parse_response-render r w h hw = rw (strip-render r w h hw) (parse_stripped-render r)

-- A response counts as a failure exactly when the stripped line is empty or begins with "ERR:";
-- any other line, known or not, counts as a success.
pub parse_response-fails_iff :
    (raw : Text)
    → ((parse_response raw).ok? ≡ false)
      ↔ ((strip raw ≡ []) ⊎ (starts_with (strip raw) (codes "ERR:") ≡ true))
unfolding parse_response parse_stripped
parse_response-fails_iff raw = ground (arith, text_eq_iff (strip raw) [])
