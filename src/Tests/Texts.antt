-- ===== src/Tests/Texts.antt =====
-- Lines of the protocol and versions.
use pywinhello.Prelude.{==_iff, [], arith, false, refl, true, ℕ, ◌∷◌, ◌≡◌}
use pywinhello.Prelude.Text.{Text, codes, has_char, is_space, strip}
use pywinhello.Prelude.Text.Split.{Lacks}
use pywinhello.Serial.Protocol.{parse_response}
use pywinhello.Serial.Protocol.Responses.{done_with, parse_response-render}

has_char-Lacks : (c : ℕ) (s : Text) → has_char c s ≡ false → Lacks c s
unfolding has_char
has_char-Lacks c [] h = tt
has_char-Lacks c (d ∷ s) h =
    (λ e. absurd (ground (arith, ==_iff d c)), has_char-Lacks c s (ground arith))

parse_response-render_example :
    parse_response (codes "OK:done\r\n")
    ≡ record { raw = codes "OK:done"; ok? = true; payload = codes "done" }
unfolding strip is_space
parse_response-render_example =
    parse_response-render (done_with (codes "done")) (codes "\r\n") refl refl
