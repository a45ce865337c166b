-- ===== src/Serial/Protocol/Framing.antt =====
-- Encoded commands as lines: `encode_command` of pc/src/pywinhello/serial/protocol.py.
use pywinhello.Prelude.{
  Option, [], ap, append_assoc, arith, count, count-append, if◌then◌else◌, none, refl, some, sym, ℕ,
  ◌++◌, ◌==◌, ◌∙◌, ◌∷◌, ◌≡◌,
}
use pywinhello.Prelude.Result.{>>=-eq-ok, Result, err, ok, ok-injective, ◌>>=◌}
use pywinhello.Prelude.Text.{Text, codes}
use pywinhello.Serial.Protocol.{
  Bytes, Command, command_line, command_name, encode_command, ping, utf8, utf8_char,
}

utf8_char-count :
    (c : ℕ) (b : Bytes) → utf8_char c ≡ ok b → count b'\n' b ≡ (if c == b'\n' then 1 else 0)
unfolding utf8_char
utf8_char-count c b h = ground arith

bind_regroup :
    (m n k : Result Bytes)
    → (do a ← m; b ← (do x ← n; y ← k; ok (x ++ y)); ok (a ++ b))
      ≡ (do a ← (do x ← m; y ← n; ok (x ++ y)); b ← k; ok (a ++ b))
bind_regroup (err e) n k = refl
bind_regroup (ok a) (err e) k = refl
bind_regroup (ok a) (ok b) (err e) = refl
bind_regroup (ok a) (ok b) (ok c) = ap ok (sym (append_assoc a b c))

utf8-append : (s t : Text) → utf8 (s ++ t) ≡ (do a ← utf8 s; b ← utf8 t; ok (a ++ b))
unfolding utf8
utf8-append [] t = ground arith
utf8-append (c ∷ s) t = rw (utf8-append s t) (bind_regroup (utf8_char c) (utf8 s) (utf8 t))

utf8-count : (s : Text) (b : Bytes) → utf8 s ≡ ok b → count b'\n' b ≡ count b'\n' s
unfolding utf8
utf8-count [] b h = ground arith
utf8-count (c ∷ s) b h =
    let (x, hx, r) = >>=-eq-ok (utf8_char c) _ h in
    let (y, hy, e) = >>=-eq-ok (utf8 s) _ r in
    ground
      (arith, utf8_char-count c x hx, utf8-count s y hy, count-append b'\n' x y, ok-injective e)

-- A text that ends in a newline encodes to bytes that end in a newline.
utf8-ends :
    (s : Text) (b : Bytes)
    → utf8 (s ++ codes "\n") ≡ ok b
    → (body : Bytes) × (utf8 s ≡ ok body) × (b ≡ body ++ (b'\n' ∷ []))
utf8-ends s b h =
    let (x, hx, r) = >>=-eq-ok (utf8 s) _ (rw (utf8-append s (codes "\n")) at h) in
    (x, hx, unfold utf8 utf8_char in ground arith)

command_body : Command → Option Text → Text
command_body c none = command_name c
command_body c (some payload) = command_name c ++ (codes ":" ++ payload)

command_line_lem :
    (c : Command) (payload : Option Text)
    → command_line c payload ≡ command_body c payload ++ codes "\n"
unfolding command_line command_body
command_line_lem c none = refl
command_line_lem c (some p) = rw (append_assoc (command_name c) (codes ":" ++ p) (codes "\n"))

command_name-count : (c : Command) → count b'\n' (command_name c) ≡ 0
unfolding command_name
command_name-count ping = refl
command_name-count _ = refl

abbrev pub payload_newlines : Option Text → ℕ
payload_newlines none = 0
payload_newlines (some p) = count b'\n' p

command_body-count :
    (c : Command) (payload : Option Text)
    → count b'\n' (command_body c payload) ≡ payload_newlines payload
unfolding command_body
command_body-count c none = command_name-count c
command_body-count c (some p) =
    ground (arith, count-append b'\n' (command_name c) (codes ":" ++ p), command_name-count c)

-- What is sent for a command ends in a newline, and holds before that exactly the newlines of
-- the payload: one line is sent exactly when the payload, if any, holds none.
pub encode_command-frames :
    (c : Command) (payload : Option Text) (b : Bytes)
    → encode_command c payload ≡ ok b
    → (body : Bytes) × (b ≡ body ++ (b'\n' ∷ [])) × (count b'\n' body ≡ payload_newlines payload)
unfolding encode_command
encode_command-frames c payload b h =
    let (x, hx, e) = utf8-ends (command_body c payload) b (rw (command_line_lem c payload) at h) in
    (x, e, utf8-count _ x hx ∙ command_body-count c payload)
