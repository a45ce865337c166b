-- ===== src/Serial/Protocol/Ping.antt =====
-- Device metadata in PING responses: `parse_ping` of pc/src/pywinhello/serial/protocol.py.
use pywinhello.Prelude.{[], ap, arith, false, refl, some, true, ℕ, ◌++◌, ◌↔◌, ◌∷◌, ◌≡◌}
use pywinhello.Prelude.Int.{pos, ℤ}
use pywinhello.Prelude.Result.{err, ok, value_error}
use pywinhello.Prelude.Text.{Text, codes, has_char, starts_with, strip, text_eq}
use pywinhello.Prelude.Text.Split.{Lacks, parse_int, split-Lacks, split_at_sep}
use pywinhello.Serial.Protocol.{Response, colon_info, parse_ping, proto_number, without_v}

has_char-append_self : (c : ℕ) (s t : Text) → has_char c (s ++ (c ∷ t)) ≡ true
unfolding has_char
has_char-append_self c [] t = ground arith
has_char-append_self c (a ∷ s) t = ground (arith, has_char-append_self c s t)

has_char-Lacks : (c : ℕ) (s : Text) → Lacks c s → has_char c s ≡ false
unfolding has_char
has_char-Lacks c [] h = refl
has_char-Lacks c (a ∷ s) (ha, h) = ground (arith, has_char-Lacks c s h)

nonempty : (s : Text) (c : ℕ) (t : Text) → text_eq (s ++ (c ∷ t)) [] ≡ false
unfolding text_eq
nonempty [] c t = refl
nonempty (a ∷ s) c t = refl

Lacks-append : (c : ℕ) (s t : Text) → Lacks c s → Lacks c t → Lacks c (s ++ t)
Lacks-append c [] t hs ht = ht
Lacks-append c (a ∷ s) t (ha, hs) ht = (ha, Lacks-append c s t hs ht)

abbrev success : Text → Text → Response
success raw d = record { raw = raw; ok? = true; payload = d }

-- The comma format: the board and the version around the first comma, trimmed, as protocol 2.
pub parse_ping-comma :
    (raw d v : Text)
    → Lacks b',' d
    → Lacks b',' v
    → parse_ping (record { raw = raw; ok? = true; payload = d ++ (b',' ∷ v) })
      ≡ ok (record { protocol_version = pos 2; device_type = strip d; firmware_version = strip v })
unfolding parse_ping
parse_ping-comma raw d v hd hv = rw (
  nonempty d b',' v,
  has_char-append_self b',' d v,
  split_at_sep b',' d v hd,
  split-Lacks b',' v hv,
)

without_v_lem : (p : Text) → starts_with p (codes "v") ≡ false → without_v p ≡ p
unfolding without_v
without_v_lem p nv = ground arith

proto_number_lem :
    (p : Text) (n : ℤ)
    → starts_with p (codes "v") ≡ false
    → parse_int p ≡ some n
    → proto_number p ≡ n
unfolding proto_number
proto_number_lem p n nv e = ground (arith, ap parse_int (without_v_lem p nv))

-- The colon format: three parts give protocol number, board and version.
pub parse_ping-colon :
    (raw p d v : Text) (n : ℤ)
    → Lacks b',' (p ++ (b':' ∷ (d ++ (b':' ∷ v))))
    → Lacks b':' p
    → Lacks b':' d
    → Lacks b':' v
    → parse_int p ≡ some n
    → starts_with p (codes "v") ≡ false
    → parse_ping (record { raw = raw; ok? = true; payload = p ++ (b':' ∷ (d ++ (b':' ∷ v))) })
      ≡ ok (record { protocol_version = n; device_type = d; firmware_version = v })
unfolding parse_ping
parse_ping-colon raw p d v n hc hp hd hv e nv =
    rw
      (
        nonempty p b':' (d ++ (b':' ∷ v)),
        has_char-Lacks b',' _ hc,
        split_at_sep b':' p (d ++ (b':' ∷ v)) hp,
        split_at_sep b':' d v hd,
        split-Lacks b':' v hv,
      )
      (unfold colon_info in rw (proto_number_lem p n nv e))

-- Two parts around a colon are not read as protocol and board: the first part becomes the board
-- and the second is dropped.
pub parse_ping-two_parts :
    (raw p d : Text)
    → Lacks b',' (p ++ (b':' ∷ d))
    → Lacks b':' p
    → Lacks b':' d
    → parse_ping (record { raw = raw; ok? = true; payload = p ++ (b':' ∷ d) })
      ≡ ok (record { protocol_version = pos 2; device_type = p; firmware_version = codes "0.0.0" })
unfolding parse_ping
parse_ping-two_parts raw p d hc hp hd =
    rw
      (nonempty p b':' d, has_char-Lacks b',' _ hc, split_at_sep b':' p d hp, split-Lacks b':' d hd)

-- A PING is refused exactly when its response is an error; every other response, however
-- malformed, gives metadata.
pub parse_ping-refuses_iff : (r : Response) → (parse_ping r ≡ err value_error) ↔ (r.ok? ≡ false)
unfolding parse_ping
parse_ping-refuses_iff r = ground arith
