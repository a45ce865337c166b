-- ===== src/Serial/Flasher/Stream.antt =====
-- The chunks that `flash_firmware` writes spell the image: the loop of
-- pc/src/pywinhello/serial/flasher.py.
use pywinhello.Prelude.{
  [], arith, drop, length, length-drop, ltb, min, refl, subst, suc, sym, take, take-append-drop,
  zero, ℕ, ◌+◌, ◌<◌, ◌∷◌, ◌≡◌, ◌≤◌,
}
use pywinhello.Prelude.Exec.{Exec, pure}
use pywinhello.Serial.Flasher.{stream}
use pywinhello.Serial.Link.{SerialProtocol, write_raw}
use pywinhello.Serial.Link.Exchange.{
  Sends, Sends-bind, Sends-elim, Sends-pure, Sends-write_raw, quiet_bind,
}
use pywinhello.Serial.Port.{IsRecording, Pyserial}
use pywinhello.Serial.Protocol.{Bytes}

empty_of_length : (b : Bytes) → length b ≡ 0 → b ≡ []
empty_of_length [] h = refl
empty_of_length (x ∷ b) h = absurd (omega arith)

module _ (W : Pyserial) (sent : W.State → Bytes) (R : IsRecording W sent) (p : SerialProtocol W)
    (on_progress : ℕ → ℕ → Exec W.State (Unit {0}))
    (quiet : (i n : ℕ) (s : W.State) → sent (on_progress i n s).1 ≡ sent s) (size chunk : ℕ)
    (some_chunk : 0 < chunk) where
  next_round :
      (offset : ℕ) (rest : Bytes)
      → offset + length rest ≡ size
      → min (offset + chunk) size + length (drop chunk rest) ≡ size
  next_round offset rest h = omega (arith, length-drop chunk rest)

  fewer_rounds :
      (fuel : ℕ) (rest : Bytes) → length rest ≤ suc fuel → length (drop chunk rest) ≤ fuel
  fewer_rounds fuel rest h = omega (arith, length-drop chunk rest)

  -- With a round of fuel for each byte, the loop that returns has written the rest of the image:
  -- all of it, in order and nothing else.
  pub stream-Sends :
      (fuel offset : ℕ) (rest : Bytes)
      → offset + length rest ≡ size
      → length rest ≤ fuel
      → Sends W sent (stream W p on_progress size chunk fuel offset rest) rest
  unfolding stream
  stream-Sends zero offset rest h enough =
      subst (Sends W sent (pure tt)) (sym (empty_of_length rest (omega arith)))
        (Sends-pure W sent tt)
  stream-Sends (suc fuel) offset rest h enough =
      Sends-elim W sent (ltb offset size) _ (pure tt) rest
        (λ more. subst (Sends W sent _) (take-append-drop chunk rest) (
          Sends-bind W sent (write_raw W p (take chunk rest)) _ (take chunk rest) (drop chunk rest)
            (Sends-write_raw W sent R p (take chunk rest))
            λ _.
              quiet_bind W sent (on_progress (min (offset + chunk) size) size) _ _ (quiet _ _) λ _.
                stream-Sends fuel (min (offset + chunk) size) (drop chunk rest)
                  (next_round offset rest h) (fewer_rounds fuel rest enough)))
        (λ done.
          subst (Sends W sent (pure tt)) (sym (empty_of_length rest (ground arith)))
            (Sends-pure W sent tt))
