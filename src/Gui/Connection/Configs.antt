-- ===== src/Gui/Connection/Configs.antt =====
-- What the window takes for a configuration: `_PicoConnection` of pc/src/pywinhello/gui/app.py.
use pywinhello.Serial.Link
use pywinhello.Gui.Connection.{Gui, get_config, is_live, or_empty, talk}
use pywinhello.Gui.Connection.Commands.{talk-ok}
use pywinhello.Prelude.{Bool-cases, [], ap, inl, inr, none, refl, sym, ◌∙◌, ◌≡◌, ◌⊎◌}
use pywinhello.Prelude.Exec.{>>=-cases, Exec, lift}
use pywinhello.Prelude.Result.{Result-cases, ok}
use pywinhello.Prelude.Text.{Text, text_eq}
use pywinhello.Prelude.Value.{Value, end, obj}
use pywinhello.Serial.Link.{SerialProtocol, response_json, send_checked}
use pywinhello.Serial.Port.{Pyserial}
use pywinhello.Serial.Protocol.{Command, Response}

module _ (W : Pyserial) where
  response_json-loads :
      (r : Response) (v : Value) → response_json W r ≡ ok v → (text : Text) × (W.loads text ≡ ok v)
  unfolding response_json
  response_json-loads r v h = elim (Bool-cases (text_eq r.payload [])) [
    | inl e ↦ let k = rw e at h in cc
    | inr e ↦ (r.payload, rw e at h)
  ]

  or_empty-cases :
      (f : SerialProtocol W → Exec W.State Value) (g : Gui W) (P : Value → Type 0)
      → P (obj end)
      → ((p : SerialProtocol W) (s : W.State) (v : Value) → (f p s).0 ≡ ok v → P v)
      → P (or_empty W (talk W f) g).0
  unfolding or_empty
  or_empty-cases f (c, s) P h k = elim (Bool-cases (is_live W c)) [
    | inr e ↦ rw e h
    | inl e ↦ elim (Result-cases (talk W f (c, s)).0) [
      | inl (v, q) ↦ let (p, x, y, z) = talk-ok W f c s v q in rw (e, q) (k p s v y)
      | inr (x, q) ↦ rw (e, q) h
    ]
  ]

  link_config-loads :
      (p : SerialProtocol W) (s : W.State) (v : Value)
      → (Link.get_config W p s).0 ≡ ok v
      → (text : Text) × (W.loads text ≡ ok v)
  unfolding Link.get_config
  link_config-loads p s v h =
      elim (>>=-cases (send_checked W p Command.get_config none) (λ r. lift (response_json W r))
        s) [
          | inl (r, a, e) ↦ response_json-loads r v (sym (ap (λ x. x.0) e) ∙ h)
          | inr (x, a, e) ↦ let k = sym (ap (λ x. x.0) e) ∙ h in cc
        ]

  -- A configuration is {} or what `json.loads` made of a text.
  pub get_config-loads :
      (g : Gui W)
      → ((get_config W g).0 ≡ obj end) ⊎ ((text : Text) × (W.loads text ≡ ok (get_config W g).0))
  unfolding get_config
  get_config-loads g =
      or_empty-cases (Link.get_config W) g
        (λ v. (v ≡ obj end) ⊎ ((text : Text) × (W.loads text ≡ ok v))) (inl refl)
        (λ p s v h. inr (link_config-loads p s v h))
