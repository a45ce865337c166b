-- ===== src/Gui/Steps/PinStep.antt =====
-- pc/src/pywinhello/gui/wizard/step_pin.py: the PIN is sent to the Pico.
use pywinhello.Serial.Link
use pywinhello.Gui.Connection.{port}
use pywinhello.Gui.Constants.{validate_pin}
use pywinhello.Prelude.{Bool, Option, false, none, some, true}
use pywinhello.Prelude.Result.{Result, err, ok}
use pywinhello.Prelude.Text.{Text}
use pywinhello.Serial.Link.{SerialProtocol, open_protocol}
use pywinhello.Serial.Port.{Pyserial}

pub record PinStep : Type 0 where
  pub registered : Bool
  pub error_key : Option Text

abbrev pub new_pin_step : PinStep
new_pin_step = record { registered = false; error_key = none }

on_pin_success : PinStep → PinStep
on_pin_success st = record st { registered = true }

on_pin_failed : PinStep → PinStep
on_pin_failed st = record st { registered = false }

module _ (W : Pyserial) where
  -- What the `with` block posts: an exception of `setup_pin` or of the close after it is a failure.
  after_setup : Result (Unit {0}) → Result (Unit {0}) → PinStep → PinStep
  unfolding on_pin_success on_pin_failed
  after_setup (ok u) (ok v) st = on_pin_success st
  after_setup (ok u) (err e) st = on_pin_failed (on_pin_success st)
  after_setup (err e) r st = on_pin_failed st

  setup_and_close : Text → PinStep → SerialProtocol W → W.State → PinStep × W.State
  unfolding after_setup
  setup_and_close pin st p s =
      let r = Link.setup_pin W p pin s in
      let c = Link.close W p r.1 in (after_setup r.0 c.0 st, c.1)

  opened : Text → PinStep → Result (SerialProtocol W) → W.State → PinStep × W.State
  unfolding setup_and_close on_pin_failed
  opened pin st (ok p) s = setup_and_close pin st p s
  opened pin st (err e) s = (on_pin_failed st, s)

  -- SerialProtocol(port=port), in its own `with` block
  send_pin : Option Text → Text → PinStep → W.State → PinStep × W.State
  unfolding opened on_pin_failed
  send_pin none pin st s = (on_pin_failed st, s)
  send_pin (some port) pin st s =
      opened pin st (open_protocol W port 115200 s).0 (open_protocol W port 115200 s).1

  on_valid : Option Text → Option Text → Text → PinStep → W.State → PinStep × W.State
  unfolding send_pin
  on_valid (some key) port pin st s = (record st { error_key = some key }, s)
  on_valid none port pin st s = send_pin port pin (record st { error_key = none }) s

  -- `_on_register` and its thread, over the two entries and the port of the first step.
  unfoldable pub register : Option Text → Text → Text → PinStep → W.State → PinStep × W.State
  unfolding on_valid
  register port pin confirm st s = on_valid (validate_pin pin (some confirm)) port pin st s
