-- ===== src/Monitor/Hello/Loop.antt =====
-- `_detection_loop` of pc/src/pywinhello/monitor/hello_detector.py: the rounds of the thread, with what raises in
-- them.
pub mod Answers
pub mod Disabled
use pywinhello.Monitor.Hello.{
  Action, AppWhitelist, AuthEvent, Env, EventError, Poll, app_disabled, check_foreground, discover,
  fingerprint_mode, focus, handle_next, hello_failed, lost_focus, stopped, timed_out,
}
use pywinhello.Prelude.{
  Bool, List, [], false, if◌then◌else◌, none, some, suc, true, zero, ℕ, ◌++◌, ◌∷◌,
}
use pywinhello.Prelude.Result.{Error}
use pywinhello.Prelude.Text.{codes, contains}
use pywinhello.Serial.Device.{error}

-- A round: `_handle_next` returns; it raises before the dialog is handled, in a look for the dialog or for
-- its owner; or it raises in the `n`th look at the foreground window, or in the focus before that look, for an app that is allowed.
pub data Round : Type 0 where
  returns : Bool → List Poll → Env → Round
  raises_waiting : Round
  raises_looking : Env → ℕ → Round

-- What was called until a look raised.
pub looks : Env → ℕ → List Action
looks env zero = focus ∷ []
looks env (suc zero) =
    if env.foreground 0
    then focus ∷ check_foreground true ∷ []
    else focus ∷ check_foreground false ∷ focus ∷ []
looks env (suc (suc n)) = focus ∷ check_foreground false ∷ focus ∷ check_foreground true ∷ []

-- "Timeout" in event.error, by what the text of an exception says.
pub is_timeout : (Error → Bool) → EventError → Bool
is_timeout says timed_out = true
is_timeout says (app_disabled none) = false
is_timeout says (app_disabled (some exe)) = contains (codes "Timeout") exe
is_timeout says (hello_failed e) = says e
is_timeout says lost_focus = false
is_timeout says fingerprint_mode = false
is_timeout says stopped = false

-- The events that on_event is called with.
pub reported : (Error → Bool) → AuthEvent → List AuthEvent
unfolding is_timeout
reported says e = elim e.error [ none ↦ e ∷ [] | some c ↦ if is_timeout says c then [] else e ∷ [] ]

-- The whitelist, the calls and the reports.
pub record Detected : Type 0 where
  pub whitelist : AppWhitelist
  pub calls : List Action
  pub reports : List AuthEvent

pub round_of : (Error → Bool) → Round → AppWhitelist → Detected
unfolding reported looks
round_of says (returns visible polls env) w =
    let r = handle_next visible polls env w in
    record { whitelist = r.1; calls = r.2; reports = reported says r.0 }
round_of says raises_waiting w = record { whitelist = w; calls = []; reports = [] }
round_of says (raises_looking env n) w =
    let d = discover env w in record { whitelist = d.0; calls = d.1 ++ looks env n; reports = [] }

-- The rounds before the stop event is set.
pub detection_loop : (Error → Bool) → List Round → AppWhitelist → Detected
unfolding round_of
detection_loop says [] w = record { whitelist = w; calls = []; reports = [] }
detection_loop says (r ∷ rounds) w =
    let first = round_of says r w in
    let later = detection_loop says rounds first.whitelist in
    record {
      whitelist = later.whitelist;
      calls = first.calls ++ later.calls;
      reports = first.reports ++ later.reports;
    }
