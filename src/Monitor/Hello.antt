-- ===== src/Monitor/Hello.antt =====
-- Windows Hello dialogs: pc/src/pywinhello/monitor/hello_detector.py. The window system and the
-- callbacks are what they answer, in an `Env`; the calls that a dialog leads to are logged.
pub mod Whitelist
pub mod Gate
pub mod Loop
use pywinhello.Prelude.{
  Bool, List, Option, [], false, if◌then◌else◌, none, some, true, ℕ, ◌&&◌, ◌++◌, ◌∷◌,
}
use pywinhello.Prelude.Dict.{Dict, insert, is_some, lookup}
use pywinhello.Prelude.Result.{Error, Result, attribute_error, err, ok}
use pywinhello.Prelude.Text.{Text, codes, text_eq}
use pywinhello.Prelude.Value.{Fields, Value, boolean, end, field, find_or, obj, truthy}

pub record AppWhitelist : Type 0 where
  pub apps : Dict Value
  pub auto_discover : Value

-- value.get("enabled", True) of a dict entry
abbrev enabled_of : Fields → Value
enabled_of fs = find_or (codes "enabled") (boolean true) fs

-- The loop over `apps_cfg.items()`: flags and dicts become entries, the lock screen does not.
unfoldable pub app_entries : Fields → Dict Value → Dict Value
app_entries end apps = apps
app_entries (field key (boolean b) rest) apps =
    app_entries rest
      (if text_eq key (codes "lock_screen") then apps else insert key (boolean b) apps)
app_entries (field key (obj fs) rest) apps =
    app_entries rest
      (if text_eq key (codes "lock_screen") then apps else insert key (enabled_of fs) apps)
app_entries (field key v rest) apps = app_entries rest apps

whitelist_of : Value → Result AppWhitelist
whitelist_of (obj fs) = ok (record {
  apps = app_entries fs [];
  auto_discover = find_or (codes "auto_discover") (boolean true) fs;
})
whitelist_of _ = err attribute_error

pub from_pico_config : Fields → Result AppWhitelist
unfolding whitelist_of
from_pico_config config = whitelist_of (find_or (codes "apps") (obj end) config)

-- The answer is used as a condition.
unfoldable pub is_allowed : AppWhitelist → Option Text → Bool
is_allowed w none = true
is_allowed w (some exe) = elim (lookup exe w.apps) [
  | some v ↦ truthy v
  | none ↦ truthy w.auto_discover
]

unfoldable pub add_app : AppWhitelist → Text → AppWhitelist × Bool
add_app w exe =
    if is_some (lookup exe w.apps)
    then (w, false)
    else (record w { apps = insert exe (boolean true) w.apps }, true)

pub data EventError : Type 0 where
  app_disabled : Option Text → EventError
  lost_focus fingerprint_mode stopped timed_out : EventError
  hello_failed : Error → EventError

-- AuthEvent of models.py, without the elapsed time.
pub record AuthEvent : Type 0 where
  pub owner_exe : Option Text
  pub pin_sent : Bool
  pub dialog_dismissed : Bool
  pub error : Option EventError

pub record Env : Type 0 where
  pub owner : Option Text
  pub foreground : ℕ → Bool
  pub on_hello : Result (Unit {0})
  pub dismissed : Result Bool
  pub dismissed_later : Result Bool
  pub has_escape : Bool
  pub has_new_app : Bool

pub data Action : Type 0 where
  new_app : Text → Action
  focus : Action
  check_foreground : Bool → Action
  send_hello : Action
  wait_for_dismiss : Action
  send_escape : Action

abbrev pub Handled : Type 0
Handled = AuthEvent × List Action

-- What follows the HELLO command that returned: dismissal, or ESCAPE for fingerprint mode and a second wait. A
-- wait that raises ends the `try`.
after_hello : Env → Option Text → Handled
after_hello env exe = elim env.dismissed [
  | ok true ↦ (
    record { owner_exe = exe; pin_sent = true; dialog_dismissed = true; error = none },
    wait_for_dismiss ∷ [],
  )
  | ok false ↦ (
    record {
      owner_exe = exe;
      pin_sent = true;
      dialog_dismissed = false;
      error = some (elim env.dismissed_later [ ok b ↦ fingerprint_mode | err e ↦ hello_failed e ]);
    },
    wait_for_dismiss
        ∷ (if env.has_escape then send_escape ∷ wait_for_dismiss ∷ [] else wait_for_dismiss ∷ []),
  )
  | err e ↦ (
    record {
      owner_exe = exe;
      pin_sent = true;
      dialog_dismissed = false;
      error = some (hello_failed e);
    },
    wait_for_dismiss ∷ [],
  )
]

-- The `try` around the HELLO command.
send_pin : Env → Option Text → Handled
send_pin env exe = elim env.on_hello [
  | ok u ↦ ((after_hello env exe).0, send_hello ∷ (after_hello env exe).1)
  | err e ↦ (
    record {
      owner_exe = exe;
      pin_sent = false;
      dialog_dismissed = false;
      error = some (hello_failed e);
    },
    send_hello ∷ [],
  )
]

refused : Option Text → EventError → AuthEvent
refused exe e = record {
  owner_exe = exe;
  pin_sent = false;
  dialog_dismissed = false;
  error = some e;
}

-- The final gate, the `n`th look at the foreground window, right before the command.
final_gate : Env → Option Text → ℕ → Handled
final_gate env exe n =
    if env.foreground n
    then ((send_pin env exe).0, check_foreground true ∷ (send_pin env exe).1)
    else (refused exe lost_focus, check_foreground false ∷ [])

-- Focus, look, and focus once more if need be.
focus_and_send : Env → Option Text → Handled
focus_and_send env exe =
    if env.foreground 0
    then ((final_gate env exe 1).0, focus ∷ check_foreground true ∷ (final_gate env exe 1).1)
    else if env.foreground 1
    then (
      (final_gate env exe 2).0,
      focus ∷ check_foreground false ∷ focus ∷ check_foreground true ∷ (final_gate env exe 2).1,
    )
    else (
      refused exe lost_focus,
      focus ∷ check_foreground false ∷ focus ∷ check_foreground false ∷ [],
    )

-- Auto-discovery: the whitelist after it, and the call of `on_new_app`.
pub discover : Env → AppWhitelist → AppWhitelist × List Action
discover env w = elim env.owner [
  | none ↦ (w, [])
  | some [] ↦ (w, [])
  | some (c ∷ s) ↦ (
    (add_app w (c ∷ s)).0,
    if (add_app w (c ∷ s)).1 && env.has_new_app then new_app (c ∷ s) ∷ [] else [],
  )
]

-- _handle_dialog: the event, the whitelist afterwards and the calls made.
pub handle_dialog : Env → AppWhitelist → AuthEvent × AppWhitelist × List Action
handle_dialog env w =
    let w' = (discover env w).0 in
    if is_allowed w' env.owner
    then (
      (focus_and_send env env.owner).0,
      w',
      (discover env w).1 ++ (focus_and_send env env.owner).1,
    )
    else (refused env.owner (app_disabled env.owner), w', (discover env w).1)

-- One round of the polling loop: whether a stop was asked for, and whether a dialog is seen.
pub record Poll : Type 0 where
  pub stop_set : Bool
  pub visible : Bool

pub data Next : Type 0 where
  dialog_seen stop_seen no_dialog : Next

-- The loop of `_handle_next` over the rounds that fit into the timeout.
unfoldable pub poll_dialog : List Poll → Next
poll_dialog [] = no_dialog
poll_dialog (p ∷ rest) =
    let later = poll_dialog rest in
    if p.stop_set then stop_seen else if p.visible then dialog_seen else later

pub outcome : Next → Env → AppWhitelist → AuthEvent × AppWhitelist × List Action
unfolding refused
outcome dialog_seen env w = handle_dialog env w
outcome stop_seen env w = (refused none stopped, w, [])
outcome no_dialog env w = (refused none timed_out, w, [])

pub handle_next : Bool → List Poll → Env → AppWhitelist → AuthEvent × AppWhitelist × List Action
unfolding outcome
handle_next visible_now rounds env w =
    outcome (if visible_now then dialog_seen else poll_dialog rounds) env w
