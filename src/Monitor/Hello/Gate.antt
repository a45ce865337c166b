-- ===== src/Monitor/Hello/Gate.antt =====
-- When the PIN is typed: `_handle_dialog` of pc/src/pywinhello/monitor/hello_detector.py.
use pywinhello.Monitor.Hello.{
  Action, AppWhitelist, AuthEvent, Env, add_app, after_hello, app_disabled, check_foreground,
  discover, final_gate, focus, focus_and_send, handle_dialog, hello_failed, is_allowed, new_app,
  refused, send_escape, send_hello, send_pin, wait_for_dismiss,
}
use pywinhello.Prelude.{
  Bool, List, Option, [], arith, false, if◌then◌else◌, none, some, suc, true, ℕ, ◌++◌, ◌||◌, ◌∷◌,
  ◌≡◌,
}
use pywinhello.Prelude.Dict.{lookup, lookup-insert}
use pywinhello.Prelude.Result.{ok}
use pywinhello.Prelude.Text.{Text, text_eq_refl}
use pywinhello.Prelude.Value.{Value, boolean, truthy}

-- Every HELLO follows directly on a look at the foreground window that found the dialog there.
-- The flag says whether the action before was such a look.
abbrev pub Guarded : Bool → List Action → Type 0
Guarded looked [] = Unit
Guarded looked (send_hello ∷ later) = (looked ≡ true) × Guarded false later
Guarded looked (check_foreground found ∷ later) = Guarded found later
Guarded looked (new_app exe ∷ later) = Guarded false later
Guarded looked (focus ∷ later) = Guarded false later
Guarded looked (wait_for_dismiss ∷ later) = Guarded false later
Guarded looked (send_escape ∷ later) = Guarded false later

abbrev pub hellos : List Action → ℕ
hellos [] = 0
hellos (send_hello ∷ later) = suc (hellos later)
hellos (_ ∷ later) = hellos later

-- A HELLO was attempted: its PIN was sent, or the command raised.
abbrev pub attempted : AuthEvent → Bool
attempted e = e.pin_sent || elim e.error [ some (hello_failed c) ↦ true | _ ↦ false ]

send_pin-Guarded : (env : Env) (exe : Option Text) → Guarded true (send_pin env exe).1
unfolding send_pin after_hello
send_pin-Guarded env exe = ground arith

final_gate-Guarded :
    (env : Env) (exe : Option Text) (n : ℕ) (b : Bool) → Guarded b (final_gate env exe n).1
unfolding final_gate
final_gate-Guarded env exe n b = ground (arith, send_pin-Guarded env exe)

focus_and_send-Guarded :
    (env : Env) (exe : Option Text) (b : Bool) → Guarded b (focus_and_send env exe).1
unfolding focus_and_send
focus_and_send-Guarded env exe b =
    ground (arith, final_gate-Guarded env exe 1 true, final_gate-Guarded env exe 2 true)

pub Guarded-discover :
    (env : Env) (w : AppWhitelist) (later : List Action)
    → Guarded false later
    → Guarded false ((discover env w).1 ++ later)
unfolding discover
Guarded-discover env w later h = ground arith

discover-Guarded : (env : Env) (w : AppWhitelist) → Guarded false (discover env w).1
unfolding discover
discover-Guarded env w = ground arith

-- Whatever the window system and the callbacks answer, the PIN is asked for only directly after
-- the dialog was seen to be the foreground window.
pub handle_dialog-Guarded : (env : Env) (w : AppWhitelist) → Guarded false (handle_dialog env w).2
unfolding handle_dialog
handle_dialog-Guarded env w = ground (
  arith,
  discover-Guarded env w,
  Guarded-discover env w (focus_and_send env env.owner).1
      (focus_and_send-Guarded env env.owner false),
)

send_pin-hellos :
    (env : Env) (exe : Option Text)
    → (hellos (send_pin env exe).1 ≡ 1) × (attempted (send_pin env exe).0 ≡ true)
unfolding send_pin after_hello
send_pin-hellos env exe = ground arith

final_gate-hellos :
    (env : Env) (exe : Option Text) (n : ℕ)
    → hellos (final_gate env exe n).1 ≡ (if attempted (final_gate env exe n).0 then 1 else 0)
unfolding final_gate refused
final_gate-hellos env exe n = ground (arith, send_pin-hellos env exe)

focus_and_send-hellos :
    (env : Env) (exe : Option Text)
    → hellos (focus_and_send env exe).1 ≡ (if attempted (focus_and_send env exe).0 then 1 else 0)
unfolding focus_and_send refused
focus_and_send-hellos env exe =
    ground (arith, final_gate-hellos env exe 1, final_gate-hellos env exe 2)

pub discover-hellos :
    (env : Env) (w : AppWhitelist) (later : List Action)
    → hellos ((discover env w).1 ++ later) ≡ hellos later
unfolding discover
discover-hellos env w later = ground arith

discover-hellos_none : (env : Env) (w : AppWhitelist) → hellos (discover env w).1 ≡ 0
unfolding discover
discover-hellos_none env w = ground arith

-- A dialog is answered by one HELLO at most, and by one exactly when the event says that the PIN
-- was sent or that the command failed.
pub handle_dialog-hellos :
    (env : Env) (w : AppWhitelist)
    → hellos (handle_dialog env w).2 ≡ (if attempted (handle_dialog env w).0 then 1 else 0)
unfolding handle_dialog refused
handle_dialog-hellos env w = ground (
  arith,
  discover-hellos_none env w,
  discover-hellos env w (focus_and_send env env.owner).1,
  focus_and_send-hellos env env.owner,
)

pub discover_known :
    (env : Env) (w : AppWhitelist) (exe : Text) (v : Value)
    → env.owner ≡ some exe
    → lookup exe w.apps ≡ some v
    → discover env w ≡ (w, [])
unfolding discover add_app
discover_known env w [] v o l = ground arith
discover_known env w (c ∷ s) v o l = ground arith

discover_unknown :
    (env : Env) (w : AppWhitelist) (c : ℕ) (s : Text)
    → env.owner ≡ some (c ∷ s)
    → lookup (c ∷ s) w.apps ≡ none
    → lookup (c ∷ s) (discover env w).0.apps ≡ some (boolean true)
unfolding discover add_app
discover_unknown env w c s o l =
    ground (arith, lookup-insert (c ∷ s) (c ∷ s) (boolean true) w.apps, text_eq_refl (c ∷ s))

focus_and_send-sent :
    (env : Env) (exe : Option Text)
    → env.foreground 0 ≡ true
    → env.foreground 1 ≡ true
    → env.on_hello ≡ ok tt
    → (focus_and_send env exe).0.pin_sent ≡ true
unfolding focus_and_send final_gate send_pin after_hello
focus_and_send-sent env exe f g h = ground arith

-- An app that the whitelist disables gets no HELLO: nothing at all is called, the whitelist stays
-- as it is, and the event says why.
pub handle_dialog_disabled :
    (env : Env) (w : AppWhitelist) (exe : Text) (v : Value)
    → env.owner ≡ some exe
    → lookup exe w.apps ≡ some v
    → truthy v ≡ false
    → handle_dialog env w ≡ (
      record {
        owner_exe = some exe;
        pin_sent = false;
        dialog_dismissed = false;
        error = some (app_disabled (some exe));
      },
      w,
      [],
    )
unfolding handle_dialog is_allowed refused
handle_dialog_disabled env w exe v o l t = rw (discover_known env w exe v o l) (ground arith)

-- An app that the whitelist does not know is enabled and answered, also where `auto_discover`
-- is off: with the dialog in front and a HELLO that returns, its PIN is sent.
pub handle_dialog_unknown :
    (env : Env) (w : AppWhitelist) (c : ℕ) (s : Text)
    → env.owner ≡ some (c ∷ s)
    → lookup (c ∷ s) w.apps ≡ none
    → truthy w.auto_discover ≡ false
    → ((n : ℕ) → env.foreground n ≡ true)
    → env.on_hello ≡ ok tt
    → ((handle_dialog env w).0.pin_sent ≡ true)
      × (lookup (c ∷ s) (handle_dialog env w).1.apps ≡ some (boolean true))
unfolding handle_dialog is_allowed truthy
handle_dialog_unknown env w c s o l a f h =
    ground (arith, discover_unknown env w c s o l, focus_and_send-sent env env.owner (f 0) (f 1) h)
