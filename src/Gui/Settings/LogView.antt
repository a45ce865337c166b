-- ===== src/Gui/Settings/LogView.antt =====
-- pc/src/pywinhello/gui/settings/log_view.py: the last events of the Pico's log. `tr` is `t` with the
-- active locale.
use mathlib.Core.List.{reverse-append}
use pywinhello.Gui.Connection.{Gui, send_command}
use pywinhello.Gui.Settings.Saving.{payload_of}
use pywinhello.Prelude.{
  List, Option, [], ap, arith, drop, false, if◌then◌else◌, length, length-append, length-drop, none,
  refl, reverse, some, suc, ◌++◌, ◌-◌, ◌∙◌, ◌∷◌, ◌≡◌, ◌≤◌,
}
use pywinhello.Prelude.Int.{pos}
use pywinhello.Prelude.Result.{Result, err, ok, type_error, ◌>>=◌}
use pywinhello.Prelude.Text.{Text, codes, text_eq}
use pywinhello.Prelude.Text.Split.{join}
use pywinhello.Prelude.Value.{
  Fields, Value, arr, boolean, end, field, float, get_field, int, items_list, null, obj, str,
  truthy,
}
use pywinhello.Serial.Port.{Pyserial}

-- _EVENT_TYPES.get(event_type); a list or a dict cannot be looked up.
event_key : Value → Result (Option Text)
event_key (str s) = ok (
    if text_eq s (codes "boot_unlock")
    then some (codes "settings.log.event_boot_unlock")
    else if text_eq s (codes "wake_unlock")
    then some (codes "settings.log.event_wake_unlock")
    else if text_eq s (codes "hello")
    then some (codes "settings.log.event_hello")
    else none)
event_key (arr vs) = err type_error
event_key (obj fs) = err type_error
event_key _ = ok none

-- The timestamp as a part of the line; what is no text cannot be joined.
stamp_part : Value → Result (List Text)
stamp_part (str (c ∷ s)) = ok ((c ∷ s) ∷ [])
stamp_part v = if truthy v then err type_error else ok []

text_part : Text → List Text
text_part [] = []
text_part (c ∷ s) = (c ∷ s) ∷ []

length-reverse : (xs : List Text) → length (reverse xs) ≡ length xs
length-reverse [] = refl
length-reverse (x ∷ xs) =
    ap length (reverse-append (x ∷ []) xs)
    ∙ omega (arith, length-append (reverse xs) (x ∷ []), length-reverse xs)

module _ (tr : Text → Fields → Result Text) where
  message : Option Text → Value → Text → Result Text
  message (some key) event_type result = tr key (field (codes "result") (str result) end)
  message none event_type result =
      tr (codes "settings.log.event_unknown") (field (codes "type") event_type end)

  elapsed_text : Value → Result Text
  elapsed_text elapsed =
      if truthy elapsed
      then tr (codes "settings.log.elapsed") (field (codes "seconds") elapsed end)
      else ok []

  unfoldable pub format_event : Value → Result Text
  unfolding event_key stamp_part text_part message elapsed_text
  format_event event = do
    event_type ← get_field event (codes "type") (str (codes "unknown"))
    success ← get_field event (codes "success") (boolean false)
    elapsed ← get_field event (codes "elapsed") (float (pos 0) 1)
    timestamp ← get_field event (codes "timestamp") (str [])
    result ←
        tr
          (if truthy success
            then codes "settings.log.result_success"
            else codes "settings.log.result_failed")
          end
    key ← event_key event_type
    line ← message key event_type result
    seconds ← elapsed_text elapsed
    stamp ← stamp_part timestamp
    ok (join (codes " ") (stamp ++ (line ∷ text_part seconds)))

  -- The line of an event, before those of the events after it; an exception ends the loop.
  line_first : Result Text → List Text → List Text
  line_first (ok line) rest = line ∷ rest
  line_first (err e) rest = []

  -- The loop over the events: an exception ends it and keeps the lines before.
  unfoldable pub format_all : List Value → List Text
  unfolding line_first
  format_all [] = []
  format_all (event ∷ events) = line_first (format_event event) (format_all events)

  -- data[-20:]
  unfoldable pub last_20 : List Value → List Value
  last_20 events = drop (length events - 20) events

  entries_of : Value → List Text
  entries_of (arr vs) = format_all (last_20 (items_list vs))
  entries_of _ = []

  -- The lines of the text box, newest first; none stand for the text that there are no events.
  unfoldable pub on_refresh : (W : Pyserial) → Gui W → List Text × Gui W
  unfolding entries_of
  on_refresh W g =
      let r = send_command W (codes "GET_LOG") g in
      (reverse (entries_of (payload_of W r.0 null)), r.1)

  line_first-length :
      (r : Result Text) (rest : List Text) → length (line_first r rest) ≤ suc (length rest)
  unfolding line_first
  line_first-length (ok line) rest = omega arith
  line_first-length (err e) rest = omega arith

  format_all-length : (events : List Value) → length (format_all events) ≤ length events
  unfolding format_all
  format_all-length [] = omega arith
  format_all-length (event ∷ events) =
      omega (
        arith,
        line_first-length (format_event event) (format_all events),
        format_all-length events,
      )

  entries_of-length : (v : Value) → length (entries_of v) ≤ 20
  unfolding entries_of last_20
  entries_of-length (arr vs) = omega (
    arith,
    format_all-length (last_20 (items_list vs)),
    length-drop (length (items_list vs) - 20) (items_list vs),
  )
  entries_of-length null = omega arith
  entries_of-length (boolean b) = omega arith
  entries_of-length (int n) = omega arith
  entries_of-length (float m k) = omega arith
  entries_of-length (str s) = omega arith
  entries_of-length (obj fs) = omega arith

  -- However long the log that the Pico answers, at most twenty lines are shown.
  pub on_refresh_le : (W : Pyserial) (g : Gui W) → length (on_refresh W g).0 ≤ 20
  unfolding on_refresh
  on_refresh_le W g = omega (
    arith,
    length-reverse (entries_of (payload_of W (send_command W (codes "GET_LOG") g).0 null)),
    entries_of-length (payload_of W (send_command W (codes "GET_LOG") g).0 null),
  )
