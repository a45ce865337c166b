-- ===== src/Tests/Window.antt =====
-- The window and the wizard, on the scripted port.
use pywinhello.Gui.Window
use pywinhello.Gui.Connection.{
  command_of, cut_colon, get_config, is_live, protocol_of, raw_answer, send_command, send_known,
  talk,
}
use pywinhello.Gui.Connection.Commands.{Wrote, send_command-Wrote}
use pywinhello.Gui.Connection.Configs.{get_config-loads}
use pywinhello.Gui.I18n.{LocaleFiles, Locales}
use pywinhello.Gui.Window.{
  App, Poll, check, connection_screen, pin_set, poll, settings, toggle_language, with_pico,
}
use pywinhello.Gui.Window.Pin.{NeverSet}
use pywinhello.Gui.Window.Posts.{
  Reach, Reach-IsShown, Reach-without_pin, checked, clicked, here, onward, posted,
}
use pywinhello.Gui.Window.Routing.{IsShown, language_toggled, wizard_completed}
use pywinhello.Prelude.{
  List, [], ap, false, inl, inr, none, refl, some, sym, true, ◌∷◌, ◌≡◌, ◌≢◌, ◌⊎◌,
}
use pywinhello.Prelude.Result.{ok, ok-injective}
use pywinhello.Prelude.Text.{Text, codes, is_space, starts_with, strip, text_eq}
use pywinhello.Prelude.Value.{
  Value, arr, boolean, end, field, find, find_or, float, get_field, int, null, obj, str, truthy,
}
use pywinhello.Serial.Device.{is_connected}
use pywinhello.Serial.Link.{answer, exchange, send}
use pywinhello.Serial.Protocol.{
  command_line, command_name, command_timeout, encode_command, parse_response, parse_stripped, utf8,
  utf8_char,
}
use pywinhello.Tests.Bench.{bench, bench-IsRecording, bench_written, flash_bench, linked}

-- Locale files with one text.
abbrev bench_files : LocaleFiles
bench_files = record {
  exists = λ locale. true;
  load = λ locale.
      ok (
        obj (field (codes "app") (obj (field (codes "title") (str (codes "pywinhello")) end)) end));
  format = λ node kwargs. ok node;
}

abbrev app_strings : Value
app_strings =
    obj (field (codes "app") (obj (field (codes "title") (str (codes "pywinhello")) end)) end)

abbrev loaded : Locales
loaded = record { cache = (codes "ja", app_strings) ∷ []; current_locale = codes "ja" }

abbrev locale_command : Text
locale_command = codes "SET_CONFIG:{\"locale\":\"ja\"}"

locale_command-answered : (send_command bench locale_command linked).0 ≡ some (codes "OK")
unfolding send_command send_known raw_answer talk protocol_of is_live is_connected send exchange
    encode_command command_line utf8 utf8_char answer parse_response parse_stripped strip is_space
    text_eq starts_with command_of command_name cut_colon command_timeout
locale_command-answered = refl

send_command-Wrote_example :
    Wrote bench bench_written bench-IsRecording locale_command linked
      (send_command bench locale_command linked).1
send_command-Wrote_example =
    send_command-Wrote bench bench_written bench-IsRecording locale_command linked (codes "OK")
      locale_command-answered

abbrev at_start : App bench bench_files
at_start = record {
  pico = (none, flash_bench);
  locales = loaded;
  state = Window.disconnected;
  current_view = some connection_screen;
}

unset :
    (c v : Value)
    → (c ≡ obj end) ⊎ ((text : Text) × (bench.loads text ≡ ok c))
    → pin_set bench bench_files c ≡ ok v
    → truthy v ≡ false
unfolding get_field find_or find truthy
unset (obj end) v e h = ap truthy (sym (ok-injective h))
unset (obj (field k w fs)) v (inl e) h = cc
unset (obj (field k w fs)) v (inr (text, e)) h = cc
unset null v e h = cc
unset (boolean b) v e h = cc
unset (int n) v e h = cc
unset (float m k) v e h = cc
unset (str s) v e h = cc
unset (arr vs) v e h = cc

-- The script's JSON is a text, so no configuration sets anything.
bench_NeverSet : NeverSet bench bench_files
bench_NeverSet g v h = unset (get_config bench g).0 v (get_config-loads bench g) h

-- A window whose first poll has posted, and where the language is then changed.
abbrev checked_app : App bench bench_files
checked_app = with_pico bench bench_files at_start (check bench bench_files at_start.pico).1

abbrev waiting_posts : List Poll
waiting_posts = posted bench bench_files (check bench bench_files at_start.pico).0

toggled-Reach :
    Reach bench bench_files
      (λ e. e ≢ wizard_completed)
      (at_start, [])
      (toggle_language bench bench_files checked_app, waiting_posts)
toggled-Reach =
    onward (onward here (checked at_start []))
      (clicked language_toggled checked_app waiting_posts (λ e. cc) (λ e. cc))

Reach-IsShown_example : IsShown bench bench_files (toggle_language bench bench_files checked_app)
Reach-IsShown_example =
    Reach-IsShown bench bench_files {allowed = λ e. e ≢ wizard_completed} {s = (at_start, [])}
      {t = (toggle_language bench bench_files checked_app, waiting_posts)} toggled-Reach refl

Reach-without_pin_example : (toggle_language bench bench_files checked_app).state ≢ settings
Reach-without_pin_example =
    Reach-without_pin bench bench_files at_start
      (toggle_language bench bench_files checked_app, waiting_posts) bench_NeverSet (λ e. cc)
      toggled-Reach
