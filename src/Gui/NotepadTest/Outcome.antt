-- ===== src/Gui/NotepadTest/Outcome.antt =====
-- The result of the typing test of pc/src/pywinhello/gui/tests/notepad_test.py.
use pywinhello.Prelude.{Bool, List, Option, [], false, none, ℕ, ◌&&◌}
use pywinhello.Prelude.Dict.{is_some}
use pywinhello.Prelude.Result.{Error}
use pywinhello.Prelude.Text.{Text}

pub record NotepadTestResult : Type 0 where
  pub notepad_opened : Bool
  pub type_match : Bool
  pub actual_text : Text
  pub optimal_interval : Option ℕ
  pub speed_results : List (ℕ × Bool)
  pub special_keys_ok : Bool
  pub notepad_closed : Bool
  pub error : Option Error

abbrev pub new_result : NotepadTestResult
new_result = record {
  notepad_opened = false;
  type_match = false;
  actual_text = [];
  optimal_interval = none;
  speed_results = [];
  special_keys_ok = false;
  notepad_closed = false;
  error = none;
}

unfoldable pub all_passed : NotepadTestResult → Bool
all_passed r =
    r.notepad_opened
    && r.type_match
    && is_some r.optimal_interval
    && r.special_keys_ok
    && r.notepad_closed
