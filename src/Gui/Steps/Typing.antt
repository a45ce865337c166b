-- ===== src/Gui/Steps/Typing.antt =====
-- What both typing tests type and read back: pc/src/pywinhello/gui/wizard/step_test.py and
-- gui/tests/notepad_test.py.
use pywinhello.Gui.Connection.{command_of}
use pywinhello.Prelude.{Bool, List, [], if◌then◌else◌, ltb, none, some, suc, ℕ, ◌&&◌, ◌∷◌}
use pywinhello.Prelude.Result.{Result, attribute_error, err, ok}
use pywinhello.Prelude.Text.{Text, codes, contains, starts_with}
use pywinhello.Serial.Protocol.{Command, commands}

abbrev pub test_string : Text
test_string = codes "pywinhello test"

abbrev pub speed_test_string : Text
speed_test_string = codes "The quick brown fox jumps over the lazy dog 1234567890"

abbrev pub speed_intervals : List ℕ
speed_intervals = 50 ∷ 80 ∷ 100 ∷ 120 ∷ 150 ∷ []

-- Command.NAME: the members are named as their values; another name raises AttributeError.
unfoldable pub command_member : Text → Result Command
command_member name = elim (command_of name commands) [ none ↦ err attribute_error | some c ↦ ok c ]

-- s.index(part), for a text that holds the part
unfoldable pub index_of : Text → Text → ℕ
index_of part [] = 0
index_of part (c ∷ s) =
    let later = index_of part s in if starts_with (c ∷ s) part then 0 else suc later

-- Both lines are there, in their order.
unfoldable pub lines_in_order : Text → Bool
unfolding index_of
lines_in_order s =
    contains (codes "line1") s
    && contains (codes "line2") s
    && ltb (index_of (codes "line1") s) (index_of (codes "line2") s)
