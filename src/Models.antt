-- ===== src/Models.antt =====
-- Boards and their USB identifiers: pc/src/pywinhello/models.py.
use pywinhello.Prelude.{Option, if◌then◌else◌, none, some, ℕ, ◌==◌}
use pywinhello.Prelude.Text.{Text, codes}

pub data BoardVariant : Type 0 where
  pico pico_w pico_2 pico_2_w : BoardVariant

-- variant.value
unfoldable pub board_name : BoardVariant → Text
board_name pico = codes "pico"
board_name pico_w = codes "pico_w"
board_name pico_2 = codes "pico_2"
board_name pico_2_w = codes "pico_2_w"

abbrev pub pico_vid : ℕ
pico_vid = 0x239A

-- BOARD_BY_PID.get(pid)
unfoldable pub board_by_pid : ℕ → Option BoardVariant
board_by_pid pid =
    if pid == 0x80F4
    then some pico
    else if pid == 0x8058
    then some pico_w
    else if pid == 0x8120
    then some pico_w
    else if pid == 0x8150
    then some pico_2
    else if pid == 0x8160
    then some pico_2_w
    else none
