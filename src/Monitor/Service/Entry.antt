-- ===== src/Monitor/Service/Entry.antt =====
-- The entry point of pc/src/pywinhello/__main__.py: a service that is started and, when the start returns, stopped.
use pywinhello.Monitor.Schedule.{Scheduler, Task}
use pywinhello.Monitor.Service.{Plug}
use pywinhello.Monitor.Service.Lifecycle.{Lifecycle, new_lifecycle, start, stop}
use pywinhello.Prelude.{List, Option}
use pywinhello.Prelude.Dict.{Dict}
use pywinhello.Prelude.Text.{Text}

-- main, with the checks before the stop of start, between its halves, and in the stop of main; the logging is left
-- out.
pub main :
    Scheduler
    → Text
    → List (Option Text × Plug)
    → List (Option Text × Plug)
    → List (Option Text × Plug)
    → Dict Task
    → Lifecycle
main w exe checks racing late tasks =
    stop w exe late (start w exe checks racing (new_lifecycle tasks))
