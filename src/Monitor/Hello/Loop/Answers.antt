-- ===== src/Monitor/Hello/Loop/Answers.antt =====
-- Which dialogs the thread of pc/src/pywinhello/monitor/hello_detector.py answers with the PIN.
use pywinhello.Monitor.Hello.{
  Action, AppWhitelist, AuthEvent, Env, Handled, Poll, after_hello, app_disabled, check_foreground,
  dialog_seen, final_gate, focus, focus_and_send, handle_dialog, handle_next, hello_failed, new_app,
  no_dialog, outcome, poll_dialog, refused, send_escape, send_hello, send_pin, stop_seen,
  wait_for_dismiss,
}
use pywinhello.Monitor.Hello.Gate.{
  Guarded, Guarded-discover, attempted, discover-hellos, handle_dialog-Guarded,
  handle_dialog-hellos, hellos,
}
use pywinhello.Monitor.Hello.Loop.{
  Round, detection_loop, is_timeout, looks, raises_looking, raises_waiting, reported, returns,
  round_of,
}
use pywinhello.Prelude.{
  Bool, List, Option, [], arith, false, if◌then◌else◌, none, refl, some, suc, sym, true, zero, ℕ,
  ◌++◌, ◌+◌, ◌∙◌, ◌∷◌, ◌≡◌,
}
use pywinhello.Prelude.Result.{Error, err, ok}
use pywinhello.Prelude.Text.{Text}

Guarded-append :
    (b : Bool) (xs ys : List Action)
    → Guarded b xs
    → ((c : Bool) → Guarded c ys)
    → Guarded b (xs ++ ys)
Guarded-append b [] ys h k = k b
Guarded-append b (send_hello ∷ xs) ys h k = (h.0, Guarded-append false xs ys h.1 k)
Guarded-append b (check_foreground found ∷ xs) ys h k = Guarded-append found xs ys h k
Guarded-append b (new_app exe ∷ xs) ys h k = Guarded-append false xs ys h k
Guarded-append b (focus ∷ xs) ys h k = Guarded-append false xs ys h k
Guarded-append b (wait_for_dismiss ∷ xs) ys h k = Guarded-append false xs ys h k
Guarded-append b (send_escape ∷ xs) ys h k = Guarded-append false xs ys h k

-- What begins with no HELLO is guarded whatever was before it.
Guarded-weaken : (b : Bool) (xs : List Action) → Guarded false xs → Guarded b xs
Guarded-weaken false xs h = h
Guarded-weaken true [] h = tt
Guarded-weaken true (send_hello ∷ xs) h = cc
Guarded-weaken true (check_foreground found ∷ xs) h = h
Guarded-weaken true (new_app exe ∷ xs) h = h
Guarded-weaken true (focus ∷ xs) h = h
Guarded-weaken true (wait_for_dismiss ∷ xs) h = h
Guarded-weaken true (send_escape ∷ xs) h = h

looks-Guarded : (env : Env) (n : ℕ) → Guarded false (looks env n)
unfolding looks
looks-Guarded env zero = tt
looks-Guarded env (suc zero) = ground arith
looks-Guarded env (suc (suc n)) = tt

handle_next-Guarded :
    (visible : Bool) (polls : List Poll) (env : Env) (w : AppWhitelist)
    → Guarded false (handle_next visible polls env w).2
unfolding handle_next outcome
handle_next-Guarded visible polls env w =
    elim (if visible then dialog_seen else poll_dialog polls)
      as (λ n. Guarded false (outcome n env w).2) [
        | dialog_seen ↦ handle_dialog-Guarded env w
        | stop_seen ↦ tt
        | no_dialog ↦ tt
      ]

round_of-Guarded :
    (says : Error → Bool) (r : Round) (w : AppWhitelist) → Guarded false (round_of says r w).calls
unfolding round_of
round_of-Guarded says (returns visible polls env) w = handle_next-Guarded visible polls env w
round_of-Guarded says raises_waiting w = tt
round_of-Guarded says (raises_looking env n) w =
    Guarded-discover env w (looks env n) (looks-Guarded env n)

-- Whatever raises in the rounds of the thread, each HELLO follows directly on a look that found the dialog in
-- front.
pub detection_loop-Guarded :
    (says : Error → Bool) (rounds : List Round) (w : AppWhitelist)
    → Guarded false (detection_loop says rounds w).calls
unfolding detection_loop
detection_loop-Guarded says [] w = tt
detection_loop-Guarded says (r ∷ rounds) w =
    Guarded-append false (round_of says r w).calls
      (detection_loop says rounds (round_of says r w).whitelist).calls (round_of-Guarded says r w)
      (λ c.
        Guarded-weaken c (detection_loop says rounds (round_of says r w).whitelist).calls
          (detection_loop-Guarded says rounds (round_of says r w).whitelist))

-- How many events tell of a HELLO.
abbrev pub attempts : List AuthEvent → ℕ
attempts [] = 0
attempts (e ∷ es) = (if attempted e then 1 else 0) + attempts es

attempts-append : (es fs : List AuthEvent) → attempts (es ++ fs) ≡ attempts es + attempts fs
attempts-append [] fs = omega arith
attempts-append (e ∷ es) fs = omega (arith, attempts-append es fs)

hellos-append : (xs ys : List Action) → hellos (xs ++ ys) ≡ hellos xs + hellos ys
hellos-append [] ys = omega arith
hellos-append (send_hello ∷ xs) ys = omega (arith, hellos-append xs ys)
hellos-append (check_foreground found ∷ xs) ys = hellos-append xs ys
hellos-append (new_app exe ∷ xs) ys = hellos-append xs ys
hellos-append (focus ∷ xs) ys = hellos-append xs ys
hellos-append (wait_for_dismiss ∷ xs) ys = hellos-append xs ys
hellos-append (send_escape ∷ xs) ys = hellos-append xs ys

pub looks-hellos : (env : Env) (n : ℕ) → hellos (looks env n) ≡ 0
unfolding looks
looks-hellos env zero = refl
looks-hellos env (suc zero) = ground arith
looks-hellos env (suc (suc n)) = refl

handle_next-hellos :
    (visible : Bool) (polls : List Poll) (env : Env) (w : AppWhitelist)
    → hellos (handle_next visible polls env w).2
      ≡ (if attempted (handle_next visible polls env w).0 then 1 else 0)
unfolding handle_next outcome refused
handle_next-hellos visible polls env w =
    elim (if visible then dialog_seen else poll_dialog polls)
      as (λ n. hellos (outcome n env w).2 ≡ (if attempted (outcome n env w).0 then 1 else 0)) [
        | dialog_seen ↦ handle_dialog-hellos env w
        | stop_seen ↦ refl
        | no_dialog ↦ refl
      ]

-- An event is heard of as one of a HELLO exactly if it is one.
abbrev IsHeard : (Error → Bool) → AuthEvent → Type 0
IsHeard says e = attempts (reported says e) ≡ (if attempted e then 1 else 0)

after_hello-IsHeard :
    (says : Error → Bool) (env : Env) (exe : Option Text)
    → ((c : Error) → says c ≡ false)
    → IsHeard says (after_hello env exe).0
unfolding after_hello reported is_timeout
after_hello-IsHeard says env exe quiet = grind (arith, quiet)

send_pin-IsHeard :
    (says : Error → Bool) (env : Env) (exe : Option Text)
    → ((c : Error) → says c ≡ false)
    → IsHeard says (send_pin env exe).0
unfolding send_pin reported is_timeout refused
send_pin-IsHeard says env exe quiet =
    elim env.on_hello
      as (λ r.
        IsHeard says
          (elim r as (λ _. Handled) [
            | ok u ↦ ((after_hello env exe).0, send_hello ∷ (after_hello env exe).1)
            | err e ↦ (refused exe (hello_failed e), send_hello ∷ [])
          ]).0) [ ok u ↦ after_hello-IsHeard says env exe quiet | err e ↦ rw (quiet e) refl ]

final_gate-IsHeard :
    (says : Error → Bool) (env : Env) (exe : Option Text) (n : ℕ)
    → ((c : Error) → says c ≡ false)
    → IsHeard says (final_gate env exe n).0
unfolding final_gate refused reported is_timeout
final_gate-IsHeard says env exe n quiet = ground (arith, send_pin-IsHeard says env exe quiet)

focus_and_send-IsHeard :
    (says : Error → Bool) (env : Env) (exe : Option Text)
    → ((c : Error) → says c ≡ false)
    → IsHeard says (focus_and_send env exe).0
unfolding focus_and_send refused reported is_timeout
focus_and_send-IsHeard says env exe quiet =
    ground (arith, final_gate-IsHeard says env exe 1 quiet, final_gate-IsHeard says env exe 2 quiet)

disabled-IsHeard :
    (says : Error → Bool) (exe : Option Text) → IsHeard says (refused exe (app_disabled exe))
unfolding refused reported is_timeout
disabled-IsHeard says none = refl
disabled-IsHeard says (some exe) = ground arith

handle_dialog-IsHeard :
    (says : Error → Bool) (env : Env) (w : AppWhitelist)
    → ((c : Error) → says c ≡ false)
    → IsHeard says (handle_dialog env w).0
unfolding handle_dialog
handle_dialog-IsHeard says env w quiet =
    ground (arith, focus_and_send-IsHeard says env env.owner quiet, disabled-IsHeard says env.owner)

handle_next-IsHeard :
    (says : Error → Bool) (visible : Bool) (polls : List Poll) (env : Env) (w : AppWhitelist)
    → ((c : Error) → says c ≡ false)
    → IsHeard says (handle_next visible polls env w).0
unfolding handle_next outcome refused reported is_timeout
handle_next-IsHeard says visible polls env w quiet =
    elim (if visible then dialog_seen else poll_dialog polls)
      as (λ n. IsHeard says (outcome n env w).0) [
        | dialog_seen ↦ handle_dialog-IsHeard says env w quiet
        | stop_seen ↦ refl
        | no_dialog ↦ refl
      ]

round_of-hellos :
    (says : Error → Bool) (r : Round) (w : AppWhitelist)
    → ((c : Error) → says c ≡ false)
    → hellos (round_of says r w).calls ≡ attempts (round_of says r w).reports
unfolding round_of
round_of-hellos says (returns visible polls env) w quiet =
    handle_next-hellos visible polls env w
    ∙ sym (handle_next-IsHeard says visible polls env w quiet)
round_of-hellos says raises_waiting w quiet = refl
round_of-hellos says (raises_looking env n) w quiet =
    discover-hellos env w (looks env n) ∙ looks-hellos env n

-- Where no failure of a HELLO says Timeout, on_event hears of each HELLO exactly once.
pub detection_loop-hellos :
    (says : Error → Bool) (rounds : List Round) (w : AppWhitelist)
    → ((c : Error) → says c ≡ false)
    → hellos (detection_loop says rounds w).calls ≡ attempts (detection_loop says rounds w).reports
unfolding detection_loop
detection_loop-hellos says [] w quiet = refl
detection_loop-hellos says (r ∷ rounds) w quiet = omega (
  arith,
  round_of-hellos says r w quiet,
  detection_loop-hellos says rounds (round_of says r w).whitelist quiet,
  hellos-append (round_of says r w).calls
      (detection_loop says rounds (round_of says r w).whitelist).calls,
  attempts-append (round_of says r w).reports
      (detection_loop says rounds (round_of says r w).whitelist).reports,
)
