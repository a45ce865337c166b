-- ===== src/Monitor/Hello/Loop/Disabled.antt =====
-- What the thread of pc/src/pywinhello/monitor/hello_detector.py does for a disabled app.
use pywinhello.Monitor.Hello.{
  Action, AppWhitelist, Env, add_app, dialog_seen, discover, handle_dialog, handle_next, new_app,
  no_dialog, outcome, poll_dialog, stop_seen,
}
use pywinhello.Monitor.Hello.Gate.{discover-hellos, handle_dialog_disabled, hellos}
use pywinhello.Monitor.Hello.Loop.{
  Round, detection_loop, looks, raises_looking, raises_waiting, returns, round_of,
}
use pywinhello.Monitor.Hello.Loop.Answers.{looks-hellos}
use pywinhello.Monitor.Hello.Whitelist.{add_app-keeps}
use pywinhello.Prelude.{
  Bool, List, Option, [], ap, arith, false, if◌then◌else◌, none, refl, some, true, ℕ, ◌&&◌, ◌+◌,
  ◌∙◌, ◌∷◌, ◌≡◌,
}
use pywinhello.Prelude.Dict.{lookup}
use pywinhello.Prelude.Result.{Error}
use pywinhello.Prelude.Text.{Text, text_eq, text_eq_iff}
use pywinhello.Prelude.Value.{Value, truthy}

-- Whether a round sees a dialog of the app, if it sees one.
abbrev pub is_owned : Text → Round → Bool
is_owned exe raises_waiting = false
is_owned exe (returns visible polls env) = elim env.owner [
  | none ↦ false
  | some name ↦ text_eq name exe
]
is_owned exe (raises_looking env n) = elim env.owner [ none ↦ false | some name ↦ text_eq name exe ]

-- The HELLOs of the rounds with a dialog of the app.
pub hellos_for : (Error → Bool) → Text → List Round → AppWhitelist → ℕ
hellos_for says exe [] w = 0
hellos_for says exe (r ∷ rounds) w =
    let later = hellos_for says exe rounds (round_of says r w).whitelist in
    if is_owned exe r then hellos (round_of says r w).calls + later else later

discover-keeps :
    (env : Env) (w : AppWhitelist) (exe : Text) (v : Value)
    → lookup exe w.apps ≡ some v
    → lookup exe (discover env w).0.apps ≡ some v
unfolding discover
discover-keeps env w exe v h =
    elim env.owner
      as (λ o.
        lookup exe
          (elim o as (λ _. AppWhitelist × List Action) [
            | none ↦ (w, [])
            | some [] ↦ (w, [])
            | some (c ∷ s) ↦ (
              (add_app w (c ∷ s)).0,
              if (add_app w (c ∷ s)).1 && env.has_new_app then new_app (c ∷ s) ∷ [] else [],
            )
          ]).0.apps
        ≡ some v) [ none ↦ h | some [] ↦ h | some (c ∷ s) ↦ (add_app-keeps w (c ∷ s) exe v h).0 ]

handle_dialog-keeps :
    (env : Env) (w : AppWhitelist) (exe : Text) (v : Value)
    → lookup exe w.apps ≡ some v
    → lookup exe (handle_dialog env w).1.apps ≡ some v
unfolding handle_dialog
handle_dialog-keeps env w exe v h = ground (arith, discover-keeps env w exe v h)

round_of-keeps :
    (says : Error → Bool) (r : Round) (w : AppWhitelist) (exe : Text) (v : Value)
    → lookup exe w.apps ≡ some v
    → lookup exe (round_of says r w).whitelist.apps ≡ some v
unfolding round_of handle_next outcome
round_of-keeps says (returns visible polls env) w exe v h =
    elim (if visible then dialog_seen else poll_dialog polls)
      as (λ n. lookup exe (outcome n env w).1.apps ≡ some v) [
        | dialog_seen ↦ handle_dialog-keeps env w exe v h
        | stop_seen ↦ h
        | no_dialog ↦ h
      ]
round_of-keeps says raises_waiting w exe v h = h
round_of-keeps says (raises_looking env n) w exe v h = discover-keeps env w exe v h

-- The owner of an owned round.
owner_of :
    (o : Option Text) (exe : Text)
    → elim o as (λ _. Bool) [ none ↦ false | some name ↦ text_eq name exe ] ≡ true
    → o ≡ some exe
owner_of none exe h = cc
owner_of (some name) exe h = ap some ((text_eq_iff name exe).0 h)

round_of_disabled :
    (says : Error → Bool) (r : Round) (w : AppWhitelist) (exe : Text) (v : Value)
    → lookup exe w.apps ≡ some v
    → truthy v ≡ false
    → is_owned exe r ≡ true
    → hellos (round_of says r w).calls ≡ 0
unfolding round_of handle_next outcome
round_of_disabled says (returns visible polls env) w exe v l t o =
    elim (if visible then dialog_seen else poll_dialog polls)
      as (λ n. hellos (outcome n env w).2 ≡ 0) [
        | dialog_seen ↦
            ap (λ r. hellos r.2) (handle_dialog_disabled env w exe v (owner_of env.owner exe o) l t)
        | stop_seen ↦ refl
        | no_dialog ↦ refl
      ]
round_of_disabled says raises_waiting w exe v l t o = refl
round_of_disabled says (raises_looking env n) w exe v l t o =
    discover-hellos env w (looks env n) ∙ looks-hellos env n

-- Whatever other dialogs the thread sees and whatever raises, no HELLO is made in a round with a dialog of an app
-- that the whitelist disables at the start, and its entry stays.
pub detection_loop_disabled :
    (says : Error → Bool) (rounds : List Round) (w : AppWhitelist) (exe : Text) (v : Value)
    → lookup exe w.apps ≡ some v
    → truthy v ≡ false
    → (hellos_for says exe rounds w ≡ 0)
      × (lookup exe (detection_loop says rounds w).whitelist.apps ≡ some v)
unfolding detection_loop hellos_for
detection_loop_disabled says [] w exe v l t = (refl, l)
detection_loop_disabled says (r ∷ rounds) w exe v l t =
    let (none_later, kept) =
      detection_loop_disabled says rounds (round_of says r w).whitelist exe v
        (round_of-keeps says r w exe v l) t in
    (ground (arith, none_later, round_of_disabled says r w exe v l t), kept)
