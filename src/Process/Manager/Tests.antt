-- ===== src/Process/Manager/Tests.antt =====
-- src/process-manager/index.ts on a manager with a running child.
use opcua_light_server.Prelude.{
  ◌≡◌, ◌≢◌, refl, ap, arith, Bool, true, false, none, some, ℕ, Option, List, [], ◌∷◌, ◌++◌, Text,
  codes,
}
use opcua_light_server.Process.Sessions.{ClientSession}
use opcua_light_server.Process.Manager.{Manager, Env, running, error, init, start, stop}
use opcua_light_server.Process.Manager.Events.{
  Event, step, starts, stops, exits, run, child_exit, stopped_listeners, crash_reason,
}
use opcua_light_server.Process.Manager.Invariant.{IsConsistent}
use opcua_light_server.Process.Manager.Consistency.{run-init-IsConsistent}
use opcua_light_server.Process.Manager.Lifecycle.{
  IsStopped, child_exit-stop, child_exit-crash, child_exit_stale,
}

abbrev at_noon : Env
at_noon = record { now = 1000; hostname = codes "host"; win32 = false; status_file = none }

abbrev all_dates : Text → Bool
all_dates s = true

abbrev no_json : List ClientSession → Text
no_json cs = []

abbrev one_start : List Event
one_start = starts at_noon (some 77) ∷ []

run-init-IsConsistent_example : IsConsistent (
    run all_dates no_json
      (starts at_noon (some 77) ∷ stops at_noon ∷ exits at_noon 0 (codes "0") none ∷ [])
      init)
run-init-IsConsistent_example =
    run-init-IsConsistent all_dates no_json
      (starts at_noon (some 77) ∷ stops at_noon ∷ exits at_noon 0 (codes "0") none ∷ [])

abbrev started : Manager
started = run all_dates no_json one_start init

child_exit-stop_example :
    IsStopped 0 1 started (child_exit at_noon 0 (codes "0") none (stop at_noon started).0)
unfolding run init step start
child_exit-stop_example =
    child_exit-stop at_noon at_noon 0 (codes "0") none started
      (run-init-IsConsistent all_dates no_json one_start) refl

child_exit-crash_example :
    let m' = child_exit at_noon 0 (codes "1") none started in
    (m'.state ≡ error)
    × (m'.process ≡ none)
    × (m'.last_error ≡ some (crash_reason (codes "1") none []))
    × (m'.out ≡ started.out ++ [])
unfolding run init step start
child_exit-crash_example =
    child_exit-crash at_noon 0 (codes "1") none started
      (run-init-IsConsistent all_dates no_json one_start) refl refl

abbrev restarted : Manager
restarted =
    run all_dates no_json
      (starts at_noon (some 77) ∷ exits at_noon 0 (codes "0") none ∷ starts at_noon (some 78) ∷ [])
      init

abbrev number_of : Option ℕ → ℕ
number_of none = 0
number_of (some c) = c

restarted_process : restarted.process ≢ some 0
unfolding run init step start child_exit stopped_listeners
restarted_process e = let h : ◌≡◌ {A = ℕ} 1 0 = ap number_of e in omega arith

child_exit_stale_example :
    let m' = child_exit at_noon 0 (codes "0") none restarted in
    (m'.process ≡ none) × (m'.state ≢ running)
unfolding run init step start child_exit stopped_listeners
child_exit_stale_example =
    child_exit_stale at_noon 0 (codes "0") none restarted restarted_process refl refl
