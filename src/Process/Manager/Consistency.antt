-- ===== src/Process/Manager/Consistency.antt =====
-- src/process-manager/index.ts: every event keeps the manager consistent.
use opcua_light_server.Prelude.{
  ℕ, refl, Bool, List, [], ◌∷◌, arith, Text, Bool-cases, inl, inr, split, has_timer,
}
use opcua_light_server.Process.Sessions.{ClientSession}
use opcua_light_server.Process.Manager.{
  Manager, init, on_crash, set_sse_hub, update_connected_clients,
}
use opcua_light_server.Process.Manager.Events.{
  Event, starts, stops, reloads, exits, errs, stdin_errs, prints, complains, kills, ticks, counts,
  listens, attaches, step, run, stdin_error, stderr_data, parse_stdout, kill_timeout,
}
use opcua_light_server.Process.Manager.Invariant.{
  IsConsistent, IsAlike-IsConsistent, start-IsConsistent, stop-IsConsistent, reload-IsAlike,
  parse_lines-IsAlike, status_tick-IsAlike, has_timer-remove_timer,
}
use opcua_light_server.Process.Manager.Settling.{child_exit-IsConsistent, child_error-IsConsistent}

kill_timeout-IsConsistent : (c : ℕ) (m : Manager) → IsConsistent m → IsConsistent (kill_timeout c m)
unfolding kill_timeout
kill_timeout-IsConsistent c m v = elim (Bool-cases (has_timer c m.kill_timers)) [
  | inl e ↦ rw e (record {
    live = v.live;
    timed = v.timed;
    idle = v.idle;
    ending = v.ending;
    known = v.known;
    fresh = v.fresh;
    awaited = v.awaited;
    unawaited = v.unawaited;
    timers = λ d. ground (arith, v.timers d, has_timer-remove_timer c d m.kill_timers);
  })
  | inr e ↦ rw e v
]

module _ (is_valid_date : Text → Bool) (stringify : List ClientSession → Text) where
  -- Every event keeps the manager consistent, whichever child it comes from and whatever the
  -- platform, the clock and the file system answer.
  pub step-IsConsistent :
      (e : Event) (m : Manager) → IsConsistent m → IsConsistent (step is_valid_date stringify e m)
  unfolding step on_crash set_sse_hub update_connected_clients stdin_error stderr_data parse_stdout
  step-IsConsistent (starts env pid) m v = start-IsConsistent env pid m v
  step-IsConsistent (stops env) m v = stop-IsConsistent env m v
  step-IsConsistent (reloads env failure) m v =
      IsAlike-IsConsistent m _ (reload-IsAlike env failure m) v
  step-IsConsistent (exits env c code signal) m v = child_exit-IsConsistent env c code signal m v
  step-IsConsistent (errs c message) m v = child_error-IsConsistent c message m v
  step-IsConsistent (stdin_errs code message) m v = IsAlike-IsConsistent m _ (ground arith) v
  step-IsConsistent (prints output) m v =
      IsAlike-IsConsistent m _ (parse_lines-IsAlike (split 10 output) m) v
  step-IsConsistent (complains content) m v = IsAlike-IsConsistent m _ (ground arith) v
  step-IsConsistent (kills c) m v = kill_timeout-IsConsistent c m v
  step-IsConsistent (ticks env) m v =
      IsAlike-IsConsistent m _ (status_tick-IsAlike is_valid_date stringify env m) v
  step-IsConsistent (counts n) m v = IsAlike-IsConsistent m _ (ground arith) v
  step-IsConsistent (listens handler) m v = IsAlike-IsConsistent m _ (ground arith) v
  step-IsConsistent attaches m v = IsAlike-IsConsistent m _ (ground arith) v

  run-IsConsistent :
      (es : List Event) (m : Manager)
      → IsConsistent m
      → IsConsistent (run is_valid_date stringify es m)
  unfolding run
  run-IsConsistent [] m v = v
  run-IsConsistent (e ∷ es) m v = run-IsConsistent es _ (step-IsConsistent e m v)

init-IsConsistent : IsConsistent init
unfolding init
init-IsConsistent = record {
  live = refl;
  timed = λ e. cc;
  idle = λ e. (refl, refl);
  ending = λ e. cc;
  known = λ c e. cc;
  fresh = λ c h. (refl, refl);
  awaited = λ c e. cc;
  unawaited = λ c e. cc;
  timers = λ c e. cc;
}

-- After any sequence of calls, of events of children, old ones too, and of timers on a new
-- manager: it holds a process exactly in the state `running`, where it has a start time and the
-- status timer runs; it is stopping only then, and then calls of `stop` wait for that process;
-- `stopped`, it has no start time and no status timer; and a forced kill is pending only for a
-- child that a call of `stop` waits for.
pub run-init-IsConsistent :
    (is_valid_date : Text → Bool) (stringify : List ClientSession → Text) (es : List Event)
    → IsConsistent (run is_valid_date stringify es init)
run-init-IsConsistent is_valid_date stringify es =
    run-IsConsistent is_valid_date stringify es init init-IsConsistent
