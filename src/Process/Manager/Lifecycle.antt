-- ===== src/Process/Manager/Lifecycle.antt =====
-- src/process-manager/index.ts: how a run of the process ends.
use opcua_light_server.Prelude.{
  ℕ, zero, suc, ◌+◌, ◌≡◌, ◌≢◌, refl, true, false, Option, some, none, [], ◌∷◌, ◌++◌, map, arith,
  Text, ap, ==_iff, if◌then◌else◌, has_timer, has_timer-clear_timers,
}
use opcua_light_server.Process.Manager.{
  Manager, Env, running, stopped, error, stop, Output, crash_reported, signalled, set_at, returns,
  emit, taskkill, sigterm,
}
use opcua_light_server.Process.Manager.Events.{
  child_exit, stopped_listeners, crash_reason, exit_listener, crash,
}
use opcua_light_server.Process.Manager.Invariant.{IsConsistent}
use opcua_light_server.Process.Manager.Settling.{IsCleaned, stopped_listeners-IsCleaned}
use opcua_light_server.Process.Manager.Quiet.{
  IsQuiet, stopped_listeners-IsQuiet, count_crashes, count_resolved, count_crashes-append,
  count_resolved-append,
}

-- The manager that waits for child `c` after one more call of `stop`.
waiting : Env → ℕ → Manager → Manager
waiting env c m = emit (signalled (if env.win32 then taskkill else sigterm) c) (record m {
  stopping = true;
  exit_stops = set_at m.exit_stops c (suc (m.exit_stops c));
  error_stops = set_at m.error_stops c (suc (m.error_stops c));
  kill_timers = m.kill_timers ++ c ∷ [];
})

stop-waiting :
    (env : Env) (c : ℕ) (m : Manager)
    → m.process ≡ some c
    → m.state ≡ running
    → stop env m ≡ (waiting env c m, returns tt)
unfolding stop waiting
stop-waiting env c m e r = ground arith

child_exit-waiting :
    (env env' : Env) (c : ℕ) (code : Text) (signal : Option Text) (m : Manager)
    → child_exit env' c code signal (waiting env c m)
      ≡ stopped_listeners env' c
          (suc (m.exit_stops c))
          (record (waiting env c m) { exit_stops = set_at (waiting env c m).exit_stops c 0 })
unfolding child_exit waiting
child_exit-waiting env env' c code signal m = rw ((==_iff c c).1 refl)

-- What a graceful stop leaves, after `n` calls of `stop`.
pub record IsStopped (c n : ℕ) (m m' : Manager) : Type 0 where
  pub state : m'.state ≡ stopped
  pub process : m'.process ≡ none
  pub stopping : m'.stopping ≡ false
  pub last_error : m'.last_error ≡ m.last_error
  pub no_kill : has_timer c m'.kill_timers ≡ false
  pub crashes : count_crashes m'.out ≡ count_crashes m.out
  pub resolved : count_resolved m'.out ≡ count_resolved m.out + n

IsStopped-listeners :
    (env env' : Env) (c n : ℕ) (m m' : Manager)
    → let r = record (waiting env c m) { exit_stops = set_at (waiting env c m).exit_stops c 0 } in
      IsCleaned c r m' → IsQuiet n r m' → IsStopped c n m m'
unfolding waiting
IsStopped-listeners env env' c n m m' k q = record {
  state = k.state;
  process = k.process;
  stopping = k.stopping;
  last_error = q.last_error;
  no_kill = ground (
    arith,
    ap (has_timer c) k.kill_timers,
    has_timer-clear_timers c c (m.kill_timers ++ c ∷ []),
    ==_iff c c,
  );
  crashes = omega (arith, q.crashes, count_crashes-append m.out (sent ∷ []));
  resolved = omega (arith, q.resolved, count_resolved-append m.out (sent ∷ []));
}
  where
    sent : Output
    sent = signalled (if env.win32 then taskkill else sigterm) c

-- Of a consistent manager that holds child `c`: after a call of `stop` and the child's exit, with
-- any code and signal, it is stopped and holds no process, its last error is as before, no crash is
-- reported, no forced kill of `c` is pending, and this call of `stop` and all earlier ones that
-- waited for `c` have resolved.
pub child_exit-stop :
    (env env' : Env) (c : ℕ) (code : Text) (signal : Option Text) (m : Manager)
    → IsConsistent m
    → m.process ≡ some c
    → IsStopped c (suc (m.exit_stops c)) m (child_exit env' c code signal (stop env m).0)
child_exit-stop env env' c code signal m v e =
    let waits = ap (λ r. r.0) (stop-waiting env c m e (ground (arith, v.live))) in
    rw (waits, child_exit-waiting env env' c code signal m)
      (IsStopped-listeners env env' c (suc (m.exit_stops c)) m _
        (stopped_listeners-IsCleaned env' c (m.exit_stops c) _)
        (stopped_listeners-IsQuiet env' c (suc (m.exit_stops c)) _))

exit_listener-crash :
    (code : Text) (signal : Option Text) (m : Manager)
    → m.stopping ≡ false
    → exit_listener code signal m ≡ crash (crash_reason code signal m.stderr_buffer) m
unfolding exit_listener
exit_listener-crash code signal m s = ground arith

child_exit-unstopped :
    (env : Env) (c : ℕ) (code : Text) (signal : Option Text) (m : Manager)
    → m.stopping ≡ false
    → let r = crash (crash_reason code signal m.stderr_buffer) m in
      child_exit env c code signal m
      ≡ stopped_listeners env c (m.exit_stops c) (record r { exit_stops = set_at m.exit_stops c 0 })
unfolding child_exit crash
child_exit-unstopped env c code signal m s =
    ap
      (λ r.
        stopped_listeners env c (r.exit_stops c)
          (record r { exit_stops = set_at r.exit_stops c 0 }))
      (exit_listener-crash code signal m s)

-- Of a consistent manager that holds child `c` and was not asked to stop it: when `c` exits, the
-- manager is in the state `error` with the reason as its last error and no process, and has called
-- every crash handler once with that reason, in the order of registration, and done nothing else: it
-- broadcasts no status.
pub child_exit-crash :
    (env : Env) (c : ℕ) (code : Text) (signal : Option Text) (m : Manager)
    → IsConsistent m
    → m.process ≡ some c
    → m.stopping ≡ false
    → let m' = child_exit env c code signal m in
      let reason = crash_reason code signal m.stderr_buffer in
      (m'.state ≡ error)
      × (m'.process ≡ none)
      × (m'.last_error ≡ some reason)
      × (m'.out ≡ m.out ++ map (λ h. crash_reported h reason) m.crash_handlers)
child_exit-crash env c code signal m v e s =
    rw (child_exit-unstopped env c code signal m s, (v.unawaited c e s).0)
      (unfold crash stopped_listeners in (refl, refl, refl, refl))

crashed_process :
    (env : Env) (d n : ℕ) (r : Manager)
    → r.process ≡ none
    → r.state ≢ running
    → let m' = stopped_listeners env d n r in (m'.process ≡ none) × (m'.state ≢ running)
crashed_process env d zero r p s = unfold stopped_listeners in (p, s)
crashed_process env d (suc n) r p s =
    let k = stopped_listeners-IsCleaned env d n r in (k.process, λ e. cc (k.state))

-- A child that exits although the manager does not hold it, while another process runs and is not
-- being stopped: the manager then holds no process, and is no longer running.
pub child_exit_stale :
    (env : Env) (d : ℕ) (code : Text) (signal : Option Text) (m : Manager)
    → m.process ≢ some d
    → m.state ≡ running
    → m.stopping ≡ false
    → let m' = child_exit env d code signal m in (m'.process ≡ none) × (m'.state ≢ running)
child_exit_stale env d code signal m o r s =
    rw (child_exit-unstopped env d code signal m s)
      (crashed_process env d (m.exit_stops d) _ (unfold crash in refl) (unfold crash in λ e. cc))
