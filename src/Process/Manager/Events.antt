-- ===== src/Process/Manager/Events.antt =====
-- src/process-manager/index.ts: the listeners of `attachEventListeners`, the callbacks that `stop`
-- leaves, and the status timer, each as the step that the event loop makes.
use opcua_light_server.Prelude.{
  ℕ, zero, suc, Bool, ◌&&◌, not, Option, none, some, List, [], ◌∷◌, ◌++◌, map, ◌==◌, if◌then◌else◌,
  is_empty, all, Text, codes, text_eq, trim, split, strip_prefix, is_digit, read_digits, has_timer,
  clear_timers,
}
use opcua_light_server.Process.Sessions.{ClientSession}
use opcua_light_server.Process.Manager.{
  Manager, Env, error, sigkill, signalled, crash_reported, stop_resolved, stop_rejected, emit,
  set_at, cleanup, broadcast_status, broadcast_clients, read_client_sessions, start, stop, reload,
  on_crash, update_connected_clients, set_sse_hub,
}

-- `${code}` and the signal's name, as `exit` passes them; an empty name counts as none.
exit_reason : Text → Option Text → Text
exit_reason code none = codes "Process exited with code: " ++ code
exit_reason code (some signal) =
    if is_empty signal
    then codes "Process exited with code: " ++ code
    else codes "Process killed by signal: " ++ signal

with_stderr : Text → Text → Text
unfolding trim
with_stderr stderr reason =
    if is_empty (trim stderr) then reason else reason ++ codes "\nstderr: " ++ trim stderr

unfoldable pub crash_reason : Text → Option Text → Text → Text
unfolding exit_reason with_stderr
crash_reason code signal stderr = with_stderr stderr (exit_reason code signal)

-- The state after an unexpected end, and the loop over the crash handlers.
unfoldable pub crash : Text → Manager → Manager
crash reason m = record m {
  state = error;
  last_error = some reason;
  process = none;
  out = m.out ++ map (λ h. crash_reported h reason) m.crash_handlers;
}

-- The `exit` listener of `attachEventListeners`.
unfoldable pub exit_listener : Text → Option Text → Manager → Manager
unfolding crash
exit_listener code signal m =
    if m.stopping then m else crash (crash_reason code signal m.stderr_buffer) m

unfoldable pub error_listener : Text → Manager → Manager
unfolding crash
error_listener message m = if m.stopping then m else crash (codes "Process error: " ++ message) m

-- A child's pending timers go together: all its pending calls of `stop` are settled by one event.
-- The `once` listeners that `n` calls of `stop` left on child `c`.
unfoldable pub stopped_listeners : Env → ℕ → ℕ → Manager → Manager
unfolding broadcast_status broadcast_clients cleanup
stopped_listeners env c zero m = m
stopped_listeners env c (suc n) m = stopped_listeners env c n (
    emit (stop_resolved c) (
      broadcast_clients []
        (broadcast_status env (cleanup (record m { kill_timers = clear_timers c m.kill_timers })))))

unfoldable pub failed_listeners : Text → ℕ → ℕ → Manager → Manager
unfolding cleanup
failed_listeners message c zero m = m
failed_listeners message c (suc n) m = failed_listeners message c n (
    emit (stop_rejected c message)
      (cleanup (record m { kill_timers = clear_timers c m.kill_timers })))

-- Child `c` emits `exit`: the listeners in the order in which they were added, the `once` ones of
-- which are then gone.
unfoldable pub child_exit : Env → ℕ → Text → Option Text → Manager → Manager
unfolding exit_listener
child_exit env c code signal m =
    let seen = exit_listener code signal m in
    stopped_listeners env c (seen.exit_stops c)
      (record seen { exit_stops = set_at seen.exit_stops c 0 })

unfoldable pub child_error : ℕ → Text → Manager → Manager
unfolding error_listener
child_error c message m =
    let seen = error_listener message m in
    failed_listeners message c (seen.error_stops c)
      (record seen { error_stops = set_at seen.error_stops c 0 })

-- The error code is that of a write to the child's stdin.
unfoldable pub stdin_error : Text → Text → Manager → Manager
stdin_error code message m =
    if text_eq code (codes "EPIPE")
    then m
    else record m { last_error = some (codes "stdin error: " ++ message) }

-- `line.match(/^clients:(\d+)$/)` and `parseInt` of the digits.
unfoldable pub clients_line : Text → Option ℕ
unfolding strip_prefix read_digits
clients_line line = elim (strip_prefix (codes "clients:") line) [
  | none ↦ none
  | some digits ↦
      if not (is_empty digits) && all is_digit digits then some (read_digits 0 digits) else none
]

unfoldable pub parse_lines : List Text → Manager → Manager
unfolding clients_line
parse_lines [] m = m
parse_lines (line ∷ lines) m =
    parse_lines lines
      (elim (clients_line line) [ none ↦ m | some n ↦ record m { connected_clients = n } ])

unfoldable pub parse_stdout : Text → Manager → Manager
unfolding parse_lines split
parse_stdout output m = parse_lines (split 10 output) m

unfoldable pub stderr_data : Text → Manager → Manager
unfolding trim
stderr_data content m =
    if is_empty (trim content)
    then m
    else record m { stderr_buffer = m.stderr_buffer ++ trim content ++ 10 ∷ [] }

unfoldable pub remove_timer : ℕ → List ℕ → List ℕ
remove_timer c [] = []
remove_timer c (d ∷ ds) = if d == c then ds else d ∷ remove_timer c ds

-- The forced kill of one call of `stop`, if its timer is pending.
unfoldable pub kill_timeout : ℕ → Manager → Manager
unfolding remove_timer
kill_timeout c m =
    if has_timer c m.kill_timers
    then emit (signalled sigkill c) (record m { kill_timers = remove_timer c m.kill_timers })
    else m

pub data Event : Type 0 where
  starts : Env → Option ℕ → Event
  stops : Env → Event
  reloads : Env → Option Text → Event
  exits : Env → ℕ → Text → Option Text → Event
  errs : ℕ → Text → Event
  stdin_errs : Text → Text → Event
  prints : Text → Event
  complains : Text → Event
  kills : ℕ → Event
  ticks : Env → Event
  counts : ℕ → Event
  listens : ℕ → Event
  attaches : Event

module _ (is_valid_date : Text → Bool) (stringify : List ClientSession → Text) where
  broadcast_changes : List ClientSession → Manager → Manager
  unfolding broadcast_clients
  broadcast_changes sessions m =
      if text_eq (stringify sessions) m.previous_sessions_json
      then m
      else broadcast_clients sessions (record m { previous_sessions_json = stringify sessions })

  -- One firing of the status timer, if it runs.
  unfoldable pub status_tick : Env → Manager → Manager
  unfolding broadcast_status read_client_sessions broadcast_changes
  status_tick env m =
      let m' = broadcast_status env m in
      if m.status_timer then broadcast_changes (read_client_sessions is_valid_date env m') m' else m

  unfoldable pub step : Event → Manager → Manager
  step (starts env pid) m = (start env pid m).0
  step (stops env) m = (stop env m).0
  step (reloads env failure) m = (reload env failure m).0
  step (exits env c code signal) m = child_exit env c code signal m
  step (errs c message) m = child_error c message m
  step (stdin_errs code message) m = stdin_error code message m
  step (prints output) m = parse_stdout output m
  step (complains content) m = stderr_data content m
  step (kills c) m = kill_timeout c m
  step (ticks env) m = status_tick env m
  step (counts n) m = update_connected_clients n m
  step (listens handler) m = on_crash handler m
  step attaches m = set_sse_hub m

  unfoldable pub run : List Event → Manager → Manager
  run [] m = m
  run (e ∷ es) m = run es (step e m)
