-- ===== src/Process/Manager/Invariant.antt =====
-- src/process-manager/index.ts: what holds of the manager after any sequence of events.
use opcua_light_server.Prelude.{
  ℕ, ◌≤◌, ◌<◌, ◌≡◌, Bool, true, false, Option, none, some, List, [], ◌∷◌, arith, ap, is_some, Text,
  Option-cases, inl, inr, has_timer, has_timer-append,
}
use opcua_light_server.Process.Sessions.{ClientSession}
use opcua_light_server.Process.Manager.{
  Manager, Env, running, stopped, is_running, start, stop, reload,
}
use opcua_light_server.Process.Manager.Events.{parse_lines, clients_line, remove_timer, status_tick}

-- A call of `stop` waits for child `c` on both of its events.
abbrev pub IsAwaited : Manager → ℕ → Type 0
IsAwaited m c = (0 < m.exit_stops c) × (0 < m.error_stops c)

abbrev pub IsUnawaited : Manager → ℕ → Type 0
IsUnawaited m c = (m.exit_stops c ≡ 0) × (m.error_stops c ≡ 0)

-- A process is held exactly in the state `running`, where a start time is known and the status timer
-- runs; the manager is stopping only then, and exactly if calls of `stop` wait for that process;
-- stopped, it has no start time and no timer; a forced kill is pending only for a child that is
-- waited for.
pub record IsConsistent (m : Manager) : Type 0 where
  pub live : is_some m.process ≡ is_running m.state
  pub timed : m.state ≡ running → (is_some m.started_at ≡ true) × (m.status_timer ≡ true)
  pub idle : m.state ≡ stopped → (m.started_at ≡ none) × (m.status_timer ≡ false)
  pub ending : m.stopping ≡ true → m.state ≡ running
  pub known : (c : ℕ) → m.process ≡ some c → c < m.spawned
  pub fresh : (c : ℕ) → m.spawned ≤ c → IsUnawaited m c
  pub awaited : (c : ℕ) → m.process ≡ some c → m.stopping ≡ true → IsAwaited m c
  pub unawaited : (c : ℕ) → m.process ≡ some c → m.stopping ≡ false → IsUnawaited m c
  pub timers : (c : ℕ) → has_timer c m.kill_timers ≡ true → IsAwaited m c

pub start-IsConsistent :
    (env : Env) (pid : Option ℕ) (m : Manager) → IsConsistent m → IsConsistent (start env pid m).0
unfolding start
start-IsConsistent env none m v = record {
  live = ground arith;
  timed = ground arith;
  idle = ground arith;
  ending = ground arith;
  known = λ c. ground (arith, v.known c);
  fresh = λ c. ground (arith, v.fresh c);
  awaited = λ c. ground (arith, v.awaited c);
  unawaited = λ c. ground (arith, v.unawaited c);
  timers = λ c. ground (arith, v.timers c);
}
start-IsConsistent env (some pid) m v = record {
  live = ground arith;
  timed = ground arith;
  idle = ground arith;
  ending = ground arith;
  known = λ c. ground (arith, v.known c);
  fresh = λ c. ground (arith, v.fresh c);
  awaited = λ c. ground (arith, v.awaited c);
  unawaited = λ c. ground (arith, v.unawaited c, v.fresh m.spawned);
  timers = λ c. ground (arith, v.timers c);
}

pub has_timer-remove_timer :
    (c d : ℕ) (ts : List ℕ) → has_timer d (remove_timer c ts) ≡ true → has_timer d ts ≡ true
unfolding remove_timer
has_timer-remove_timer c d [] h = h
has_timer-remove_timer c d (t ∷ ts) h = ground (arith, has_timer-remove_timer c d ts)

pub stop-IsConsistent : (env : Env) (m : Manager) → IsConsistent m → IsConsistent (stop env m).0
unfolding stop
stop-IsConsistent env m v = elim (Option-cases m.process) [
  | inl e ↦ rw (e, stop) v
  | inr (p, e) ↦
      rw (e, stop)
        (record {
          live = ground arith;
          timed = ground arith;
          idle = ground arith;
          ending = ground arith;
          known = λ c. ground (arith, v.known c);
          fresh = λ c. ground (arith, v.fresh c, v.known p e);
          awaited = λ c. ground (arith, v.awaited c);
          unawaited = λ c. ground (arith, v.unawaited c);
          timers = λ c. ground (arith, v.timers c, has_timer-append p c m.kill_timers);
        })
]

-- What the invariant speaks of; all else may differ.
pub record IsAlike (m m' : Manager) : Type 0 where
  pub process : m'.process ≡ m.process
  pub state : m'.state ≡ m.state
  pub started_at : m'.started_at ≡ m.started_at
  pub stopping : m'.stopping ≡ m.stopping
  pub status_timer : m'.status_timer ≡ m.status_timer
  pub spawned : m'.spawned ≡ m.spawned
  pub exit_stops : m'.exit_stops ≡ m.exit_stops
  pub error_stops : m'.error_stops ≡ m.error_stops
  pub kill_timers : m'.kill_timers ≡ m.kill_timers

pub IsAlike-IsConsistent : (m m' : Manager) → IsAlike m m' → IsConsistent m → IsConsistent m'
IsAlike-IsConsistent m m' a v = record {
  live = ground arith;
  timed = ground arith;
  idle = ground arith;
  ending = ground arith;
  known = λ c. ground (arith, v.known c);
  fresh = λ c. ground (arith, v.fresh c, exits c, errors c);
  awaited = λ c. ground (arith, v.awaited c, exits c, errors c);
  unawaited = λ c. ground (arith, v.unawaited c, exits c, errors c);
  timers = λ c. ground (arith, v.timers c, exits c, errors c);
}
  where
    exits : (c : ℕ) → m'.exit_stops c ≡ m.exit_stops c
    exits c = ap (λ f. f c) a.exit_stops

    errors : (c : ℕ) → m'.error_stops c ≡ m.error_stops c
    errors c = ap (λ f. f c) a.error_stops

pub reload-IsAlike :
    (env : Env) (failure : Option Text) (m : Manager) → IsAlike m (reload env failure m).0
unfolding reload
reload-IsAlike env failure m = ground arith

pub parse_lines-IsAlike : (lines : List Text) (m : Manager) → IsAlike m (parse_lines lines m)
unfolding parse_lines
parse_lines-IsAlike [] m = ground arith
parse_lines-IsAlike (line ∷ lines) m = elim (Option-cases (clients_line line)) [
  | inl e ↦ rw e (parse_lines-IsAlike lines m)
  | inr (n, e) ↦
      rw e (ground (arith, parse_lines-IsAlike lines (record m { connected_clients = n })))
]

pub status_tick-IsAlike :
    (is_valid_date : Text → Bool) (stringify : List ClientSession → Text) (env : Env) (m : Manager)
    → IsAlike m (status_tick is_valid_date stringify env m)
unfolding status_tick
status_tick-IsAlike is_valid_date stringify env m = ground arith
