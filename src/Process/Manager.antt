-- ===== src/Process/Manager.antt =====
-- src/process-manager/index.ts: the life of the runtime process.
-- A child that was spawned with a pid is its number, from 0. What Node's event loop holds for it is
-- part of the state: how many `once` listeners calls of `stop` left on it, and the pending timers.
pub mod Events
pub mod Invariant
pub mod Settling
pub mod Consistency
pub mod Quiet
pub mod Lifecycle
pub mod Status
pub mod Tests
use opcua_light_server.Prelude.{
  ℕ, suc, ◌-◌, ◌/◌, Bool, true, false, ◌&&◌, not, Option, none, some, List, [], ◌∷◌, ◌++◌, ◌==◌,
  if◌then◌else◌, is_some, is_empty, Text, codes,
}
use opcua_light_server.Prelude.Json.{Json, num, obj, null, bool, str, arr, get}
use opcua_light_server.Process.Sessions.{ClientSession, validate_sessions}

pub data ServerState : Type 0 where
  running stopped error : ServerState

abbrev pub is_running : ServerState → Bool
is_running running = true
is_running stopped = false
is_running error = false

pub record ServerStatus : Type 0 where
  pub state : ServerState
  pub uptime : Option ℕ
  pub pid : Option ℕ
  pub connected_clients : Option ℕ
  pub last_error : Option Text
  pub hostname : Text

pub data Signal : Type 0 where
  sigterm sigkill sigusr1 taskkill reload_pipe : Signal

-- What the manager does to the outside, oldest first.
pub data Output : Type 0 where
  signalled : Signal → ℕ → Output
  status_broadcast : ServerStatus → Output
  clients_broadcast : List ClientSession → Output
  crash_reported : ℕ → Text → Output
  stop_resolved : ℕ → Output
  stop_rejected : ℕ → Text → Output

pub record Manager : Type 0 where
  pub process : Option ℕ
  pub state : ServerState
  pub started_at : Option ℕ
  pub last_error : Option Text
  pub connected_clients : ℕ
  pub stopping : Bool
  pub crash_handlers : List ℕ
  pub stderr_buffer : Text
  pub sse_hub : Bool
  pub status_timer : Bool
  pub previous_sessions_json : Text
  pub spawned : ℕ
  pub pid_of : ℕ → ℕ
  pub exit_stops : ℕ → ℕ
  pub error_stops : ℕ → ℕ
  pub kill_timers : List ℕ
  pub out : List Output

pub data ManagerError : Type 0 where
  already_running not_running spawn_failed : ManagerError
  reload_failed : Text → ManagerError

pub data Attempt (A : Type 0) : Type 0 where
  returns : A → Attempt A
  throws : ManagerError → Attempt A

-- What a call reads from outside: the clock in milliseconds, the network address, the platform, and
-- the parsed status.json (`none`: missing, unreadable or no JSON; its numbers are counts).
pub record Env : Type 0 where
  pub now : ℕ
  pub hostname : Text
  pub win32 : Bool
  pub status_file : Option (Json ℕ)

pub init : Manager
init = record {
  process = none;
  state = stopped;
  started_at = none;
  last_error = none;
  connected_clients = 0;
  stopping = false;
  crash_handlers = [];
  stderr_buffer = [];
  sse_hub = false;
  status_timer = false;
  previous_sessions_json = codes "[]";
  spawned = 0;
  pid_of = λ c. 0;
  exit_stops = λ c. 0;
  error_stops = λ c. 0;
  kill_timers = [];
  out = [];
}

abbrev pub set_at : (ℕ → ℕ) → ℕ → ℕ → ℕ → ℕ
set_at f c v d = if d == c then v else f d

abbrev pub emit : Output → Manager → Manager
emit o m = record m { out = m.out ++ o ∷ [] }

pub set_sse_hub : Manager → Manager
set_sse_hub m = record m { sse_hub = true }

pub on_crash : ℕ → Manager → Manager
on_crash handler m = record m { crash_handlers = m.crash_handlers ++ handler ∷ [] }

pub update_connected_clients : ℕ → Manager → Manager
update_connected_clients count m = record m { connected_clients = count }

abbrev count_of : Option (Json ℕ) → ℕ
count_of (some (num n)) = n
count_of none = 0
count_of (some null) = 0
count_of (some (bool b)) = 0
count_of (some (str s)) = 0
count_of (some (arr xs)) = 0
count_of (some (obj fs)) = 0

-- The file's `name` member; reading one of `null` throws, which the callers catch.
abbrev member : Text → Option (Json ℕ) → Option (Json ℕ)
member name (some (obj fs)) = get name fs
member name none = none
member name (some null) = none
member name (some (bool b)) = none
member name (some (num n)) = none
member name (some (str s)) = none
member name (some (arr xs)) = none

pub read_connected_clients : Env → ℕ
unfolding get
read_connected_clients env = count_of (member (codes "connectedClients") env.status_file)

-- `if (this.lastError)`: an empty message counts as none.
abbrev truthy : Option Text → Option Text
truthy none = none
truthy (some e) = if is_empty e then none else some e

-- The clock is taken not to run backwards.
pub get_status : Env → Manager → ServerStatus
unfolding read_connected_clients
get_status env m = elim m.started_at [
  | none ↦ basic
  | some t ↦
      if is_running m.state
      then record basic {
        uptime = some ((env.now - t) / 1000);
        pid = elim m.process [ none ↦ none | some c ↦ some (m.pid_of c) ];
        connected_clients = some (read_connected_clients env);
      }
      else basic
]
  where
    basic : ServerStatus
    basic = record {
      state = m.state;
      uptime = none;
      pid = none;
      connected_clients = none;
      last_error = truthy m.last_error;
      hostname = env.hostname;
    }

pub broadcast_status : Env → Manager → Manager
broadcast_status env m = if m.sse_hub then emit (status_broadcast (get_status env m)) m else m

pub broadcast_clients : List ClientSession → Manager → Manager
broadcast_clients sessions m = if m.sse_hub then emit (clients_broadcast sessions) m else m

pub start_status_timer : Manager → Manager
start_status_timer m = if m.status_timer then m else record m { status_timer = true }

pub stop_status_timer : Manager → Manager
stop_status_timer m = if m.status_timer then record m { status_timer = false } else m

pub cleanup : Manager → Manager
unfolding stop_status_timer
cleanup m = record (stop_status_timer m) {
  state = stopped;
  process = none;
  started_at = none;
  connected_clients = 0;
  stopping = false;
  stderr_buffer = [];
  previous_sessions_json = codes "[]";
}

-- From `this.process = child` on: the child has the pid `pid`.
launch : Env → ℕ → Manager → Manager
unfolding broadcast_status start_status_timer
launch env pid m = start_status_timer (
    broadcast_status env (record m {
      process = some m.spawned;
      state = running;
      started_at = some env.now;
      connected_clients = 0;
      spawned = suc m.spawned;
      pid_of = set_at m.pid_of m.spawned pid;
    }))

fail_spawn : Manager → Manager × Attempt (ℕ × ℕ)
fail_spawn m = (
  record m { state = error; last_error = some (codes "Failed to spawn process: no PID assigned") },
  throws spawn_failed,
)

-- `spawn` gives a pid, or none (or 0) on failure.
spawn : Env → Option ℕ → Manager → Manager × Attempt (ℕ × ℕ)
unfolding launch fail_spawn
spawn env none m = fail_spawn m
spawn env (some pid) m =
    if pid == 0 then fail_spawn m else (launch env pid m, returns (pid, env.now))

pub start : Env → Option ℕ → Manager → Manager × Attempt (ℕ × ℕ)
unfolding spawn
start env pid m =
    if is_running m.state && is_some m.process
    then (m, throws already_running)
    else spawn env pid (record m { stopping = false; last_error = none; stderr_buffer = [] })

-- The promise is pending; what settles it is the child's next `exit` or `error`.
pub stop : Env → Manager → Manager × Attempt (Unit {0})
stop env m = elim m.process [
  | none ↦ (m, throws not_running)
  | some c ↦
      if is_running m.state
      then (
        emit (signalled (if env.win32 then taskkill else sigterm) c) (record m {
          stopping = true;
          exit_stops = set_at m.exit_stops c (suc (m.exit_stops c));
          error_stops = set_at m.error_stops c (suc (m.error_stops c));
          kill_timers = m.kill_timers ++ c ∷ [];
        }),
        returns tt,
      )
      else (m, throws not_running)
]

-- `failure` is the message with which sending the signal fails, if it does.
pub reload : Env → Option Text → Manager → Manager × Attempt (Unit {0})
unfolding broadcast_status
reload env failure m = elim m.process [
  | none ↦ (m, throws not_running)
  | some c ↦
      if is_running m.state && not (m.pid_of c == 0)
      then (elim failure [
        | some message ↦ (m, throws (reload_failed message))
        | none ↦ (
          broadcast_status env (emit (signalled (if env.win32 then reload_pipe else sigusr1) c) m),
          returns tt,
        )
      ])
      else (m, throws not_running)
]

pub read_client_sessions : (Text → Bool) → Env → Manager → List ClientSession
unfolding get
read_client_sessions is_valid_date env m =
    if is_running m.state
    then validate_sessions is_valid_date (member (codes "sessions") env.status_file)
    else []

-- `accepts` is `none` where the pipe is missing, destroyed or not writable, and else what
-- `stdin.write` answers.
pub write_to_stdin : Option Bool → Manager → Attempt Bool
write_to_stdin accepts m =
    if is_running m.state && is_some m.process
    then returns (elim accepts [ none ↦ false | some b ↦ b ])
    else throws not_running
