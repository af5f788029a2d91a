-- ===== src/Process/Manager/Status.antt =====
-- src/process-manager/index.ts: what the other components rely on of the manager.
use opcua_light_server.Prelude.{◌≡◌, Bool, true, some, arith, is_some}
use opcua_light_server.Process.Manager.{Manager, Env, running, get_status, write_to_stdin, returns}

pub get_status-state : (env : Env) (m : Manager) → (get_status env m).state ≡ m.state
unfolding get_status
get_status-state env m = ground arith

pub write_to_stdin-live :
    (b : Bool) (m : Manager)
    → m.state ≡ running
    → is_some m.process ≡ true
    → write_to_stdin (some b) m ≡ returns b
unfolding write_to_stdin
write_to_stdin-live b m r p = ground arith
