-- ===== src/Process/Manager/Quiet.antt =====
-- src/process-manager/index.ts: what the callbacks of `stop` report.
use opcua_light_server.Prelude.{
  ℕ, zero, suc, ◌+◌, ◌≡◌, refl, List, [], ◌∷◌, ◌++◌, arith, ◌∙◌, clear_timers,
}
use opcua_light_server.Process.Manager.{
  Manager, Env, Output, crash_reported, stop_resolved, status_broadcast, clients_broadcast,
  broadcast_status, broadcast_clients, cleanup, emit, get_status,
}
use opcua_light_server.Process.Manager.Events.{stopped_listeners}

abbrev pub count_crashes : List Output → ℕ
count_crashes [] = 0
count_crashes (crash_reported h r ∷ os) = suc (count_crashes os)
count_crashes (o ∷ os) = count_crashes os

abbrev pub count_resolved : List Output → ℕ
count_resolved [] = 0
count_resolved (stop_resolved c ∷ os) = suc (count_resolved os)
count_resolved (o ∷ os) = count_resolved os

pub count_crashes-append :
    (os ps : List Output) → count_crashes (os ++ ps) ≡ count_crashes os + count_crashes ps
count_crashes-append [] ps = omega arith
count_crashes-append (crash_reported h r ∷ os) ps = omega (arith, count_crashes-append os ps)
count_crashes-append (o ∷ os) ps = omega (arith, count_crashes-append os ps)

pub count_resolved-append :
    (os ps : List Output) → count_resolved (os ++ ps) ≡ count_resolved os + count_resolved ps
count_resolved-append [] ps = omega arith
count_resolved-append (stop_resolved c ∷ os) ps = omega (arith, count_resolved-append os ps)
count_resolved-append (o ∷ os) ps = omega (arith, count_resolved-append os ps)

-- What the callbacks of `n` calls of `stop` do besides: they resolve, and report no crash.
pub record IsQuiet (n : ℕ) (m m' : Manager) : Type 0 where
  pub last_error : m'.last_error ≡ m.last_error
  pub crashes : count_crashes m'.out ≡ count_crashes m.out
  pub resolved : count_resolved m'.out ≡ count_resolved m.out + n

IsQuiet-trans :
    (k n t : ℕ) (m m' m'' : Manager)
    → k + n ≡ t
    → IsQuiet k m m'
    → IsQuiet n m' m''
    → IsQuiet t m m''
IsQuiet-trans k n t m m' m'' e a b = record {
  last_error = b.last_error ∙ a.last_error;
  crashes = omega arith;
  resolved = omega arith;
}

broadcast_status-IsQuiet : (env : Env) (m : Manager) → IsQuiet 0 m (broadcast_status env m)
unfolding broadcast_status
broadcast_status-IsQuiet env m = ground (
  arith,
  count_crashes-append m.out (status_broadcast (get_status env m) ∷ []),
  count_resolved-append m.out (status_broadcast (get_status env m) ∷ []),
)

broadcast_clients-IsQuiet : (m : Manager) → IsQuiet 0 m (broadcast_clients [] m)
unfolding broadcast_clients
broadcast_clients-IsQuiet m = ground (
  arith,
  count_crashes-append m.out (clients_broadcast [] ∷ []),
  count_resolved-append m.out (clients_broadcast [] ∷ []),
)

cleanup-IsQuiet :
    (ts : List ℕ) (m : Manager) → IsQuiet 0 m (cleanup (record m { kill_timers = ts }))
unfolding cleanup
cleanup-IsQuiet ts m = ground arith

resolve-IsQuiet : (c : ℕ) (m : Manager) → IsQuiet 1 m (emit (stop_resolved c) m)
resolve-IsQuiet c m = record {
  last_error = refl;
  crashes = omega (arith, count_crashes-append m.out (stop_resolved c ∷ []));
  resolved = omega (arith, count_resolved-append m.out (stop_resolved c ∷ []));
}

-- The callback of one call of `stop`.
settled_one : Env → ℕ → Manager → Manager
settled_one env c m = emit (stop_resolved c) (
    broadcast_clients []
      (broadcast_status env (cleanup (record m { kill_timers = clear_timers c m.kill_timers }))))

settled_one-IsQuiet : (env : Env) (c : ℕ) (m : Manager) → IsQuiet 1 m (settled_one env c m)
unfolding settled_one
settled_one-IsQuiet env c m =
    let cleaned = cleanup (record m { kill_timers = clear_timers c m.kill_timers }) in
    let told = broadcast_status env cleaned in
    IsQuiet-trans 0 1 1 m (broadcast_clients [] told) _ refl
      (IsQuiet-trans 0 0 0 m told _ refl
        (IsQuiet-trans 0 0 0 m cleaned _ refl (cleanup-IsQuiet _ m)
          (broadcast_status-IsQuiet env cleaned))
        (broadcast_clients-IsQuiet told))
      (resolve-IsQuiet c (broadcast_clients [] told))

stopped_listeners-suc :
    (env : Env) (c n : ℕ) (m : Manager)
    → stopped_listeners env c (suc n) m ≡ stopped_listeners env c n (settled_one env c m)
unfolding stopped_listeners settled_one
stopped_listeners-suc env c n m = refl

pub stopped_listeners-IsQuiet :
    (env : Env) (c n : ℕ) (m : Manager) → IsQuiet n m (stopped_listeners env c n m)
stopped_listeners-IsQuiet env c zero m =
    unfold stopped_listeners in record { last_error = refl; crashes = refl; resolved = omega arith }
stopped_listeners-IsQuiet env c (suc n) m = rw (stopped_listeners-suc env c n m) (
    IsQuiet-trans 1 n (suc n) m (settled_one env c m) _ (omega arith) (settled_one-IsQuiet env c m)
      (stopped_listeners-IsQuiet env c n (settled_one env c m)))
