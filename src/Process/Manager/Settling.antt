-- ===== src/Process/Manager/Settling.antt =====
-- src/process-manager/index.ts: a child's `exit` and `error`, which settle the calls of `stop`.
use opcua_light_server.Prelude.{
  ℕ, zero, suc, ◌≡◌, refl, ap, ◌⊎◌, inl, inr, Bool, true, false, Option, none, List, [], ◌∷◌, arith,
  Text, if◌then◌else◌, has_timer, clear_timers, has_timer-clear_timers,
}
use opcua_light_server.Process.Manager.{Manager, Env, stopped, set_at}
use opcua_light_server.Process.Manager.Events.{
  stopped_listeners, failed_listeners, exit_listener, error_listener, child_exit, child_error,
  crash,
}
use opcua_light_server.Process.Manager.Invariant.{IsConsistent}

-- What any positive number of settled calls of `stop` leaves.
pub record IsCleaned (c : ℕ) (m m' : Manager) : Type 0 where
  pub process : m'.process ≡ none
  pub state : m'.state ≡ stopped
  pub started_at : m'.started_at ≡ none
  pub stopping : m'.stopping ≡ false
  pub status_timer : m'.status_timer ≡ false
  pub spawned : m'.spawned ≡ m.spawned
  pub exit_stops : m'.exit_stops ≡ m.exit_stops
  pub error_stops : m'.error_stops ≡ m.error_stops
  pub kill_timers : m'.kill_timers ≡ clear_timers c m.kill_timers

clear_timers_idempotent :
    (c : ℕ) (ts : List ℕ) → clear_timers c (clear_timers c ts) ≡ clear_timers c ts
clear_timers_idempotent c [] = refl
clear_timers_idempotent c (t ∷ ts) = ground (arith, clear_timers_idempotent c ts)

IsCleaned-trans :
    (c : ℕ) (m m' m'' : Manager) → IsCleaned c m m' → IsCleaned c m' m'' → IsCleaned c m m''
IsCleaned-trans c m m' m'' a b =
    ground (arith, clear_timers_idempotent c m.kill_timers, ap (clear_timers c) a.kill_timers)

stopped_listener-IsCleaned :
    (env : Env) (c : ℕ) (m : Manager) → IsCleaned c m (stopped_listeners env c 1 m)
unfolding stopped_listeners
stopped_listener-IsCleaned env c m = ground arith

pub stopped_listeners-IsCleaned :
    (env : Env) (c n : ℕ) (m : Manager) → IsCleaned c m (stopped_listeners env c (suc n) m)
unfolding stopped_listeners
stopped_listeners-IsCleaned env c zero m = stopped_listener-IsCleaned env c m
stopped_listeners-IsCleaned env c (suc n) m =
    IsCleaned-trans c m _ _ (stopped_listener-IsCleaned env c m)
      (stopped_listeners-IsCleaned env c n _)

failed_listener-IsCleaned :
    (message : Text) (c : ℕ) (m : Manager) → IsCleaned c m (failed_listeners message c 1 m)
unfolding failed_listeners
failed_listener-IsCleaned message c m = ground arith

failed_listeners-IsCleaned :
    (message : Text) (c n : ℕ) (m : Manager) → IsCleaned c m (failed_listeners message c (suc n) m)
unfolding failed_listeners
failed_listeners-IsCleaned message c zero m = failed_listener-IsCleaned message c m
failed_listeners-IsCleaned message c (suc n) m =
    IsCleaned-trans c m _ _ (failed_listener-IsCleaned message c m)
      (failed_listeners-IsCleaned message c n _)

ℕ-cases : (n : ℕ) → (n ≡ 0) ⊎ ((k : ℕ) × (n ≡ suc k))
ℕ-cases zero = inl refl
ℕ-cases (suc n) = inr (n, refl)

crash-IsConsistent :
    (reason : Text) (m : Manager)
    → IsConsistent m
    → m.stopping ≡ false
    → IsConsistent (crash reason m)
unfolding crash
crash-IsConsistent reason m v e = record {
  live = ground arith;
  timed = ground arith;
  idle = ground arith;
  ending = ground arith;
  known = λ d. ground arith;
  fresh = v.fresh;
  awaited = λ d. ground arith;
  unawaited = λ d. ground arith;
  timers = v.timers;
}

if-IsConsistent :
    (b : Bool) {m m' : Manager}
    → IsConsistent m
    → (b ≡ false → IsConsistent m')
    → IsConsistent (if b then m else m')
if-IsConsistent true v k = v
if-IsConsistent false v k = k refl

-- The calls of `stop` that waited for `exit` of `c` have been settled.
exited-IsConsistent :
    (c : ℕ) (m m' : Manager)
    → IsConsistent m
    → IsCleaned c (record m { exit_stops = set_at m.exit_stops c 0 }) m'
    → IsConsistent m'
exited-IsConsistent c m m' v k = record {
  live = ground arith;
  timed = ground arith;
  idle = ground arith;
  ending = ground arith;
  known = λ d. ground arith;
  fresh = λ d. ground (arith, v.fresh d, exits d, errors d);
  awaited = λ d. ground arith;
  unawaited = λ d. ground arith;
  timers = λ d.
      ground
        (arith, v.timers d, exits d, errors d, left d, has_timer-clear_timers c d m.kill_timers);
}
  where
    exits : (d : ℕ) → m'.exit_stops d ≡ set_at m.exit_stops c 0 d
    exits d = ap (λ f. f d) k.exit_stops

    errors : (d : ℕ) → m'.error_stops d ≡ m.error_stops d
    errors d = ap (λ f. f d) k.error_stops

    left : (d : ℕ) → has_timer d m'.kill_timers ≡ has_timer d (clear_timers c m.kill_timers)
    left d = ap (has_timer d) k.kill_timers

-- No call of `stop` waited for `exit` of `c`.
unexited-IsConsistent :
    (c : ℕ) (m : Manager)
    → IsConsistent m
    → m.exit_stops c ≡ 0
    → IsConsistent (record m { exit_stops = set_at m.exit_stops c 0 })
unexited-IsConsistent c m v z = record {
  live = v.live;
  timed = v.timed;
  idle = v.idle;
  ending = v.ending;
  known = v.known;
  fresh = λ d. ground (arith, v.fresh d);
  awaited = λ d. ground (arith, v.awaited d);
  unawaited = λ d. ground (arith, v.unawaited d);
  timers = λ d. ground (arith, v.timers d);
}

exit_listener-IsConsistent :
    (code : Text) (signal : Option Text) (m : Manager)
    → IsConsistent m
    → IsConsistent (exit_listener code signal m)
unfolding exit_listener
exit_listener-IsConsistent code signal m v = if-IsConsistent m.stopping v (crash-IsConsistent _ m v)

pub child_exit-IsConsistent :
    (env : Env) (c : ℕ) (code : Text) (signal : Option Text) (m : Manager)
    → IsConsistent m
    → IsConsistent (child_exit env c code signal m)
unfolding child_exit stopped_listeners
child_exit-IsConsistent env c code signal m v =
    settle (exit_listener code signal m) (exit_listener-IsConsistent code signal m v)
  where
    settle :
        (r : Manager)
        → IsConsistent r
        → IsConsistent (
            stopped_listeners env c
              (r.exit_stops c)
              (record r { exit_stops = set_at r.exit_stops c 0 }))
    settle r w = elim (ℕ-cases (r.exit_stops c)) [
      | inl z ↦ rw z (unexited-IsConsistent c r w z)
      | inr (n, e) ↦ rw e (exited-IsConsistent c r _ w (stopped_listeners-IsCleaned env c n _))
    ]

-- The calls of `stop` that waited for `error` of `c` have been settled.
errored-IsConsistent :
    (c : ℕ) (m m' : Manager)
    → IsConsistent m
    → IsCleaned c (record m { error_stops = set_at m.error_stops c 0 }) m'
    → IsConsistent m'
errored-IsConsistent c m m' v k = record {
  live = ground arith;
  timed = ground arith;
  idle = ground arith;
  ending = ground arith;
  known = λ d. ground arith;
  fresh = λ d. ground (arith, v.fresh d, exits d, errors d);
  awaited = λ d. ground arith;
  unawaited = λ d. ground arith;
  timers = λ d.
      ground
        (arith, v.timers d, exits d, errors d, left d, has_timer-clear_timers c d m.kill_timers);
}
  where
    exits : (d : ℕ) → m'.exit_stops d ≡ m.exit_stops d
    exits d = ap (λ f. f d) k.exit_stops

    errors : (d : ℕ) → m'.error_stops d ≡ set_at m.error_stops c 0 d
    errors d = ap (λ f. f d) k.error_stops

    left : (d : ℕ) → has_timer d m'.kill_timers ≡ has_timer d (clear_timers c m.kill_timers)
    left d = ap (has_timer d) k.kill_timers

-- No call of `stop` waited for `error` of `c`.
unerrored-IsConsistent :
    (c : ℕ) (m : Manager)
    → IsConsistent m
    → m.error_stops c ≡ 0
    → IsConsistent (record m { error_stops = set_at m.error_stops c 0 })
unerrored-IsConsistent c m v z = record {
  live = v.live;
  timed = v.timed;
  idle = v.idle;
  ending = v.ending;
  known = v.known;
  fresh = λ d. ground (arith, v.fresh d);
  awaited = λ d. ground (arith, v.awaited d);
  unawaited = λ d. ground (arith, v.unawaited d);
  timers = λ d. ground (arith, v.timers d);
}

error_listener-IsConsistent :
    (message : Text) (m : Manager) → IsConsistent m → IsConsistent (error_listener message m)
unfolding error_listener
error_listener-IsConsistent message m v = if-IsConsistent m.stopping v (crash-IsConsistent _ m v)

pub child_error-IsConsistent :
    (c : ℕ) (message : Text) (m : Manager) → IsConsistent m → IsConsistent (child_error c message m)
unfolding child_error failed_listeners
child_error-IsConsistent c message m v =
    settle (error_listener message m) (error_listener-IsConsistent message m v)
  where
    settle :
        (r : Manager)
        → IsConsistent r
        → IsConsistent (
            failed_listeners message c
              (r.error_stops c)
              (record r { error_stops = set_at r.error_stops c 0 }))
    settle r w = elim (ℕ-cases (r.error_stops c)) [
      | inl z ↦ rw z (unerrored-IsConsistent c r w z)
      | inr (n, e) ↦ rw e (errored-IsConsistent c r _ w (failed_listeners-IsCleaned message c n _))
    ]
