-- ===== src/Prelude/Handles.antt =====
-- Lists of numbers that stand for pending timers.
use Prim.Native.Nat.{ℕ}
use mathlib.Core.Path.{◌≡◌, refl}
use mathlib.Core.Bool.{Bool, false, ◌||◌, ◌&&◌, not}
use mathlib.Core.List.{List, [], ◌∷◌, ◌++◌}
use native.Mathlib.Omega.{arith}
use opcua_light_server.Prelude.Tests.{◌==◌}
use opcua_light_server.Prelude.Lists.{any, keep}

abbrev pub has_timer : ℕ → List ℕ → Bool
has_timer c = any (λ d. d == c)

abbrev pub clear_timers : ℕ → List ℕ → List ℕ
clear_timers c = keep (λ d. not (d == c))

pub has_timer-append :
    (c d : ℕ) (ts : List ℕ) → has_timer d (ts ++ c ∷ []) ≡ (has_timer d ts || (c == d))
has_timer-append c d [] = ground arith
has_timer-append c d (t ∷ ts) = ground (arith, has_timer-append c d ts)

pub has_timer-clear_timers :
    (c d : ℕ) (ts : List ℕ) → has_timer d (clear_timers c ts) ≡ (not (d == c) && has_timer d ts)
has_timer-clear_timers c d [] = ground arith
has_timer-clear_timers c d (t ∷ ts) = ground (arith, has_timer-clear_timers c d ts)

pub eq_nil_of_has_timer : (ts : List ℕ) → ((t : ℕ) → has_timer t ts ≡ false) → ts ≡ []
eq_nil_of_has_timer [] h = refl
eq_nil_of_has_timer (t ∷ ts) h = ground (arith, h t)
