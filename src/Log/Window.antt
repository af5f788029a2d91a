-- ===== src/Log/Window.antt =====
-- src/log/index.ts: the log is a window on its history.
use opcua_light_server.Prelude.{
  ℕ, zero, suc, ◌+◌, ◌-◌, ◌≤◌, ◌<◌, ◌≡◌, refl, Bool, String, List, [], ◌∷◌, ◌++◌, arith, length,
  drop, length-append, ◌∙◌, ap, sym,
}
use mathlib.Core.List.{append-nil, append_assoc}
use opcua_light_server.Log.{LogEntry, LogService, push_entry, log, max_entries}

-- The last `n` of a list.
abbrev pub last : ℕ → List LogEntry → List LogEntry
last n es = drop (length es - n) es

drop-append : (n : ℕ) (es fs : List LogEntry) → n ≤ length es → drop n (es ++ fs) ≡ drop n es ++ fs
drop-append zero es fs h = refl
drop-append (suc n) [] fs h = absurd (omega arith)
drop-append (suc n) (e ∷ es) fs h = drop-append n es fs (omega arith)

drop-suc : (n : ℕ) (es : List LogEntry) → drop (suc n) es ≡ drop 1 (drop n es)
drop-suc zero es = refl
drop-suc (suc n) [] = refl
drop-suc (suc n) (e ∷ es) = drop-suc n es

length-drop : (n : ℕ) (es : List LogEntry) → length (drop n es) ≡ length es - n
length-drop zero es = omega arith
length-drop (suc n) [] = omega arith
length-drop (suc n) (e ∷ es) = omega (arith, length-drop n es)

-- All entries that were ever logged, oldest first, give the window.
pub log_all : (ℕ → Bool) → (LogEntry → String) → List LogEntry → LogService → LogService
log_all writable stringify [] s = s
log_all writable stringify (e ∷ es) s = log_all writable stringify es (log writable stringify e s)

-- The step with the two cuts named: `k` entries were cut before, `m` are now.
push_entry-drop :
    (limit k m : ℕ) (e : LogEntry) (history : List LogEntry)
    → 0 < limit
    → k ≡ length history - limit
    → m ≡ length history + 1 - limit
    → push_entry limit e (drop k history) ≡ drop m (history ++ e ∷ [])
unfolding push_entry
push_entry-drop limit zero zero e history p h j = ground (arith, length-append history (e ∷ []))
push_entry-drop limit zero (suc m) e history p h j =
    let c : m ≡ 0 = omega arith in ground (arith, length-append history (e ∷ []), c)
push_entry-drop limit (suc k) zero e history p h j = absurd (omega arith)
push_entry-drop limit (suc k) (suc m) e history p h j =
    let c : m ≡ suc k = omega arith in
    ground (
      arith,
      length-append (drop (suc k) history) (e ∷ []),
      length-drop (suc k) history,
      drop-append (suc k) history (e ∷ []) (omega arith),
      drop-suc (suc k) (history ++ e ∷ []),
      c,
      ap (λ i. drop (suc i) (history ++ e ∷ [])) c,
    )

push_entry-last :
    (limit : ℕ) (e : LogEntry) (history : List LogEntry)
    → 0 < limit
    → push_entry limit e (last limit history) ≡ last limit (history ++ e ∷ [])
push_entry-last limit e history p =
    push_entry-drop limit (length history - limit) (length (history ++ e ∷ []) - limit) e history p
      refl (omega (arith, length-append history (e ∷ [])))

-- A log whose entries are the last 1000 of a history has, after any further calls of
-- `log`, the last 1000 of the longer history, in the order of the calls, whatever
-- clients the hub of the service has.
pub log_all-last :
    (writable : ℕ → Bool) (stringify : LogEntry → String) (s : LogService) (past es : List LogEntry)
    → s.entries ≡ last 1000 past
    → (log_all writable stringify es s).entries ≡ last 1000 (past ++ es)
unfolding log log_all
log_all-last writable stringify s past [] h = h ∙ ap (last max_entries) (sym (append-nil past))
log_all-last writable stringify s past (e ∷ es) h =
    log_all-last writable stringify (log writable stringify e s) (past ++ e ∷ []) es
      (ap (push_entry max_entries e) h ∙ push_entry-last max_entries e past (omega arith))
    ∙ ap (last max_entries) (append_assoc past (e ∷ []) es)
