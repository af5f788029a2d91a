-- ===== src/Log.antt =====
-- src/log/index.ts: the in-memory log, which holds the last 1000 entries.
-- `stringify` and `writable` are what the event-stream hub takes from outside.
pub mod Window
pub mod Tests
use opcua_light_server.Prelude.{
  ℕ, suc, ◌<◌, String, Bool, true, false, ◌&&◌, not, Option, none, some, List, [], ◌∷◌, ◌++◌,
  if◌then◌else◌, ltb, length, keep, any, drop, Text, codes, text_eq, text_gt, split, is_empty,
}
use opcua_light_server.Sse.{SseHub, log_entry, broadcast}

pub data Level : Type 0 where
  info warn error debug : Level

abbrev pub level_name : Level → Text
level_name info = codes "info"
level_name warn = codes "warn"
level_name error = codes "error"
level_name debug = codes "debug"

pub record LogEntry : Type 0 where
  pub timestamp : Text
  pub level : Level
  pub source : Text
  pub message : Text

-- The service and the hub that it broadcasts to, if one is set.
pub record LogService : Type 0 where
  pub entries : List LogEntry
  pub sse_hub : Option SseHub

abbrev pub max_entries : ℕ
max_entries = 1000

-- `push`, then `shift` if the array has become too long; the limit is a parameter.
pub push_entry : ℕ → LogEntry → List LogEntry → List LogEntry
push_entry limit entry entries =
    let pushed = entries ++ entry ∷ [] in
    if ltb limit (length pushed) then drop 1 pushed else pushed

pub set_sse_hub : SseHub → LogService → LogService
set_sse_hub hub s = record s { sse_hub = some hub }

module _ (writable : ℕ → Bool) (stringify : LogEntry → String) where
  pub log : LogEntry → LogService → LogService
  unfolding push_entry
  log entry s = record {
    entries = push_entry max_entries entry s.entries;
    sse_hub = elim s.sse_hub [
      | none ↦ none
      | some hub ↦ some (broadcast writable stringify log_entry entry hub)
    ];
  }

pub clear : LogService → LogService
clear s = record s { entries = [] }

-- The options of `getEntries`; an empty text counts as absent.
pub record Query : Type 0 where
  pub since : Option Text
  pub level : Option Text
  pub source : Option Text

abbrev one_of : List Text → Text → Bool
one_of names s = any (λ n. text_eq n s) names

filter_by : (Text → LogEntry → Bool) → Option Text → List LogEntry → List LogEntry
filter_by test none entries = entries
filter_by test (some t) entries = if is_empty t then entries else keep (test t) entries

pub get_entries : Query → List LogEntry → List LogEntry
unfolding filter_by split
get_entries q entries =
    filter_by (λ t e. one_of (split b',' t) e.source) q.source
      (filter_by (λ t e. one_of (split b',' t) (level_name e.level)) q.level
        (filter_by (λ t e. text_gt e.timestamp t) q.since entries))
