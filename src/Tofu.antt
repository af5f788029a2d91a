-- ===== src/Tofu.antt =====
-- src/tofu-manager/tofu-manager.ts: the trust and the reject store of client certificates.
-- A store is a directory: `none` where it does not exist, else its files `<thumbprint>.der` by
-- thumbprint. A fault is the message with which a call of the file system fails, if it does.
pub mod Stores
pub mod Calls
pub mod Tests
use opcua_light_server.Prelude.{
  Bool, true, false, Option, none, some, List, [], ◌∷◌, ◌++◌, if◌then◌else◌, is_some, String, Text,
  Dict, lookup, insert, delete, codes,
}
use opcua_light_server.Process.Manager.{
  Manager, Env, ManagerError, returns, throws, is_running, get_status, write_to_stdin,
}

pub data TofuLog : Type 0 where
  directories_failed : Text → TofuLog
  deleted rejected retrusted : String → TofuLog
  reload_skipped reload_unwritten : TofuLog

-- `F` is what a file holds. `signals` counts the reload messages given to the runtime's stdin.
pub record TofuManager (F : Type 0) : Type 0 where
  pub trusted_store : Option (Dict F)
  pub rejected_store : Option (Dict F)
  pub logged : List TofuLog
  pub signals : List Text

pub data TofuError : Type 0 where
  not_found conflict : TofuError
  file_system : Text → TofuError
  manager : ManagerError → TofuError

pub data Result : Type 0 where
  done : Result
  failed : TofuError → Result

pub reload_message : Text
reload_message = codes "{\"type\":\"trust_store_reload\"}\n"

-- `statSync` and `existsSync`, with the file.
pub find : {F : Type 0} → String → Option (Dict F) → Option F
find id none = none
find id (some files) = lookup id files

-- `unlinkSync`, once it has not failed.
pub unlink : {F : Type 0} → String → Option (Dict F) → Option (Dict F)
unlink id none = none
unlink id (some files) = some (delete id files)

-- `mkdirSync(path, { recursive: true })`
pub make_directory : {F : Type 0} → Option (Dict F) → Option (Dict F)
make_directory none = some []
make_directory (some files) = some files

module _ {F : Type 0} where
  abbrev log : TofuLog → TofuManager F → TofuManager F
  log line s = record s { logged = s.logged ++ line ∷ [] }

  -- The faults of the two calls of `mkdirSync`.
  pub initialize : Option Text → Option Text → TofuManager F → TofuManager F × Result
  unfolding make_directory
  initialize (some message) fault s =
      (log (directories_failed message) s, failed (file_system message))
  initialize none (some message) s = (
    log (directories_failed message) (record s { trusted_store = make_directory s.trusted_store }),
    failed (file_system message),
  )
  initialize none none s = (
    record s {
      trusted_store = make_directory s.trusted_store;
      rejected_store = make_directory s.rejected_store;
    },
    done,
  )

  -- What the runtime's stdin receives is `accepts`, as in `write_to_stdin`: a write that returns
  -- `false` has been taken nevertheless.
  pub signal_reload : Env → Option Bool → Manager → TofuManager F → TofuManager F × Result
  signal_reload env accepts m s =
      let sent =
        if is_some accepts then record s { signals = s.signals ++ reload_message ∷ [] } else s in
      if is_running (get_status env m).state
      then (elim (write_to_stdin accepts m) [
        | throws e ↦ (s, failed (manager e))
        | returns ok ↦ if ok then (sent, done) else (log reload_unwritten sent, done)
      ])
      else (log reload_skipped s, done)

  module _ (env : Env) (accepts : Option Bool) (m : Manager) (fault : Option Text) where
    pub delete_certificate : String → TofuManager F → TofuManager F × Result
    unfolding find unlink signal_reload
    delete_certificate id s =
        let from_trusted = record s { trusted_store = unlink id s.trusted_store } in
        let from_rejected = record s { rejected_store = unlink id s.rejected_store } in
        elim (find id s.trusted_store) [
          | some f ↦ elim fault [
            | some message ↦ (s, failed (file_system message))
            | none ↦ signal_reload env accepts m (log (deleted id) from_trusted)
          ]
          | none ↦ elim (find id s.rejected_store) [
            | none ↦ (s, failed not_found)
            | some f ↦ elim fault [
              | some message ↦ (s, failed (file_system message))
              | none ↦ signal_reload env accepts m (log (deleted id) from_rejected)
            ]
          ]
        ]

    -- `renameSync` replaces a file that is there, and fails without the directory.
    pub reject_certificate : String → TofuManager F → TofuManager F × Result
    unfolding find unlink signal_reload
    reject_certificate id s = elim (find id s.trusted_store) [
      | none ↦ (s, failed not_found)
      | some f ↦ elim fault [
        | some message ↦ (s, failed (file_system message))
        | none ↦ elim s.rejected_store [
          | none ↦ (s, failed (file_system (codes "ENOENT")))
          | some files ↦ signal_reload env accepts m (
              log (rejected id) (record s {
                trusted_store = unlink id s.trusted_store;
                rejected_store = some (insert id f files);
              }))
        ]
      ]
    ]

    pub trust_certificate : String → TofuManager F → TofuManager F × Result
    unfolding find unlink signal_reload
    trust_certificate id s = elim (find id s.rejected_store) [
      | none ↦ (s, failed not_found)
      | some f ↦ elim (find id s.trusted_store) [
        | some g ↦ (s, failed conflict)
        | none ↦ elim fault [
          | some message ↦ (s, failed (file_system message))
          | none ↦ elim s.trusted_store [
            | none ↦ (s, failed (file_system (codes "ENOENT")))
            | some files ↦ signal_reload env accepts m (
                log (retrusted id) (record s {
                  rejected_store = unlink id s.rejected_store;
                  trusted_store = some (insert id f files);
                }))
          ]
        ]
      ]
    ]
