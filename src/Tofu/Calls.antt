-- ===== src/Tofu/Calls.antt =====
-- src/tofu-manager/tofu-manager.ts: the stores over sequences of operations.
use opcua_light_server.Prelude.{
  ◌≡◌, refl, ap, sym, ◌∙◌, Bool, Option, none, some, List, [], ◌∷◌, String, Text, Dict, arith,
  lookup, insert, delete, eq_refl, eq_iff,
}
use opcua_light_server.Process.Manager.{Manager, Env}
use opcua_light_server.Tofu.{
  TofuManager, find, unlink, initialize, make_directory, delete_certificate, reject_certificate,
  trust_certificate,
}
use opcua_light_server.Tofu.Stores.{
  IsDisjoint, find-unlink, find-insert, signal_reload-trusted, reject_certificate-IsDisjoint,
  trust_certificate-IsDisjoint, delete_certificate-IsDisjoint,
}

-- What an operation meets: the clock, the runtime's stdin, the process manager and the file system.
pub record Circumstance : Type 0 where
  pub env : Env
  pub accepts : Option Bool
  pub manager : Manager
  pub fault : Option Text

pub data TofuCall : Type 0 where
  initializes : Option Text → TofuCall
  deletes rejects trusts : String → TofuCall

module _ {F : Type 0} where
  pub step : Circumstance → TofuCall → TofuManager F → TofuManager F
  step u (initializes fault) s = (initialize u.fault fault s).0
  step u (deletes id) s = (delete_certificate u.env u.accepts u.manager u.fault id s).0
  step u (rejects id) s = (reject_certificate u.env u.accepts u.manager u.fault id s).0
  step u (trusts id) s = (trust_certificate u.env u.accepts u.manager u.fault id s).0

  pub run : List (Circumstance × TofuCall) → TofuManager F → TofuManager F
  run [] s = s
  run ((u, call) ∷ calls) s = run calls (step u call s)

  find-make_directory : (j : String) (d : Option (Dict F)) → find j (make_directory d) ≡ find j d
  unfolding find make_directory lookup
  find-make_directory j none = refl
  find-make_directory j (some d) = refl

  initialize-IsDisjoint :
      (fault fault' : Option Text) (s : TofuManager F)
      → IsDisjoint s
      → IsDisjoint (initialize fault fault' s).0
  unfolding initialize
  initialize-IsDisjoint (some message) fault' s v j = v j
  initialize-IsDisjoint none (some message) s v j = rw (find-make_directory j s.trusted_store) (v j)
  initialize-IsDisjoint none none s v j =
      rw (find-make_directory j s.trusted_store, find-make_directory j s.rejected_store) (v j)

  step-IsDisjoint :
      (u : Circumstance) (call : TofuCall) (s : TofuManager F)
      → IsDisjoint s
      → IsDisjoint (step u call s)
  unfolding step
  step-IsDisjoint u (initializes fault) s v = initialize-IsDisjoint u.fault fault s v
  step-IsDisjoint u (deletes id) s v =
      delete_certificate-IsDisjoint u.env u.accepts u.manager u.fault id s v
  step-IsDisjoint u (rejects id) s v =
      reject_certificate-IsDisjoint u.env u.accepts u.manager u.fault id s v
  step-IsDisjoint u (trusts id) s v =
      trust_certificate-IsDisjoint u.env u.accepts u.manager u.fault id s v

  -- If no certificate is both trusted and rejected, none is after any sequence of operations,
  -- whichever of them fail and whatever state the runtime is in.
  pub run-IsDisjoint :
      (calls : List (Circumstance × TofuCall)) (s : TofuManager F)
      → IsDisjoint s
      → IsDisjoint (run calls s)
  unfolding run
  run-IsDisjoint [] s v = v
  run-IsDisjoint ((u, call) ∷ calls) s v =
      run-IsDisjoint calls (step u call s) (step-IsDisjoint u call s v)

  module _ (env : Env) (accepts : Option Bool) (m : Manager) (id : String) (f : F) where
    unlink-some :
        (d : Option (Dict F)) (files : Dict F)
        → d ≡ some files
        → unlink id d ≡ some (delete id files)
    unfolding unlink
    unlink-some d files t = rw t refl

    -- Removing a file and putting it back leaves what is found.
    find-insert-delete :
        (j : String) (files : Dict F)
        → find id (some files) ≡ some f
        → find j (some (insert id f (delete id files))) ≡ find j (some files)
    find-insert-delete j files e = ground (
      arith,
      find-insert id j f (delete id files),
      find-unlink id j (some files),
      unlink-some (some files) files refl,
      eq_iff id j,
      ap (λ i. find i (some files)) ((eq_iff id j).0 _),
    )

    reject_certificate-stores :
        (s : TofuManager F) (files : Dict F)
        → find id s.trusted_store ≡ some f
        → s.rejected_store ≡ some files
        → let r = (reject_certificate env accepts m none id s).0 in
          (r.trusted_store ≡ unlink id s.trusted_store)
          × (r.rejected_store ≡ some (insert id f files))
    unfolding reject_certificate
    reject_certificate-stores s files e d =
        rw (e, d, reject_certificate) (signal_reload-trusted env accepts m _)

    trust_certificate-stores :
        (s : TofuManager F) (files : Dict F)
        → find id s.rejected_store ≡ some f
        → find id s.trusted_store ≡ none
        → s.trusted_store ≡ some files
        → let r = (trust_certificate env accepts m none id s).0 in
          (r.trusted_store ≡ some (insert id f files))
          × (r.rejected_store ≡ unlink id s.rejected_store)
    unfolding trust_certificate
    trust_certificate-stores s files e h d =
        rw (e, h, d, trust_certificate) (signal_reload-trusted env accepts m _)

    -- A trusted certificate that is rejected and then trusted again, while both directories exist
    -- and no rename fails: the trust store finds every certificate that it found before, with the
    -- same file, and the reject store does not have this one.
    pub trust_certificate-reject_certificate :
        (s : TofuManager F) (files others : Dict F) (j : String)
        → s.trusted_store ≡ some files
        → s.rejected_store ≡ some others
        → find id s.trusted_store ≡ some f
        → let r = (reject_certificate env accepts m none id s).0 in
          let r' = (trust_certificate env accepts m none id r).0 in
          (find j r'.trusted_store ≡ find j s.trusted_store) × (find id r'.rejected_store ≡ none)
    trust_certificate-reject_certificate s files others j t d e =
        let r = (reject_certificate env accepts m none id s).0 in
        let (u, w) = reject_certificate-stores s others e d in
        let held : find id r.rejected_store ≡ some f = rw (w, find-insert, eq_refl id) refl in
        let gone : find id r.trusted_store ≡ none = rw (u, find-unlink, eq_refl id) refl in
        let left : r.trusted_store ≡ some (delete id files) =
          u ∙ unlink-some s.trusted_store files t in
        let (u', w') = trust_certificate-stores r (delete id files) held gone left in
        (
          rw (u', t) (find-insert-delete j files (sym (ap (find id) t) ∙ e)),
          rw (w', find-unlink, eq_refl id) refl,
        )
