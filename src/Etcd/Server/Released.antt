-- ===== src/Etcd/Server/Released.antt =====
-- What holds behind the commit and is kept by giving something back holds when the request ends.
use hambone.Base.{String, Bool, false, ◌≡◌, refl, sym, ap, subst, ◌∙◌, List, [], ◌++◌, arith, All}
use hambone.Go.{Result, ok, plain, Unit₀}
use hambone.Pb.{Instance}
use hambone.Sys.{Os}
use hambone.State.Receiver.{World, Receiver, machine, run_and_forget}
use hambone.State.Cleanup.Preserve.{Preserves, cleanup-keeps}
use hambone.Instances.Statuses.{ItemStatuses}
use hambone.Instances.Requests.{Server, validate, after_commit, apply, delete, forget_old}
use hambone.Instances.Requests.Apply.{apply-ok, start, committed, Succeeded}
use hambone.Instances.Requests.Delete.{delete-ok, begin, withdrawn, Deleted}
use hambone.Instances.Requests.Tools.{validate-keeps, refresh-keeps, withdraw-keeps}
use hambone.Etcd.Client.{Etcd}
use hambone.Etcd.Gentle.{IsGentle}
use hambone.Etcd.Adapter.{get_instance_key}
use hambone.Etcd.Updater as Updater
use hambone.Etcd.Updater.{WriterCall, WriterFields}
use hambone.Etcd.Updater.Cleanup.{init-registers, obtained, obtained-Preserves}
use hambone.Etcd.Deleter as Deleter
use hambone.Etcd.Deleter.Registered as Registered
use hambone.Etcd.Deleter.Registered.{init-registered, obtained-Preserved}
use hambone.Etcd.Engine.{Settings}
use hambone.Etcd.Server.{etcd_server}
use hambone.Etcd.Contract.{engine-IsUpdater, engine-IsDeleter}

module _ {S O : Type 0} (E : Etcd S) (os : Os O) where
  pub init-shared : (c : WriterCall S O E.Client) → (Updater.init E os c).1.shared ≡ c.shared
  unfolding Updater.init
  init-shared c = grind arith

  pub update-self :
      (b : Bool) (c : WriterCall S O E.Client) → (Updater.commit E os b c).1.self ≡ c.self
  unfolding Updater.commit
  update-self b c = refl

  pub delete-self : (c : WriterCall S O E.Client) → (Deleter.commit E os c).1.self ≡ c.self
  unfolding Deleter.commit
  delete-self c = refl

  module _ (P : S → Type 0) where
    pub cleaned-keeps :
        (fs : List _) (c : WriterCall S O E.Client)
        → c.self.cleanup_funcs ≡ fs
        → All (Preserves P) fs
        → P c.world.etcd
        → P (Updater.run_cleanup_funcs E os c).1.world.etcd
    unfolding Updater.run_cleanup_funcs run_and_forget
    cleaned-keeps fs c same keeps p =
        cleanup-keeps P plain c.self.cleanup_funcs c.world.etcd
          (subst (All (Preserves P)) (sym same) keeps) p

    pub released-keeps :
        (fs : List _) (c : WriterCall S O E.Client)
        → c.self.cleanup_funcs ≡ fs
        → All (Preserves P) fs
        → P c.world.etcd
        → P (Deleter.run_cleanup_funcs E os c).1.world.etcd
    unfolding Deleter.run_cleanup_funcs run_and_forget
    released-keeps fs c same keeps p =
        cleanup-keeps P plain c.self.cleanup_funcs c.world.etcd
          (subst (All (Preserves P)) (sym same) keeps) p

module _ {S O : Type 0} (E : Etcd S) (os : Os O) (settings : Settings)
    (unmarshal : String → Result ItemStatuses) (instances_dir templates_dir : String)
    (enable_kustomize_build enable_kubectl : Bool) where
  abbrev server : Server (World S O (List String))
  server =
      etcd_server E os settings instances_dir templates_dir enable_kustomize_build enable_kubectl

  after-keeps :
      (c : WriterCall S O E.Client)
      → let d = (after_commit (machine os) unmarshal server c).1 in
        (d.world.etcd ≡ c.world.etcd) × (d.self ≡ c.self)
  after-keeps c = (
    grind (arith, refresh-keeps os unmarshal server c),
    grind (arith, refresh-keeps os unmarshal server c),
  )

  committed-registered :
      (c : WriterCall S O E.Client)
      → c.self.cleanup_funcs ≡ []
      → (after_commit
          (machine os)
          unmarshal
          server
          (committed (machine os) unmarshal server false c)).1.self.cleanup_funcs
        ≡ obtained E os c
  committed-registered c fresh =
      let c₁ = (Updater.init E os c).1 in
      let c₂ = (validate (machine os) unmarshal server c₁).1 in
      ap (λ (r : Receiver S (WriterFields E.Client)). r.cleanup_funcs)
        ((after-keeps (Updater.commit E os false c₂).1).1
          ∙ (update-self E os false c₂ ∙ (validate-keeps os unmarshal server c₁).1))
      ∙ (init-registers E os c ∙ ap (λ fs. fs ++ obtained E os c) fresh)

  deleted-registered :
      (c : WriterCall S O E.Client)
      → c.self.cleanup_funcs ≡ []
      → (Deleter.commit E os (withdrawn (machine os) unmarshal server c)).1.self.cleanup_funcs
        ≡ Registered.obtained E os c
  deleted-registered c fresh =
      ap (λ (r : Receiver S (WriterFields E.Client)). r.cleanup_funcs)
        (delete-self E os (withdrawn (machine os) unmarshal server c)
          ∙ (withdraw-keeps os unmarshal server (Deleter.init E os c).1).1)
      ∙ (init-registered E os c ∙ ap (λ fs. fs ++ Registered.obtained E os c) fresh)

  module _ (P : S → Type 0) (G : IsGentle E P) (instance : Instance)
      (w : World S O (List String)) where
    -- Of an `Apply` that returned nil: what the commit has made hold, holds at the end.
    pub apply-released :
        (apply (machine os) unmarshal server false instance w).0 ≡ ok tt
        → let c = start (machine os) unmarshal server instance w in
          ((d : WriterCall S O E.Client)
            → Succeeded (machine os) unmarshal server false c d
            → P (committed (machine os) unmarshal server false c).world.etcd)
          → P (apply (machine os) unmarshal server false instance w).2.etcd
    apply-released h made =
        let (_, through, answer, _) =
          apply-ok (machine os) unmarshal server (engine-IsUpdater E os settings) false instance w
            h in
        let c = start (machine os) unmarshal server instance w in
        let d = committed (machine os) unmarshal server false c in
        let end = (after_commit (machine os) unmarshal server d).1 in
        subst (λ (r : Result Unit₀ × Instance × World S O (List String)). P r.2.etcd) (sym answer)
          (subst (λ (e : WriterCall S O E.Client). P e.world.etcd) (sym through.cleaned)
            (cleaned-keeps E os P (obtained E os c) end (committed-registered c refl)
              (obtained-Preserves E os P G (get_instance_key instance.name)
                (E.new_client w.vars w.etcd))
              (subst P (sym (after-keeps d).0) (made _ through))))

    -- The same of a `Delete`.
    pub delete-released :
        (delete (machine os) unmarshal server instance w).0 ≡ ok tt
        → let c = begin (machine os) unmarshal server instance w in
          ((d : WriterCall S O E.Client)
            → Deleted (machine os) unmarshal server c d
            → P (Deleter.commit E os (withdrawn (machine os) unmarshal server c)).1.world.etcd)
          → P (delete (machine os) unmarshal server instance w).2.etcd
    delete-released h made =
        let (_, through, answer) =
          delete-ok (machine os) unmarshal server (engine-IsDeleter E os settings) instance w h in
        let c = begin (machine os) unmarshal server instance w in
        let d = (Deleter.commit E os (withdrawn (machine os) unmarshal server c)).1 in
        let end = (forget_old (machine os) unmarshal server d).1 in
        subst (λ (r : Result Unit₀ × Instance × World S O (List String)). P r.2.etcd) (sym answer)
          (subst (λ (e : WriterCall S O E.Client). P e.world.etcd) (sym through.cleaned)
            (released-keeps E os P (Registered.obtained E os c) end (deleted-registered c refl)
              (obtained-Preserved E os P G (get_instance_key instance.name)
                (E.new_client w.vars w.etcd))
              (made _ through)))
