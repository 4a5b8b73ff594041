-- ===== src/Etcd/RoundTrip.antt =====
-- An Instance that was applied is what a later request for its name returns.
use hambone.Base.{Bool, ◌≡◌, ◌≢◌, sym, ◌∙◌, ap, [], ◌∷◌, ◌++◌, map, some}
use hambone.Go.{ok}
use hambone.Sys.{Os}
use hambone.Etcd.Client.{Etcd}
use hambone.Etcd.Adapter.{get_instance_key}
use hambone.Etcd.Keys.{strip-get_instance_key}
use hambone.Etcd.Lawful.{IsLawful, entry}
use hambone.Etcd.Getter.{run, instance_of}
use hambone.Etcd.Getter.Run.{State, run-named, instance_named}
use hambone.Etcd.Updater.{WriterCall, commit}
use hambone.Etcd.Updater.Commit.{commit-value, with_instance_self}

module _ {S O : Type 0} (E : Etcd S) (L : IsLawful E) (os : Os O) where
  -- After a commit that returned nil, as long as the key of the Instance holds what the commit left
  -- there, a getter for the name, if it is not empty, that returns nil too has put exactly one
  -- Instance behind what its list held: it has that name and the committed yaml, and no files.
  run-commit :
      (skip_commit : Bool) (c : WriterCall S O E.Client) (g : State S O)
      → (commit E os skip_commit c).0 ≡ ok tt
      → L.value g.world.etcd (get_instance_key c.shared.name)
        ≡ L.value (commit E os skip_commit c).1.world.etcd (get_instance_key c.shared.name)
      → g.self.fields.options.name ≡ c.shared.name
      → c.shared.name ≢ ""
      → (run E g).0 ≡ ok tt
      → (run E g).1.shared
        ≡ g.shared ++ (instance_named c.shared.name c.shared.kustomization_yaml ∷ [])
  run-commit skip_commit c g done same asked named h =
      let key = get_instance_key c.shared.name in
      let held : L.value g.world.etcd key ≡ some c.shared.kustomization_yaml =
        same ∙ (commit-value E L os skip_commit c key done ∙ with_instance_self c.shared _) in
      let answer = run-named E L g (λ e. named (sym asked ∙ e)) h in
      answer
      ∙ (ap
            (λ n.
              g.shared
              ++ map instance_of
                  (entry (get_instance_key n) (L.value g.world.etcd (get_instance_key n))))
            asked
          ∙ (ap (λ v. g.shared ++ map instance_of (entry key v)) held
              ∙ ap (λ n. g.shared ++ (instance_named n c.shared.kustomization_yaml ∷ []))
                  (strip-get_instance_key c.shared.name)))
