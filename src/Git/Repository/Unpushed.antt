-- ===== src/Git/Repository/Unpushed.antt =====
-- What a push that fails leaves behind.
use hambone.Base.{
  String, ◌<>◌, Bool, true, false, Option, none, some, List, [], ◌∷◌, ◌≡◌, ◌≢◌, refl, sym, ap, ◌∙◌,
  inl, inr, arith, if◌then◌else◌, Option-cases, fun_ext,
}
use hambone.Go.{Error, Result, ok, Unit₀}
use hambone.Pb.{Instance}
use hambone.Sys.{Os}
use hambone.State.Receiver.{World, machine}
use hambone.Instances.Statuses.{ItemStatuses}
use hambone.Instances.Requests.{apply, names_equate}
use hambone.Etcd.Client.{Etcd}
use hambone.Git.Commands.{run_command, rollback, rollback_and_error, rollback_command}
use hambone.Git.Getter.{Vars}
use hambone.Git.Updater.{WriterFields, commit_files}
use hambone.Git.Engine.{Settings}
use hambone.Git.Outcome.{diff_args}
use hambone.Git.Bare.{bare_server, fields_for, prepared}
use hambone.Git.Bare.Ends.{apply-commits}
use hambone.Git.Repository.{Store, IsRepository, git}
use hambone.Git.Repository.Published.{staged}

module _ {O : Type 0} (os : Os O) (R : IsRepository os) where
  -- What a rollback relies on: listing and `rm` do nothing in git, `reset` takes a file of HEAD into
  -- the index, `checkout` takes it into the working tree, and a command that fails does nothing.
  pub record IsRestorable : Type 0 where
    pub list_store :
        (path : String) (o : O)
        → R.store (git os ("ls-files" ∷ "--error-unmatch" ∷ path ∷ []) o).1 ≡ R.store o
    pub remove_store :
        (args : List String) (o : O) → R.store (os.combined_output "rm" args o).1 ≡ R.store o
    pub reset_store :
        (file : String) (o : O)
        → (git os ("reset" ∷ "HEAD" ∷ file ∷ []) o).0.error ≡ none
        → R.store (git os ("reset" ∷ "HEAD" ∷ file ∷ []) o).1 ≡ record (R.store o) {
          index = λ j. if R.within file j then (R.store o).head j else (R.store o).index j;
        }
    pub failed_reset :
        (file : String) (o : O) {e : Error}
        → (git os ("reset" ∷ "HEAD" ∷ file ∷ []) o).0.error ≡ some e
        → R.store (git os ("reset" ∷ "HEAD" ∷ file ∷ []) o).1 ≡ R.store o
    pub checkout_store :
        (file : String) (o : O) → R.store (git os ("checkout" ∷ file ∷ []) o).1 ≡ R.store o
    pub failed_push :
        (o : O) {e : Error}
        → (git os ("push" ∷ []) o).0.error ≡ some e
        → R.store (git os ("push" ∷ []) o).1 ≡ R.store o

  module _ (U : IsRestorable) where
    -- Where the index is HEAD already, a reset does nothing.
    same_index :
        (s : Store) (b : Bool) (j : String)
        → s.index ≡ s.head
        → (if b then s.head j else s.index j) ≡ s.index j
    same_index s true j e = ap (λ (f : String → Option String). f j) (sym e)
    same_index s false j e = refl

    reset-same :
        (file : String) (o : O)
        → (R.store o).index ≡ (R.store o).head
        → R.store (git os ("reset" ∷ "HEAD" ∷ file ∷ []) o).1 ≡ R.store o
    reset-same file o e = elim (Option-cases (git os ("reset" ∷ "HEAD" ∷ file ∷ []) o).0.error) [
      | inl fine ↦
          U.reset_store file o fine
          ∙ ap (λ (f : String → Option String). record (R.store o) { index = f })
              (fun_ext (λ j. same_index (R.store o) (R.within file j) j e))
      | inr (x, failed) ↦ U.failed_reset file o failed
    ]

    -- Then a rollback, as it is run behind a commit, does nothing in git.
    rollback-same :
        (dir file : String) (o : O)
        → (R.store o).index ≡ (R.store o).head
        → R.store (rollback os dir file o).1 ≡ R.store o
    unfolding rollback run_command
    rollback-same dir file o e =
        let o₁ = (git os ("ls-files" ∷ "--error-unmatch" ∷ file ∷ []) o).1 in
        let o₂ = (git os ("ls-files" ∷ "--error-unmatch" ∷ dir ∷ []) o₁).1 in
        let o₃ = (git os ("reset" ∷ "HEAD" ∷ file ∷ []) o₁).1 in
        let listed = U.list_store file o in
        ground (
          arith,
          listed,
          U.list_store dir o₁,
          U.remove_store ("-rf" ∷ dir ∷ []) o₂,
          U.remove_store ("-f" ∷ file ∷ []) o₂,
          reset-same file o₁
              (ap (λ (s : Store). s.index) listed ∙ (e ∙ ap (λ (s : Store). s.head) (sym listed))),
          U.checkout_store file o₃,
        )

    module _ (fields : WriterFields) (name : String) (o : O) where
      abbrev diffed : O
      diffed = (git os (diff_args os fields.working_dir) o).1

      abbrev added : O
      added = (git os ("add" ∷ fields.instance_dir ∷ []) diffed).1

      abbrev commit_args : List String
      commit_args = "commit" ∷ "-m" ∷ ("Automate hambone apply for " <> name) ∷ []

      abbrev pub local : O
      local = (git os commit_args added).1

      -- There is something to commit, and everything but the push succeeds.
      pub record PushFails (e : Error) : Type 0 where
        pub changed : (git os (diff_args os fields.working_dir) o).0.error ≢ none
        pub add_ok : (git os ("add" ∷ fields.instance_dir ∷ []) diffed).0.error ≡ none
        pub commit_ok : (git os commit_args added).0.error ≡ none
        pub push_err : (git os ("push" ∷ []) local).0.error ≡ some e

      -- The directory in the index and in HEAD, and the remote as it was.
      abbrev pub unpushed : Store
      unpushed = record {
        index = staged os R fields.instance_dir o;
        head = staged os R fields.instance_dir o;
        remote = (R.store o).remote;
      }

      staged-diffed : staged os R fields.instance_dir diffed ≡ staged os R fields.instance_dir o
      staged-diffed =
          let args = "--exit-code" ∷ "HEAD" ∷ fields.working_dir ∷ [] in
          fun_ext (λ j.
            ap
              (λ (s : Store).
                if R.within fields.instance_dir j then R.files.contents diffed j else s.index j)
              (R.diff_store args o)
            ∙ ap (λ t. if R.within fields.instance_dir j then t else (R.store o).index j)
                (R.diff_contents args j o))

      local-store : {e : Error} → PushFails e → R.store local ≡ unpushed
      local-store fails =
          let args = "--exit-code" ∷ "HEAD" ∷ fields.working_dir ∷ [] in
          R.commit_store ("Automate hambone apply for " <> name) added fails.commit_ok
          ∙ (ap (λ (s : Store). record s { head = s.index })
                (R.add_store fields.instance_dir diffed fails.add_ok)
              ∙ (ap
                    (λ (f : String → Option String). record {
                      index = f;
                      head = f;
                      remote = (R.store diffed).remote;
                    })
                    staged-diffed
                  ∙ ap (λ (s : Store). record unpushed { remote = s.remote })
                      (R.diff_store args o)))

      commit_files-rolled :
          {e : Error}
          → PushFails e
          → let tried = commit_files os false fields name o in
            (tried.0 ≢ ok tt)
            × (tried.1
                ≡ (rollback os fields.instance_dir fields.instance_file
                    (git os ("push" ∷ []) local).1).1)
      unfolding commit_files rollback_command rollback_and_error run_command
      commit_files-rolled {e} fails = (λ h. ground arith, ground arith)

      commit_files-store :
          {e : Error} → PushFails e → R.store (commit_files os false fields name o).1 ≡ unpushed
      commit_files-store fails =
          let o₄ = (git os ("push" ∷ []) local).1 in
          let here = U.failed_push local fails.push_err ∙ local-store fails in
          ap R.store (commit_files-rolled fails).1
          ∙ (rollback-same fields.instance_dir fields.instance_file o₄
                (ap (λ (s : Store). s.index) here ∙ ap (λ (s : Store). s.head) (sym here))
              ∙ here)

module _ {S O : Type 0} (E : Etcd S) (os : Os O) (R : IsRepository os) (U : IsRestorable os R)
    (settings : Settings) (unmarshal : String → Result ItemStatuses)
    (instances_dir templates_dir : String) (instance : Instance) (w : World S O Vars) where
  abbrev fields : WriterFields
  fields = fields_for E os settings unmarshal instances_dir templates_dir instance

  abbrev pub ready : Result Unit₀ × O
  ready = prepared E os settings unmarshal instances_dir templates_dir instance w.os

  -- If, in an `Apply` over a lawful git repository, to a server without kustomize and kubectl and
  -- without a lock, the names are equal, `Init` returns nil, `git diff` finds a change, add and
  -- commit succeed and the push fails, then the `Apply` fails, and its rollback takes nothing back
  -- in git: the remote is what it was, but the index and HEAD hold the directory of the Instance as
  -- it was written.
  pub apply-unpushed :
      names_equate instance ≡ none
      → w.vars.etcd_locks_git_key ≡ ""
      → ready.0 ≡ ok tt
      → {e : Error} → PushFails os R U fields instance.name ready.1 e
      → let done =
          apply
            (machine os)
            unmarshal
            (bare_server E os settings unmarshal instances_dir templates_dir)
            false
            instance
            w in
        (done.0 ≢ ok tt) × (R.store done.2.os ≡ unpushed os R U fields instance.name ready.1)
  apply-unpushed equate unlocked init_ok {e} fails =
      let (r, last) =
        apply-commits E os settings unmarshal instances_dir templates_dir instance false w equate
          unlocked init_ok in
      let (failed, _) = commit_files-rolled os R U fields instance.name ready.1 fails in
      (
        λ h. failed (sym r ∙ h),
        ap R.store last ∙ commit_files-store os R U fields instance.name ready.1 fails,
      )
