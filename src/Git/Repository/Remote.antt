-- ===== src/Git/Repository/Remote.antt =====
-- What a request over the git adapter can do to the branch of the remote, however it ends.
use hambone.Base.{
  String, ◌<>◌, Bool, true, false, Option, some, List, [], ◌∷◌, ◌≡◌, ◌≢◌, refl, sym, ap, ◌∙◌, ◌⊎◌,
  inl, inr, arith, ◌==◌, ◌||◌, String-discrete, Option-cases, subst,
}
use hambone.Go.{Error, Result, ok, err, Unit₀, Result-cases}
use hambone.Pb.{Instance}
use hambone.Sys.{Os}
use hambone.State.Receiver.{World, machine}
use hambone.Instances.Statuses.{ItemStatuses}
use hambone.Instances.Requests.{apply}
use hambone.Etcd.Client.{Etcd}
use hambone.Git.Commands.{
  run_command, git_pull, ensure_clean_file, rollback, rollback_and_error, rollback_command,
}
use hambone.Git.Getter.{Vars}
use hambone.Git.Updater.{WriterFields, compare_old, prepare, commit_files}
use hambone.Git.Engine.{Settings}
use hambone.Git.Bare.{bare_server, fields_for}
use hambone.Git.Bare.Ends.{AnswersAs, apply-ends}
use hambone.Git.Repository.{Store, IsRepository, git}
use hambone.Git.Repository.Written.{ensure_clean_file-kept, compare_old-kept, write_instance-store}
use hambone.Git.Repository.Published.{IsPublished, commit_files-contents}

-- The commands of git, by their first argument, that the updater runs beside `push`.
abbrev pub is_local : List String → Bool
is_local [] = false
is_local (arg ∷ args) =
    arg == "pull"
    || (arg == "diff"
        || (arg == "add"
            || (arg == "commit" || (arg == "ls-files" || (arg == "reset" || arg == "checkout")))))

answers-no_error : {x r : Result Unit₀} → x ≡ ok tt → AnswersAs x r → (e : Error) → r ≢ err e
answers-no_error done (inl same) e failed = cc
answers-no_error done (inr (p, same)) e failed = cc

module _ {O : Type 0} (os : Os O) (R : IsRepository os) where
  abbrev pub remote_of : O → String → Option String
  remote_of o = (R.store o).remote

  -- Of the commands of git that the updater runs, and of `rm`, only a `push` changes the branch of the
  -- remote, and it does not if it fails.
  pub record IsPushedOnly : Type 0 where
    pub other_commands :
        (args : List String) (o : O)
        → is_local args ≡ true
        → remote_of (git os args o).1 ≡ remote_of o
    pub remove_files :
        (args : List String) (o : O) → remote_of (os.combined_output "rm" args o).1 ≡ remote_of o
    pub failed_push :
        (o : O) {e : Error}
        → (git os ("push" ∷ []) o).0.error ≡ some e
        → remote_of (git os ("push" ∷ []) o).1 ≡ remote_of o

  module _ (P : IsPushedOnly) where
    git_pull-remote : (o : O) → remote_of (git_pull os o).1 ≡ remote_of o
    unfolding git_pull run_command String-discrete
    git_pull-remote o = P.other_commands ("pull" ∷ []) o refl

    rollback-remote :
        (dir file : String) (o : O) → remote_of (rollback os dir file o).1 ≡ remote_of o
    unfolding rollback run_command String-discrete
    rollback-remote dir file o =
        let o₁ = (git os ("ls-files" ∷ "--error-unmatch" ∷ file ∷ []) o).1 in
        let o₂ = (git os ("ls-files" ∷ "--error-unmatch" ∷ dir ∷ []) o₁).1 in
        let o₃ = (git os ("reset" ∷ "HEAD" ∷ file ∷ []) o₁).1 in
        ground (
          arith,
          P.other_commands ("ls-files" ∷ "--error-unmatch" ∷ file ∷ []) o refl,
          P.other_commands ("ls-files" ∷ "--error-unmatch" ∷ dir ∷ []) o₁ refl,
          P.remove_files ("-rf" ∷ dir ∷ []) o₂,
          P.remove_files ("-f" ∷ file ∷ []) o₂,
          P.other_commands ("reset" ∷ "HEAD" ∷ file ∷ []) o₁ refl,
          P.other_commands ("checkout" ∷ file ∷ []) o₃ refl,
        )

    rollback_and_error-remote :
        (dir file : String) (e : Error) (o : O)
        → remote_of (rollback_and_error os dir file e o).1 ≡ remote_of o
    unfolding rollback_and_error
    rollback_and_error-remote dir file e o = ground (arith, rollback-remote dir file o)

    -- A command that is rolled back changes the remote only if it pushes and does not fail.
    rollback_command-remote :
        (dir file : String) (args : List String) (o : O)
        → is_local args ≡ true
        → remote_of (rollback_command os dir file "git" args o).1 ≡ remote_of o
    unfolding rollback_command run_command
    rollback_command-remote dir file args o other = elim (Option-cases (git os args o).0.error) [
      | inl e ↦ ground (arith, P.other_commands args o other)
      | inr (x, e) ↦ ground (
        arith,
        P.other_commands args o other,
        rollback_and_error-remote dir file x (git os args o).1,
      )
    ]

    push-remote :
        (dir file : String) (o : O)
        → (rollback_command os dir file "git" ("push" ∷ []) o).0 ≢ ok tt
        → remote_of (rollback_command os dir file "git" ("push" ∷ []) o).1 ≡ remote_of o
    unfolding rollback_command run_command
    push-remote dir file o failed = elim (Option-cases (git os ("push" ∷ []) o).0.error) [
      | inl e ↦ absurd (failed (ground arith))
      | inr (x, e) ↦ ground (
        arith,
        P.failed_push o e,
        rollback_and_error-remote dir file x (git os ("push" ∷ []) o).1,
      )
    ]

    -- `Init` of the updater leaves the remote alone, however it ends, if the shell reads the directory
    -- of the Instance as it is.
    prepare-remote :
        (fields : WriterFields) (instance : Instance) (o : O)
        → R.is_plain fields.instance_dir ≡ true
        → remote_of (prepare os fields instance o).1 ≡ remote_of o
    prepare-remote fields instance o plain =
        let o₁ = (git_pull os o).1 in
        let o₂ = (ensure_clean_file os fields.instance_dir o₁).1 in
        let o₃ = (compare_old os fields.instance_file instance.old_instance o₂).1 in
        let remote = λ (x : Store). x.remote in
        ground (
          arith,
          git_pull-remote o,
          ap remote (ensure_clean_file-kept os R fields.instance_dir o₁ plain).0,
          ap remote (compare_old-kept os R fields.instance_file instance.old_instance o₂).0,
          ap remote (write_instance-store os R fields instance o₃),
        )

    -- A commit that fails leaves the remote alone.
    commit_files-remote :
        (fields : WriterFields) (name : String) (o : O)
        → (commit_files os false fields name o).0 ≢ ok tt
        → remote_of (commit_files os false fields name o).1 ≡ remote_of o
    unfolding commit_files run_command String-discrete
    commit_files-remote fields name o failed =
        let dir = fields.instance_dir in
        let file = fields.instance_file in
        let commit_args = "commit" ∷ "-m" ∷ ("Automate hambone apply for " <> name) ∷ [] in
        let o₁ = (git os ("diff" ∷ "--exit-code" ∷ "HEAD" ∷ fields.working_dir ∷ []) o).1 in
        let o₂ = (rollback_command os dir file "git" ("add" ∷ dir ∷ []) o₁).1 in
        let o₃ = (rollback_command os dir file "git" commit_args o₂).1 in
        ground (
          arith,
          failed,
          P.other_commands ("diff" ∷ "--exit-code" ∷ "HEAD" ∷ fields.working_dir ∷ []) o refl,
          rollback_command-remote dir file ("add" ∷ dir ∷ []) o₁ refl,
          rollback_command-remote dir file commit_args o₂ refl,
          push-remote dir file o₃,
        )

module _ {S O : Type 0} (E : Etcd S) (os : Os O) (R : IsRepository os) (P : IsPushedOnly os R)
    (settings : Settings) (unmarshal : String → Result ItemStatuses)
    (instances_dir templates_dir : String) (instance : Instance) where
  abbrev fields : WriterFields
  fields = fields_for E os settings unmarshal instances_dir templates_dir instance

  -- The commit of the updater either leaves the remote alone, or succeeds and publishes.
  commit_files-whole :
      (o : O)
      → let tried = commit_files os false fields instance.name o in
        (remote_of os R tried.1 ≡ remote_of os R o)
        ⊎ ((tried.0 ≡ ok tt) × IsPublished os R fields.instance_dir tried.1)
  commit_files-whole o = elim (Result-cases (commit_files os false fields instance.name o).0) [
    | inl (a, e) ↦
        let done : (commit_files os false fields instance.name o).0 ≡ ok tt = e in
        elim (commit_files-contents os R fields instance.name o done).0 [
          | inl (s, _) ↦ inl (ap (λ (x : Store). x.remote) s)
          | inr p ↦ inr (done, p)
        ]
    | inr (inl (x, e)) ↦
        inl (commit_files-remote os R P fields instance.name o (λ h. ground (arith, h, e)))
    | inr (inr (p, e)) ↦
        inl (commit_files-remote os R P fields instance.name o (λ h. ground (arith, h, e)))
  ]

  -- However an `Apply` over a lawful git repository ends, to a server without kustomize and kubectl,
  -- for an Instance whose directory the shell reads as it is: either the branch of the remote is what
  -- it was, or the `Apply` has returned nil, or has panicked in the cleanup behind it, the index, HEAD
  -- and the remote are the same, and they agree below the directory of the Instance with the working
  -- tree. So an `Apply` that ends by an error has published nothing.
  pub apply-remote_whole :
      (w : World S O Vars)
      → R.is_plain fields.instance_dir ≡ true
      → let done =
          apply
            (machine os)
            unmarshal
            (bare_server E os settings unmarshal instances_dir templates_dir)
            false
            instance
            w in
        (remote_of os R done.2.os ≡ remote_of os R w.os)
        ⊎ (((e : Error) → done.0 ≢ err e) × IsPublished os R fields.instance_dir done.2.os)
  apply-remote_whole w plain =
      let through = prepare-remote os R P fields instance w.os plain in
      elim (apply-ends E os settings unmarshal instances_dir templates_dir instance false w) [
        | inl (_, last) ↦ inl (ap (remote_of os R) last)
        | inr (inl (_, last)) ↦ inl (ap (remote_of os R) last ∙ through)
        | inr (inr (_, r, last)) ↦ elim (commit_files-whole (prepare os fields instance w.os).1) [
          | inl same ↦ inl (ap (remote_of os R) last ∙ (same ∙ through))
          | inr (done, p) ↦
              inr
                (answers-no_error done r, subst (IsPublished os R fields.instance_dir) (sym last) p)
        ]
      ]
