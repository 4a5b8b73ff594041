-- ===== src/Git/Repository/Lost.antt =====
-- What becomes of an Instance that the git adapter is given for the first time.
use hambone.Base.{
  String, ◌<>◌, Bool, true, false, none, some, List, [], ◌∷◌, ◌≡◌, ◌≢◌, sym, ap, ◌∙◌, inl, inr,
  arith, subst, All, Bool-cases, Option-cases,
}
use hambone.Go.{Result, ok, err, Unit₀}
use hambone.Go.FilePath.{clean}
use hambone.Pb.{Instance, File}
use hambone.Sys.{Os}
use hambone.State.Receiver.{World, machine}
use hambone.Instances.Statuses.{ItemStatuses}
use hambone.Instances.Requests.{apply, names_equate}
use hambone.Etcd.Client.{Etcd}
use hambone.Git.Commands.{
  run_command, git_pull, ensure_clean_file, untracked_uncommitted_changes_error,
}
use hambone.Git.Getter.{Vars}
use hambone.Git.Updater.{WriterFields, commit_files, prepare, write_instance}
use hambone.Git.Engine.{Settings}
use hambone.Git.WrittenFiles.{IsApart, fields_of}
use hambone.Git.Bare.{bare_server, fields_for, apply-steps, apply-refused}
use hambone.Git.Repository.{Store, IsRepository, git, others, seen}
use hambone.Git.Repository.Written.{
  contents, IsUpToDate, before_writing, before_writing-kept, prepare-ok, write_instance-store,
  write_instance-outside, git_pull-kept,
}
use hambone.Git.Repository.Published.{
  IsCommitted, IsCommitted-kept, diff-kept, IsPlainInstance, apply-published,
}

module _ {O : Type 0} (os : Os O) (R : IsRepository os) where
  -- Git has nothing below the directory.
  abbrev pub IsOutsideGit : String → Store → Type 0
  IsOutsideGit dir s = (j : String) → R.within dir j ≡ true → (s.index j ≡ none) × (s.head j ≡ none)

  -- Git counts the files of the Instance to its directory.
  abbrev pub AreWithin : String → List File → Type 0
  AreWithin dir files = All (λ file. R.within dir (dir <> ("/" <> file.name)) ≡ true) files

  outside-differs :
      (dir path j : String)
      → R.within dir j ≡ false
      → R.within dir path ≡ true
      → clean j ≢ clean path
  outside-differs dir path j out inside e = ground (arith, R.within_clean dir j path e)

  outside-IsApart :
      (dir j : String) (files : List File)
      → R.within dir j ≡ false
      → AreWithin dir files
      → IsApart os R.files j dir files
  outside-IsApart dir j [] out inside = tt
  outside-IsApart dir j (file ∷ files) out (this, inside) = (
    outside-differs dir (dir <> ("/" <> file.name)) j out this,
    outside-IsApart dir j files out inside,
  )

  module _ (fields : WriterFields) (instance : Instance)
      (file_within : R.within fields.instance_dir fields.instance_file ≡ true)
      (files_within : AreWithin fields.instance_dir instance.files) where
    -- A new Instance that has been written is nothing that git sees.
    write_instance-IsCommitted :
        (o : O)
        → IsOutsideGit fields.instance_dir (R.store o)
        → IsCommitted os R fields.working_dir o
        → (write_instance os fields instance o).0 ≡ ok tt
        → IsCommitted os R fields.working_dir (write_instance os fields instance o).1
    write_instance-IsCommitted o new committed h j w =
        let o' = (write_instance os fields instance o).1 in
        let s = write_instance-store os R fields instance o in
        elim (Bool-cases (R.within fields.instance_dir j)) [
          | inl inside ↦
              let (i, d) = new j inside in
              ap (λ (x : Store). seen (x.index j) (contents os R o' j)) s
              ∙ (ap (λ t. seen t (contents os R o' j)) i
                  ∙ (sym d ∙ ap (λ (x : Store). x.head j) (sym s)))
          | inr out ↦
              ap (λ (x : Store). seen (x.index j) (contents os R o' j)) s
              ∙ (ap (seen ((R.store o).index j)) (
                    write_instance-outside os R fields instance j o
                      (outside-differs fields.instance_dir fields.instance_file j out file_within)
                      (outside-IsApart fields.instance_dir j instance.files out files_within) h)
                  ∙ (committed j w ∙ ap (λ (x : Store). x.head j) (sym s)))
        ]

  -- Where `git diff` finds no change, a commit does nothing in git.
  pub commit_files-idle :
      (skip_commit : Bool) (fields : WriterFields) (name : String) (o : O)
      → R.is_here fields.working_dir ≡ true
      → IsCommitted os R fields.working_dir o
      → R.store (commit_files os skip_commit fields name o).1 ≡ R.store o
  unfolding commit_files run_command
  commit_files-idle skip_commit fields name o here committed = ground (
    arith,
    R.diff_head_here fields.working_dir o here committed,
    R.diff_store ("--exit-code" ∷ "HEAD" ∷ fields.working_dir ∷ []) o,
  )

  -- The second test of `ensureCleanFile` meets a file that git does not know.
  ensure_clean_file-untracked :
      (dir path text : String) (o : O)
      → R.is_plain dir ≡ true
      → R.within dir path ≡ true
      → ((j : String) → R.within dir j ≡ true → (R.store o).index j ≡ none)
      → contents os R o path ≡ some text
      → (ensure_clean_file os dir o).0 ≡ err untracked_uncommitted_changes_error
  unfolding ensure_clean_file run_command
  ensure_clean_file-untracked dir path text o plain inside unknown held =
      let (s, c) = diff-kept os R ("--exit-code" ∷ "--" ∷ dir ∷ []) o in
      let o₁ = (git os ("diff" ∷ "--exit-code" ∷ "--" ∷ dir ∷ []) o).1 in
      let unchanged =
        (R.diff_index dir o).1
          (λ j w. ap (λ t. seen t (contents os R o j)) (unknown j w) ∙ sym (unknown j w)) in
      elim (Option-cases (others os dir o₁).0.error) [
        | inl clear ↦
            let gone =
              (R.others_none dir o₁ plain).0 clear path inside
                (ap (λ (x : Store). x.index path) s ∙ unknown path inside) in
            let still = c path ∙ held in absurd (ground (arith, gone, still))
        | inr (e, f) ↦ ground (arith, unchanged, f)
      ]

module _ {S O : Type 0} (E : Etcd S) (os : Os O) (R : IsRepository os) (settings : Settings)
    (unmarshal : String → Result ItemStatuses) (instances_dir templates_dir : String)
    (instance : Instance) (w : World S O Vars) where
  abbrev fields : WriterFields
  fields = fields_for E os settings unmarshal instances_dir templates_dir instance

  -- A repository that has nothing to pull and nothing to commit, and an Instance that is new to it,
  -- with files that git counts to its directory, which the shell reads as it is. The working
  -- directory is there, seen from the one that the server runs in.
  pub record IsFirst : Type 0 where
    pub plain : R.is_plain fields.instance_dir ≡ true
    pub here : R.is_here fields.working_dir ≡ true
    pub up_to_date : IsUpToDate os R w.os
    pub committed : IsCommitted os R fields.working_dir w.os
    pub new : IsOutsideGit os R fields.instance_dir (R.store w.os)
    pub file_within : R.within fields.instance_dir fields.instance_file ≡ true
    pub files_within : AreWithin os R fields.instance_dir instance.files

  abbrev once : Result Unit₀ × Instance × World S O Vars
  once =
      apply (machine os) unmarshal (bare_server E os settings unmarshal instances_dir templates_dir)
        false instance w

  -- An `Apply` over a lawful git repository, to a server without kustomize and kubectl whose working
  -- directory is there, seen from the directory it runs in, for an Instance that the repository,
  -- which has nothing to pull and nothing to commit, does not have yet, with files that git counts
  -- to its directory, which the shell reads as it is: if it returns nil, the index, HEAD and the
  -- remote are what they were. The Instance is in none of them.
  pub apply-new_lost :
      IsFirst
      → once.0 ≡ ok tt
      → (R.store once.2.os ≡ R.store w.os)
        × IsOutsideGit os R fields.instance_dir (R.store once.2.os)
  apply-new_lost first h =
      let (ready, done, last) =
        apply-steps E os settings unmarshal instances_dir templates_dir false instance w h in
      let b = before_writing os R fields instance w.os in
      let (s, c) = before_writing-kept os R fields instance w.os first.plain first.up_to_date in
      let e = prepare-ok os R fields instance w.os ready in
      let written = ap (λ (p : Result Unit₀ × O). p.0) (sym e) ∙ ready in
      let new = subst (IsOutsideGit os R fields.instance_dir) (sym s) first.new in
      let committed =
        write_instance-IsCommitted os R fields instance first.file_within first.files_within b new
          (IsCommitted-kept os R fields.working_dir w.os b (s, c) first.committed) written in
      let o = (write_instance os fields instance b).1 in
      let same =
        ap R.store last
        ∙ (ap (λ (p : Result Unit₀ × O). R.store (commit_files os false fields instance.name p.1).1)
              e
            ∙ (commit_files-idle os R false fields instance.name o first.here committed
                ∙ (write_instance-store os R fields instance b ∙ s))) in
      (same, subst (IsOutsideGit os R fields.instance_dir) (sym same) first.new)

  prepare-unclean :
      (next : Instance) (o : O)
      → (git_pull os o).0 ≡ ok tt
      → (ensure_clean_file os fields.instance_dir (git_pull os o).1).0
        ≡ err untracked_uncommitted_changes_error
      → (prepare os fields next o).0 ≡ err untracked_uncommitted_changes_error
  prepare-unclean next o pulled unclean = ground arith

  -- After an `Apply` that returned nil over a lawful git repository, to a server without kustomize
  -- and kubectl whose working directory is there, seen from the directory it runs in, for an
  -- Instance that the repository, which had nothing to pull and nothing to commit, did not have,
  -- with files none of which is its kustomization.yaml and which git counts to its directory, which
  -- the shell reads as it is: the next `Apply` for that name is refused by
  -- UnTrackedUncommittedChangesError, if the names in it are equal, no lock is configured and the
  -- pull succeeds.
  pub apply-again_refused :
      IsFirst
      → IsPlainInstance E os R settings unmarshal instances_dir templates_dir instance w
      → once.0 ≡ ok tt
      → (next : Instance) → next.name ≡ instance.name
      → names_equate next ≡ none
      → once.2.vars.etcd_locks_git_key ≡ ""
      → (git_pull os once.2.os).0 ≡ ok tt
      → (apply
          (machine os)
          unmarshal
          (bare_server E os settings unmarshal instances_dir templates_dir)
          false
          next
          once.2).0
        ≡ err untracked_uncommitted_changes_error
  apply-again_refused first apart h next named equate unlocked pulled =
      let o = once.2.os in
      let (same, new) = apply-new_lost first h in
      let (held, _) =
        apply-published E os R settings unmarshal instances_dir templates_dir instance w apart h in
      let (s, c) = git_pull-kept os R o (
        ap (λ (x : Store). x.remote) same
        ∙ (first.up_to_date ∙ ap (λ (x : Store). x.head) (sym same))) in
      let unclean =
        ensure_clean_file-untracked os R fields.instance_dir fields.instance_file
          instance.kustomization_yaml (git_pull os o).1 first.plain first.file_within
          (λ j inside. ap (λ (x : Store). x.index j) s ∙ (new j inside).0)
          (c fields.instance_file ∙ held) in
      apply-refused E os settings unmarshal instances_dir templates_dir false next
        untracked_uncommitted_changes_error once.2 equate unlocked
        (ap (λ n. (prepare os (fields_of instances_dir settings.working_dir n) next o).0) named
          ∙ prepare-unclean next o pulled unclean)
