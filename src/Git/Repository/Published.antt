-- ===== src/Git/Repository/Published.antt =====
-- Which contents an `Apply` over the git adapter publishes.
use hambone.Base.{
  String, ◌<>◌, true, false, Option, some, List, [], ◌∷◌, ◌≡◌, sym, ap, ◌∙◌, subst, ◌⊎◌, inl, inr,
  if◌then◌else◌,
}
use hambone.Go.{Result, ok, Unit₀}
use hambone.Pb.{Instance}
use hambone.Sys.{Os}
use hambone.State.Receiver.{World, machine}
use hambone.Instances.Statuses.{ItemStatuses}
use hambone.Instances.Requests.{apply}
use hambone.Etcd.Client.{Etcd}
use hambone.Git.Getter.{Vars}
use hambone.Git.Updater.{WriterFields, commit_files}
use hambone.Git.Engine.{Settings}
use hambone.Git.Outcome.{Ran, apply_args, commit_files-ok}
use hambone.Git.WrittenFiles.{IsApart, write_instance-contents}
use hambone.Git.Bare.{bare_server, fields_for, prepared, apply-steps}
use hambone.Git.Repository.{Store, IsRepository, git, seen}
use hambone.Git.Repository.Written.{contents, Unchanged, before_writing, prepare-ok}

module _ {O : Type 0} (os : Os O) (R : IsRepository os) where
  -- The index with the directory as it is in the working tree.
  abbrev pub staged : String → O → String → Option String
  staged dir o j = if R.within dir j then contents os R o j else (R.store o).index j

  -- The same contents in the index, in HEAD and in the remote.
  abbrev pub published : (String → Option String) → Store
  published t = record { index = t; head = t; remote = t }

  steps-published :
      (dir name : String) (o o' : O)
      → Ran os (apply_args os false dir name) o o'
      → (R.store o' ≡ published (staged dir o))
        × ((j : String) → contents os R o' j ≡ contents os R o j)
  steps-published dir name o o' (add, (commit, (push, last))) =
      let message = "Automate hambone apply for " <> name in
      let o₁ = (git os ("add" ∷ dir ∷ []) o).1 in
      let o₂ = (git os ("commit" ∷ "-m" ∷ message ∷ []) o₁).1 in
      (
        ap R.store (sym last)
            ∙ (R.push_store o₂ push
                ∙ (ap (λ (s : Store). record s { remote = s.head })
                      (R.commit_store message o₁ commit)
                    ∙ ap (λ (s : Store). record s { head = s.index; remote = s.index })
                        (R.add_store dir o add))),
        λ j.
            ap (λ (x : O). contents os R x j) (sym last)
            ∙ (R.push_contents j o₂ ∙ (R.commit_contents message j o₁ ∙ R.add_contents dir j o)),
      )

  -- HEAD is what git sees of the working tree below a directory.
  abbrev pub IsCommitted : String → O → Type 0
  IsCommitted dir o =
      (j : String)
      → R.within dir j ≡ true
      → seen ((R.store o).index j) (contents os R o j) ≡ (R.store o).head j

  pub IsCommitted-kept :
      (dir : String) (o o' : O) → Unchanged os R o o' → IsCommitted dir o → IsCommitted dir o'
  IsCommitted-kept dir o o' (s, c) h j w =
      ap (λ (x : Store). seen (x.index j) (contents os R o' j)) s
      ∙ (ap (seen ((R.store o).index j)) (c j) ∙ (h j w ∙ ap (λ (x : Store). x.head j) (sym s)))

  pub diff-kept : (args : List String) (o : O) → Unchanged os R o (git os ("diff" ∷ args) o).1
  diff-kept args o = (R.diff_store args o, λ j. R.diff_contents args j o)

  -- The branch is published, and holds below a directory what the working tree holds.
  abbrev pub IsPublished : String → O → Type 0
  IsPublished dir o =
      (R.store o ≡ published (R.store o).index)
      × ((j : String) → R.within dir j ≡ true → (R.store o).index j ≡ contents os R o j)

  steps-IsPublished :
      (dir name : String) (o o' : O)
      → Ran os (apply_args os false dir name) o o'
      → IsPublished dir o'
  steps-IsPublished dir name o o' ran =
      let (s, c) = steps-published dir name o o' ran in
      let i = ap (λ (x : Store). x.index) s in
      (
        s ∙ ap published (sym i),
        λ j w.
            ap (λ (t : String → Option String). t j) i
            ∙ (ap (λ b. if b then contents os R o j else (R.store o).index j) w ∙ sym (c j)),
      )

  -- What a commit that returns nil has done: it has found that HEAD is up to date and run nothing
  -- else, or it has published the directory.
  abbrev pub CommittedFrom : WriterFields → O → O → Type 0
  CommittedFrom fields o o' =
      ((R.store o' ≡ R.store o) × IsCommitted fields.working_dir o')
      ⊎ IsPublished fields.instance_dir o'

  pub commit_files-contents :
      (fields : WriterFields) (name : String) (o : O)
      → (commit_files os false fields name o).0 ≡ ok tt
      → let o' = (commit_files os false fields name o).1 in
        CommittedFrom fields o o' × ((j : String) → contents os R o' j ≡ contents os R o j)
  commit_files-contents fields name o h =
      let kept = diff-kept ("--exit-code" ∷ "HEAD" ∷ fields.working_dir ∷ []) o in
      elim (commit_files-ok os false fields name o h) [
        | inl (unchanged, same) ↦
            subst
              (λ o'.
                CommittedFrom fields o o' × ((j : String) → contents os R o' j ≡ contents os R o j))
              (sym same)
              (
                inl (
                  kept.0,
                  IsCommitted-kept fields.working_dir o _ kept
                      (R.diff_head fields.working_dir o unchanged),
                ),
                kept.1,
              )
        | inr (changed, ran) ↦ (
          inr (steps-IsPublished fields.instance_dir name _ _ ran),
          λ j. (steps-published fields.instance_dir name _ _ ran).1 j ∙ kept.1 j,
        )
      ]

module _ {S O : Type 0} (E : Etcd S) (os : Os O) (R : IsRepository os) (settings : Settings)
    (unmarshal : String → Result ItemStatuses) (instances_dir templates_dir : String)
    (instance : Instance) (w : World S O Vars) where
  abbrev fields : WriterFields
  fields = fields_for E os settings unmarshal instances_dir templates_dir instance

  -- No file of the Instance is its kustomization.yaml.
  abbrev pub IsPlainInstance : Type 0
  IsPlainInstance = IsApart os R.files fields.instance_file fields.instance_dir instance.files

  abbrev pub after_init : O
  after_init = (prepared E os settings unmarshal instances_dir templates_dir instance w.os).1

  pub written-contents :
      IsPlainInstance
      → (prepared E os settings unmarshal instances_dir templates_dir instance w.os).0 ≡ ok tt
      → contents os R after_init fields.instance_file ≡ some instance.kustomization_yaml
  written-contents apart h =
      let e = prepare-ok os R fields instance w.os h in
      ap (λ (p : Result Unit₀ × O). contents os R p.1 fields.instance_file) e
      ∙ write_instance-contents os R.files fields instance
          (before_writing os R fields instance w.os) apart
          (ap (λ (p : Result Unit₀ × O). p.0) (sym e) ∙ h)

  -- After an `Apply` over a lawful git repository, to a server without kustomize and kubectl, that
  -- returned nil for an Instance none of whose files is its kustomization.yaml, the working tree
  -- holds the yaml, and one of two holds. Either the index, HEAD and the remote are the same, and
  -- agree below the directory of the Instance with the working tree. Or nothing was committed:
  -- index, HEAD and remote are what they were when the Instance had been written, and HEAD agrees
  -- below the working directory with all that git sees of the working tree.
  pub apply-published :
      IsPlainInstance
      → (apply
          (machine os)
          unmarshal
          (bare_server E os settings unmarshal instances_dir templates_dir)
          false
          instance
          w).0
        ≡ ok tt
      → let o =
          (apply
            (machine os)
            unmarshal
            (bare_server E os settings unmarshal instances_dir templates_dir)
            false
            instance
            w).2.os in
        (contents os R o fields.instance_file ≡ some instance.kustomization_yaml)
        × CommittedFrom os R fields after_init o
  apply-published apart h =
      let (ready, done, last) =
        apply-steps E os settings unmarshal instances_dir templates_dir false instance w h in
      let (from, kept) = commit_files-contents os R fields instance.name after_init done in
      subst
        (λ o.
          (contents os R o fields.instance_file ≡ some instance.kustomization_yaml)
          × CommittedFrom os R fields after_init o)
        (sym last) (kept fields.instance_file ∙ written-contents apart ready, from)
