-- ===== src/Git/Repository/Replaced.antt =====
-- What a request with an OldInstance over the git adapter has replaced or removed.
use hambone.Base.{
  String, true, false, Option, none, some, ◌≡◌, refl, sym, ap, ◌∙◌, inl, inr, arith, trim_space, [],
  ◌∷◌,
}
use hambone.Go.{Result, ok, Result-cases}
use hambone.Pb.{Instance, OldInstance}
use hambone.Sys.{Os}
use hambone.State.Receiver.{World, machine}
use hambone.Instances.Statuses.{ItemStatuses}
use hambone.Instances.Requests.{apply, delete}
use hambone.Etcd.Client.{Etcd}
use hambone.Git.Commands.{run_command, git_pull, ensure_clean_file}
use hambone.Git.Getter.{Vars}
use hambone.Git.Updater.{WriterFields, compare_old, prepare}
use hambone.Git.Deleter.{examine}
use hambone.Git.Engine.{Settings}
use hambone.Git.Bare.{bare_server, fields_for, apply-steps, delete-steps}
use hambone.Git.Repository.{Store, IsRepository, git, seen}
use hambone.Git.Repository.Written.{contents, IsUpToDate, git_pull-kept, ensure_clean_file-kept}
use hambone.Git.Repository.Removed.{ensure_clean_file-IsKnown}

seen-some :
    (i c : Option String) {t : String}
    → c ≡ some t
    → (i ≡ none → c ≡ none)
    → seen i c ≡ i
    → i ≡ some t
seen-some none c e known same = sym (known refl) ∙ e
seen-some (some s) c e known same = sym same ∙ e

module _ {O : Type 0} (os : Os O) (R : IsRepository os) where
  -- The index holds the yaml of OldInstance, white space at both ends aside.
  abbrev pub Holds : String → OldInstance → O → Type 0
  Holds file old o =
      (text : String) × ((R.store o).index file ≡ some text)
      × (trim_space old.kustomization_yaml ≡ trim_space text)

  compare_old-ok :
      (file : String) (old : OldInstance) (o : O)
      → (compare_old os file (some old) o).0 ≡ ok tt
      → (text : String) × (contents os R o file ≡ some text)
        × (trim_space old.kustomization_yaml ≡ trim_space text)
  unfolding compare_old
  compare_old-ok file old o h =
      let o₁ = (os.not_exist file o).1 in
      elim (Result-cases (os.read_file file o₁).0) [
        | inl (text, e) ↦ (
          text,
          sym (R.files.not_exist_contents file file o) ∙ R.files.read_ok file text o₁ e,
          ground arith,
        )
        | inr (inl (x, e)) ↦ absurd (ground arith)
        | inr (inr (p, e)) ↦ absurd (ground arith)
      ]

  -- The directory was clean, and its yaml the one of OldInstance.
  clean-Holds :
      (dir file : String) (old : OldInstance) (o : O)
      → R.is_plain dir ≡ true
      → R.within dir file ≡ true
      → (ensure_clean_file os dir o).0 ≡ ok tt
      → (compare_old os file (some old) (ensure_clean_file os dir o).1).0 ≡ ok tt
      → Holds file old o
  unfolding ensure_clean_file run_command
  clean-Holds dir file old o plain inside clean compared =
      let (s, c) = ensure_clean_file-kept os R dir o plain in
      let (text, held, same) = compare_old-ok file old (ensure_clean_file os dir o).1 compared in
      let unchanged : (git os ("diff" ∷ "--exit-code" ∷ "--" ∷ dir ∷ []) o).0.error ≡ none =
        ground arith in
      (
        text,
        seen-some ((R.store o).index file) (contents os R o file) (sym (c file) ∙ held)
            (ensure_clean_file-IsKnown os R dir o plain clean file inside)
            ((R.diff_index dir o).0 unchanged file inside),
        same,
      )

  Holds-kept :
      (file : String) (old : OldInstance) (o o' : O)
      → R.store o' ≡ R.store o
      → Holds file old o'
      → Holds file old o
  Holds-kept file old o o' s (text, held, same) =
      (text, ap (λ (x : Store). x.index file) (sym s) ∙ held, same)

  module _ (fields : WriterFields) (instance : Instance) (old : OldInstance) (o : O)
      (plain : R.is_plain fields.instance_dir ≡ true)
      (inside : R.within fields.instance_dir fields.instance_file ≡ true) (u : IsUpToDate os R o)
      (given : instance.old_instance ≡ some old) where
    prepare-Holds : (prepare os fields instance o).0 ≡ ok tt → Holds fields.instance_file old o
    prepare-Holds h =
        let o₁ = (git_pull os o).1 in
        Holds-kept fields.instance_file old o o₁ (git_pull-kept os R o u).0 (
          clean-Holds fields.instance_dir fields.instance_file old o₁ plain inside (ground arith)
            (ground (arith, given)))

    examine-Holds : (examine os fields instance o).0 ≡ ok tt → Holds fields.instance_file old o
    examine-Holds h =
        let o₁ = (git_pull os o).1 in
        let o₂ = (os.not_exist fields.instance_file o₁).1 in
        Holds-kept fields.instance_file old o o₂
          (R.not_exist_store fields.instance_file o₁ ∙ (git_pull-kept os R o u).0)
          (clean-Holds fields.instance_dir fields.instance_file old o₂ plain inside (ground arith)
            (ground (arith, given)))

module _ {S O : Type 0} (E : Etcd S) (os : Os O) (R : IsRepository os) (settings : Settings)
    (unmarshal : String → Result ItemStatuses) (instances_dir templates_dir : String)
    (instance : Instance) (old : OldInstance) (w : World S O Vars) where
  abbrev fields : WriterFields
  fields = fields_for E os settings unmarshal instances_dir templates_dir instance

  -- A request with an OldInstance, to a repository with nothing to pull, for a directory that the
  -- shell reads as it is and to which git counts the kustomization.yaml.
  pub record IsConditional : Type 0 where
    pub given : instance.old_instance ≡ some old
    pub up_to_date : IsUpToDate os R w.os
    pub plain : R.is_plain fields.instance_dir ≡ true
    pub inside : R.within fields.instance_dir fields.instance_file ≡ true

  -- If an `Apply` with an OldInstance over a lawful git repository with nothing to pull, to a server
  -- without kustomize and kubectl, returns nil, then the yaml that the index had for the Instance
  -- when the request came was the one of OldInstance, white space at both ends aside, as long as
  -- git counts the kustomization.yaml to the directory of the Instance and the shell reads this
  -- directory as it is.
  pub apply-replaces :
      IsConditional
      → (apply
          (machine os)
          unmarshal
          (bare_server E os settings unmarshal instances_dir templates_dir)
          false
          instance
          w).0
        ≡ ok tt
      → Holds os R fields.instance_file old w.os
  apply-replaces conditional h =
      let (ready, _, _) =
        apply-steps E os settings unmarshal instances_dir templates_dir false instance w h in
      prepare-Holds os R fields instance old w.os conditional.plain conditional.inside
        conditional.up_to_date conditional.given ready

  -- If a `Delete` with an OldInstance over a lawful git repository with nothing to pull, to a server
  -- without kustomize and kubectl, returns nil, then the yaml that the index had for the Instance
  -- when the request came was the one of OldInstance, white space at both ends aside, as long as
  -- git counts the kustomization.yaml to the directory of the Instance and the shell reads this
  -- directory as it is.
  pub delete-replaces :
      IsConditional
      → (delete
          (machine os)
          unmarshal
          (bare_server E os settings unmarshal instances_dir templates_dir)
          instance
          w).0
        ≡ ok tt
      → Holds os R fields.instance_file old w.os
  delete-replaces conditional h =
      let (ready, _, _) =
        delete-steps E os settings unmarshal instances_dir templates_dir instance w h in
      examine-Holds os R fields instance old w.os conditional.plain conditional.inside
        conditional.up_to_date conditional.given ready
