-- ===== src/Git/Repository/Removed.antt =====
-- What a `Delete` over the git adapter leaves of an Instance.
use hambone.Base.{
  String, ◌<>◌, true, Option, none, some, [], ◌∷◌, ◌≡◌, refl, sym, ap, ◌∙◌, subst, arith, ◌&&◌,
  if◌then◌else◌,
}
use hambone.Go.{Result, ok, Unit₀}
use hambone.Pb.{Instance}
use hambone.Sys.{Os}
use hambone.State.Receiver.{World, machine}
use hambone.Instances.Statuses.{ItemStatuses}
use hambone.Instances.Requests.{delete}
use hambone.Etcd.Client.{Etcd}
use hambone.Git.Commands.{run_command, git_pull, ensure_clean_file}
use hambone.Git.Getter.{Vars}
use hambone.Git.Updater.{WriterFields, compare_old}
use hambone.Git.Deleter.{examine}
use hambone.Git.Engine.{Settings}
use hambone.Git.Outcome.{Ran, delete_args, delete_files-ok}
use hambone.Git.Bare.{bare_server, fields_for, examined, delete-steps}
use hambone.Git.Repository.{Store, IsRepository, git, others, is_some}
use hambone.Git.Repository.Written.{contents, Unchanged, ensure_clean_file-kept, compare_old-kept}
use hambone.Git.Repository.Published.{published, diff-kept}

module _ {O : Type 0} (os : Os O) (R : IsRepository os) where
  -- Below the directory there is no file that git does not know.
  abbrev pub IsKnown : String → O → Type 0
  IsKnown dir o =
      (j : String) → R.within dir j ≡ true → (R.store o).index j ≡ none → contents os R o j ≡ none

  IsKnown-kept : (dir : String) (o o' : O) → Unchanged os R o o' → IsKnown dir o → IsKnown dir o'
  IsKnown-kept dir o o' (s, c) known j inside unknown =
      c j ∙ known j inside (ap (λ (x : Store). x.index j) (sym s) ∙ unknown)

  pub ensure_clean_file-IsKnown :
      (dir : String) (o : O)
      → R.is_plain dir ≡ true
      → (ensure_clean_file os dir o).0 ≡ ok tt
      → IsKnown dir o
  unfolding ensure_clean_file run_command
  ensure_clean_file-IsKnown dir o plain h j inside unknown =
      let (s, c) = diff-kept os R ("--exit-code" ∷ "--" ∷ dir ∷ []) o in
      let o₁ = (git os ("diff" ∷ "--exit-code" ∷ "--" ∷ dir ∷ []) o).1 in
      let clear : (others os dir o₁).0.error ≡ none = ground arith in
      sym (c j)
      ∙ (R.others_none dir o₁ plain).0 clear j inside (ap (λ (x : Store). x.index j) s ∙ unknown)

  -- `Init` of the deleter, when it returns nil, has found the directory clean.
  examine-IsKnown :
      (fields : WriterFields) (instance : Instance) (o : O)
      → R.is_plain fields.instance_dir ≡ true
      → (examine os fields instance o).0 ≡ ok tt
      → IsKnown fields.instance_dir (examine os fields instance o).1
  examine-IsKnown fields instance o plain h =
      let dir = fields.instance_dir in
      let o₁ = (os.not_exist fields.instance_file (git_pull os o).1).1 in
      let o₂ = (ensure_clean_file os dir o₁).1 in
      let clean : (ensure_clean_file os dir o₁).0 ≡ ok tt = ground arith in
      let last : (examine os fields instance o).1
          ≡ (compare_old os fields.instance_file instance.old_instance o₂).1 =
        ground arith in
      subst (IsKnown dir) (sym last) (
        IsKnown-kept dir o₂ _ (compare_old-kept os R fields.instance_file instance.old_instance o₂)
          (IsKnown-kept dir o₁ o₂ (ensure_clean_file-kept os R dir o₁ plain)
            (ensure_clean_file-IsKnown dir o₁ plain clean)))

  -- The index without the directory.
  abbrev pub without : String → Store → String → Option String
  without dir s j = if R.within dir j then none else s.index j

  steps-removed :
      (dir name : String) (o o' : O)
      → Ran os (delete_args os dir name) o o'
      → (R.store o' ≡ published os R (without dir (R.store o)))
        × ((j : String)
            → contents os R o' j ≡ (
                if R.within dir j && is_some ((R.store o).index j)
                then none
                else contents os R o j))
  steps-removed dir name o o' (rm, (commit, (push, last))) =
      let message = "Automate hambone delete for " <> name in
      let o₁ = (git os ("rm" ∷ "-rf" ∷ dir ∷ []) o).1 in
      let o₂ = (git os ("commit" ∷ "-m" ∷ message ∷ []) o₁).1 in
      (
        ap R.store (sym last)
            ∙ (R.push_store o₂ push
                ∙ (ap (λ (s : Store). record s { remote = s.head })
                      (R.commit_store message o₁ commit)
                    ∙ ap (λ (s : Store). record s { head = s.index; remote = s.index })
                        (R.rm_store dir o rm))),
        λ j.
            ap (λ (x : O). contents os R x j) (sym last)
            ∙ (R.push_contents j o₂ ∙ (R.commit_contents message j o₁ ∙ R.rm_contents dir j o rm)),
      )

  none-left :
      (c : Option String) (i : Option String)
      → (i ≡ none → c ≡ none)
      → (if true && is_some i then none else c) ≡ none
  none-left c none h = h refl
  none-left c (some t) h = refl

module _ {S O : Type 0} (E : Etcd S) (os : Os O) (R : IsRepository os) (settings : Settings)
    (unmarshal : String → Result ItemStatuses) (instances_dir templates_dir : String)
    (instance : Instance) (w : World S O Vars) where
  abbrev fields : WriterFields
  fields = fields_for E os settings unmarshal instances_dir templates_dir instance

  abbrev deleted : Result Unit₀ × Instance × World S O Vars
  deleted =
      delete (machine os) unmarshal
        (bare_server E os settings unmarshal instances_dir templates_dir) instance w

  -- After a `Delete` over a lawful git repository, to a server without kustomize and kubectl, that
  -- returned nil for an Instance whose directory the shell reads as it is, the index, HEAD and the
  -- remote are the same. They are what the index was at the end of `Init`, without the directory of
  -- the Instance; and no file below it is left in the working tree.
  pub delete-published :
      R.is_plain fields.instance_dir ≡ true
      → deleted.0 ≡ ok tt
      → let o = deleted.2.os in
        let o₁ = (examined E os settings unmarshal instances_dir templates_dir instance w.os).1 in
        (R.store o ≡ published os R (without os R fields.instance_dir (R.store o₁)))
        × ((j : String) → R.within fields.instance_dir j ≡ true → contents os R o j ≡ none)
  delete-published plain h =
      let (ready, done, last) =
        delete-steps E os settings unmarshal instances_dir templates_dir instance w h in
      let o₁ = (examined E os settings unmarshal instances_dir templates_dir instance w.os).1 in
      let (s, c) =
        steps-removed os R fields.instance_dir instance.name o₁ _
          ((delete_files-ok os fields instance.name o₁).0 done) in
      let known = examine-IsKnown os R fields instance w.os plain ready in
      (
        ap R.store last ∙ s,
        λ j inside.
            ap (λ (x : O). contents os R x j) last
            ∙ (c j
                ∙ (ap
                      (λ b.
                        if b && is_some ((R.store o₁).index j) then none else contents os R o₁ j)
                      inside
                    ∙ none-left os R (contents os R o₁ j) ((R.store o₁).index j) (known j inside))),
      )
