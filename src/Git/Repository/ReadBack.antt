-- ===== src/Git/Repository/ReadBack.antt =====
-- A `Get` over the git adapter for the name of an Instance, right after an `Apply` of it.
use hambone.Base.{
  String, true, false, some, List, [], ◌∷◌, ◌≡◌, ◌≢◌, refl, sym, ap, ◌∙◌, subst, inl, inr, arith,
  ◌&&◌, ◌==◌, Bool-cases,
}
use hambone.Go.{Result, ok, Result-cases}
use hambone.Pb.{Instance, InstanceList, GetOptions}
use hambone.Sys.{Os, FileInfo}
use hambone.Helpers.{get_instance_dir_file}
use hambone.State.Method.{Call}
use hambone.State.Receiver.{World, Receiver, machine, run_and_forget}
use hambone.Instances.Statuses.{ItemStatuses}
use hambone.Instances.Requests.{apply, get}
use hambone.Etcd.Client.{Etcd}
use hambone.Git.Commands.{git_pull}
use hambone.Git.Getter as Getter
use hambone.Git.Getter.{Vars, GetterFields}
use hambone.Git.Loader.{load_instance, load_named}
use hambone.Git.Engine.{Settings}
use hambone.Git.WrittenFiles.{IsFileSystem, IsLoaded, load-IsLoaded}
use hambone.Git.Bare.{bare_server}
use hambone.Git.Repository.{IsRepository, Lists}
use hambone.Git.Repository.Written.{contents, IsUpToDate, git_pull-kept}
use hambone.Git.Repository.Published.{IsPlainInstance, apply-published}

module _ {O : Type 0} (os : Os O) (F : IsFileSystem os) where
  listed_later :
      (file : FileInfo) (files : List FileInfo) (name : String)
      → (file.is_dir && (file.name == name)) ≡ false
      → Lists name (file ∷ files)
      → Lists name files
  listed_later file files name other (inl (is_dir, same)) = absurd (ground arith)
  listed_later file files name other (inr later) = later

  -- The loop ends at the directory of the name, and loads its Instance.
  load_named-IsLoaded :
      (dir name yaml : String) (files : List FileInfo) (o : O) {loaded : InstanceList}
      → Lists name files
      → F.contents o (get_instance_dir_file dir name).1 ≡ some yaml
      → (load_named os dir name [] files o).0 ≡ ok loaded
      → IsLoaded os F name yaml loaded
  unfolding load_named
  load_named-IsLoaded dir name yaml [] o listed held h = absurd listed
  load_named-IsLoaded dir name yaml (file ∷ files) o {loaded} listed held h =
      elim (Bool-cases (file.is_dir && (file.name == name))) [
        | inl found ↦
            let same : file.name ≡ name = ground arith in
            let this : (load_instance os dir file.name true o).0 ≡ ok loaded = ground arith in
            load-IsLoaded os F dir name yaml true o held
              (ap (λ n. (load_instance os dir n true o).0) (sym same) ∙ this)
        | inr other ↦
            load_named-IsLoaded dir name yaml files o (listed_later file files name other listed)
              held (ground arith)
      ]

abbrev State : Type 0 → Type 0 → Type 0
State S O = Call (World S O Vars) InstanceList (Receiver S GetterFields)

module _ {S O : Type 0} (os : Os O) (R : IsRepository os) where
  module _ (c : State S O) where
    abbrev pulled : O
    pulled = (git_pull os c.world.os).1

    abbrev listed : Result (List FileInfo) × O
    listed = os.read_dir c.self.fields.instances_dir pulled

    -- What a run for a name that returns nil has read.
    run-named :
        c.self.fields.options.name ≢ ""
        → c.shared ≡ []
        → (Getter.run os c).0 ≡ ok tt
        → (files : List FileInfo) × (listed.0 ≡ ok files)
          × ((load_named os c.self.fields.instances_dir c.self.fields.options.name [] files
                listed.1).0
              ≡ ok (Getter.run os c).1.shared)
    unfolding Getter.run Getter.load
    run-named named empty h = elim (Result-cases listed.0) [
      | inl (files, e) ↦ (files, e, ground (arith, named))
      | inr (inl (x, e)) ↦ absurd (ground arith)
      | inr (inr (p, e)) ↦ absurd (ground arith)
    ]

    -- Of a repository with nothing to pull, it returns the Instance of the working tree.
    run-IsLoaded :
        (yaml : String)
        → c.self.fields.options.name ≢ ""
        → R.is_name c.self.fields.options.name ≡ true
        → c.shared ≡ []
        → IsUpToDate os R c.world.os
        → contents os R c.world.os
            (get_instance_dir_file c.self.fields.instances_dir c.self.fields.options.name).1
          ≡ some yaml
        → (Getter.run os c).0 ≡ ok tt
        → IsLoaded os R.files c.self.fields.options.name yaml (Getter.run os c).1.shared
    unfolding get_instance_dir_file
    run-IsLoaded yaml named entry empty u held h =
        let dir = c.self.fields.instances_dir in
        let name = c.self.fields.options.name in
        let path = (get_instance_dir_file dir name).1 in
        let (files, read, loaded) = run-named named empty h in
        let there = (git_pull-kept os R c.world.os u).1 path ∙ held in
        load_named-IsLoaded os R.files dir name yaml files listed.1
          (R.read_dir_lists dir name yaml pulled entry there read)
          (R.read_dir_contents dir path pulled ∙ there) loaded

module _ {S O : Type 0} (E : Etcd S) (os : Os O) (R : IsRepository os) (settings : Settings)
    (unmarshal : String → Result ItemStatuses) (instances_dir templates_dir : String) where
  -- The call of the getter that a `Get` makes.
  abbrev asked : GetOptions → World S O Vars → State S O
  asked options w = record {
    world = w;
    shared = [];
    self = record {
      fields = record {
        options = options;
        instances_dir = instances_dir;
        working_dir = settings.working_dir;
      };
      cleanup_funcs = [];
    };
  }

  get-run :
      (options : GetOptions) (w : World S O Vars)
      → let done =
          get
            (machine os)
            unmarshal
            (bare_server E os settings unmarshal instances_dir templates_dir)
            options
            w in
        done.0 ≡ ok tt
        → ((Getter.run os (asked options w)).0 ≡ ok tt)
          × (done.1 ≡ (Getter.run os (asked options w)).1.shared)
  unfolding get run_and_forget
  get-run options w h = (ground arith, ground arith)

  -- If, after an `Apply` over a lawful git repository, to a server without kustomize and kubectl,
  -- that returned nil, the remote has the branch as it is: a `Get` for the name of the Instance
  -- right after it answers, if it returns nil, the name names an entry of a directory and no file of
  -- the Instance is its kustomization.yaml, one Instance with that name and yaml, and with files none of which is
  -- the kustomization.yaml. This is so whether the `Apply` has published the Instance or not.
  pub get-written :
      (instance : Instance) (options : GetOptions) (w : World S O Vars)
      → let server = bare_server E os settings unmarshal instances_dir templates_dir in
        let applied = apply (machine os) unmarshal server false instance w in
        let got = get (machine os) unmarshal server options applied.2 in
        IsPlainInstance E os R settings unmarshal instances_dir templates_dir instance w
        → options.name ≡ instance.name
        → instance.name ≢ ""
        → R.is_name instance.name ≡ true
        → applied.0 ≡ ok tt
        → IsUpToDate os R applied.2.os
        → got.0 ≡ ok tt
        → IsLoaded os R.files instance.name instance.kustomization_yaml got.1
  get-written instance options w apart same named entry applied up_to_date got =
      let server = bare_server E os settings unmarshal instances_dir templates_dir in
      let w' = (apply (machine os) unmarshal server false instance w).2 in
      let (held, _) =
        apply-published E os R settings unmarshal instances_dir templates_dir instance w apart
          applied in
      let (ran, answered) = get-run options w' got in
      let loaded =
        run-IsLoaded os R (asked options w') instance.kustomization_yaml (λ e. named (sym same ∙ e))
          (ap R.is_name same ∙ entry) refl up_to_date
          (ap (λ n. contents os R w'.os (get_instance_dir_file instances_dir n).1) same ∙ held)
          ran in
      subst
        (λ n.
          IsLoaded os R.files n instance.kustomization_yaml
            (get (machine os) unmarshal server options w').1)
        same
        (subst (IsLoaded os R.files options.name instance.kustomization_yaml) (sym answered) loaded)
