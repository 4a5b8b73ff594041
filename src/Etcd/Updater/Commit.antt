-- ===== src/Etcd/Updater/Commit.antt =====
-- What `Commit` of the etcd updater stores.
use hambone.Base.{
  String, Bool, ◌≡◌, refl, ◌∙◌, Option, none, some, List, [], ◌∷◌, arith, ◌==◌, if◌then◌else◌,
}
use hambone.Go.{ok}
use hambone.Pb.{Instance, File}
use hambone.Sys.{Os}
use hambone.Etcd.Client.{Etcd}
use hambone.Etcd.Adapter.{get_instance_key, get_file_key}
use hambone.Etcd.Keys.{file_key-ne-key}
use hambone.Etcd.Lawful.{IsLawful}
use hambone.Etcd.Updater.{WriterCall, put_files, put_instance, commit}

-- What a key holds after the files of an Instance were stored one after the other.
abbrev pub with_files : String → List File → String → Option String → Option String
with_files key [] j old = old
with_files key (file ∷ files) j old =
    with_files key files j (if j == get_file_key key file.name then some file.contents else old)

-- The same after the yaml and the files.
abbrev pub with_instance : Instance → String → Option String → Option String
with_instance instance j old =
    let key = get_instance_key instance.name in
    with_files key instance.files j (if j == key then some instance.kustomization_yaml else old)

with_files_self :
    (key : String) (files : List File) (old : Option String) → with_files key files key old ≡ old
with_files_self key [] old = refl
with_files_self key (file ∷ files) old =
    ground (arith, file_key-ne-key key file.name, with_files_self key files old)

-- No file of an Instance overwrites its yaml.
pub with_instance_self :
    (instance : Instance) (old : Option String)
    → with_instance instance (get_instance_key instance.name) old ≡ some instance.kustomization_yaml
with_instance_self instance old =
    with_files_self (get_instance_key instance.name) instance.files _ ∙ ground arith

module _ {S O : Type 0} (E : Etcd S) (L : IsLawful E) (os : Os O) where
  put_files-value :
      (client : E.Client) (key : String) (files : List File) (j : String) (s : S)
      → (put_files E os client key files s).0 ≡ ok tt
      → L.value (put_files E os client key files s).1 j ≡ with_files key files j (L.value s j)
  unfolding put_files
  put_files-value client key [] j s h = refl
  put_files-value client key (file ∷ files) j s h = ground (
    arith,
    L.put_ok client (get_file_key key file.name) file.contents j s,
    put_files-value client key files j
        (E.put client (get_file_key key file.name) file.contents s).1,
  )

  put_instance-value :
      (client : Option E.Client) (instance : Instance) (j : String) (s : S)
      → let key = get_instance_key instance.name in
        let r = put_instance E os client key instance.kustomization_yaml instance.files s in
        r.0 ≡ ok tt → L.value r.1 j ≡ with_instance instance j (L.value s j)
  put_instance-value none instance j s h = cc
  put_instance-value (some client) instance j s h =
      let key = get_instance_key instance.name in
      ground (
        arith,
        L.put_ok client key instance.kustomization_yaml j s,
        put_files-value client key instance.files j
            (E.put client key instance.kustomization_yaml s).1,
      )

  -- On a lawful cluster a commit of the etcd updater that returns nil has stored the yaml and every
  -- file of the Instance, each under its key, and has changed no other key.
  pub commit-value :
      (skip_commit : Bool) (c : WriterCall S O E.Client) (j : String)
      → (commit E os skip_commit c).0 ≡ ok tt
      → L.value (commit E os skip_commit c).1.world.etcd j
        ≡ with_instance c.shared j (L.value c.world.etcd j)
  unfolding commit
  commit-value skip_commit c j h = put_instance-value c.self.fields.client c.shared j c.world.etcd h
