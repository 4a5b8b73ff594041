-- ===== src/Etcd/Reliable.antt =====
-- What the etcd updater does when every call of the cluster and of the machine succeeds.
use hambone.Base.{
  String, Bool, true, false, ◌≡◌, refl, sym, ap, subst, ◌∙◌, inl, inr, Option, none, some, List, [],
  ◌∷◌, arith,
}
use hambone.Go.{Result, ok, Result-cases, ◌>>◌}
use hambone.Pb.{Instance, OldInstance, File}
use hambone.Sys.{Os}
use hambone.Helpers.{mkdir_file}
use hambone.Etcd.Client.{Etcd, KeyValue}
use hambone.Etcd.Adapter.{
  get_instance_key, get_session_and_mutex, compare_old, old_instance_equals_current_instance_if_set,
  write_files,
}
use hambone.Etcd.Lawful.{IsLawful, IsStorageKey, entry}
use hambone.Etcd.Stored.{get_session_and_mutex-keeps}
use hambone.Etcd.Updater.Cleanup.{IsQuiet}
use hambone.Etcd.Updater.{
  WriterCall, init, put_files, open_client, take_lock, check_old, write_instance,
}

abbrev pub is_ok : {A : Type 0} → Result A → Bool
is_ok (ok _) = true
is_ok _ = false

-- No call that an apply makes fails, but for those that clean up, which do not panic.
pub record IsReliable {S O : Type 0} (E : Etcd S) (os : Os O) : Type 0 where
  pub new_client_ok : (es : List String) (s : S) → is_ok (E.new_client es s).0 ≡ true
  pub key_exists_ok : (c : E.Client) (k : String) (s : S) → is_ok (E.key_exists c k s).0 ≡ true
  pub get_ok : (c : E.Client) (k : String) (s : S) → is_ok (E.get c k s).0 ≡ true
  pub put_ok : (c : E.Client) (k v : String) (s : S) → is_ok (E.put c k v s).0 ≡ true
  pub with_timeout_ok : (s : S) → is_ok (E.with_timeout s).0 ≡ true
  pub new_session_ok : (c : E.Client) (x : E.Context) (s : S) → is_ok (E.new_session c x s).0 ≡ true
  pub lock_ok : (m : E.Mutex) (s : S) → is_ok (E.lock m s).0 ≡ true
  pub quiet : IsQuiet E
  pub mkdir_all_ok : (path : String) (o : O) → is_ok (os.mkdir_all path o).0 ≡ true
  pub write_file_ok :
      (path contents : String) (o : O) → is_ok (os.write_file path contents o).0 ≡ true

module _ {S O : Type 0} (E : Etcd S) (L : IsLawful E) (os : Os O) (R : IsReliable E os) where
  session-ok :
      (c : E.Client) (key : String) (s : S) → is_ok (get_session_and_mutex E c key s).0 ≡ true
  unfolding get_session_and_mutex
  session-ok c key s = grind (arith, R.with_timeout_ok, R.new_session_ok, R.lock_ok)

  mkdir_file-ok : (path contents : String) (o : O) → is_ok (mkdir_file os path contents o).0 ≡ true
  unfolding mkdir_file
  mkdir_file-ok path contents o = grind (arith, R.mkdir_all_ok, R.write_file_ok)

  write_files-ok :
      (d : String) (files : List File) (o : O) → is_ok (write_files os d files o).0 ≡ true
  unfolding write_files
  write_files-ok d [] o = refl
  write_files-ok d (file ∷ files) o = grind (arith, mkdir_file-ok, write_files-ok d files)

  pub put_files-ok :
      (c : E.Client) (key : String) (files : List File) (s : S)
      → is_ok (put_files E os c key files s).0 ≡ true
  unfolding put_files
  put_files-ok c key [] s = refl
  put_files-ok c key (file ∷ files) s = grind (arith, R.put_ok, put_files-ok c key files)

  compare_old-passes :
      (old : OldInstance) (key : String) (kvs : List KeyValue) (s : S)
      → kvs ≡ entry key (some old.kustomization_yaml)
      → is_ok (compare_old E old kvs s).0 ≡ true
  compare_old-passes old key kvs s e = rw e (ground arith)

  -- The OldInstance that is stored passes.
  old_instance-passes :
      (c : E.Client) (key : String) (old : OldInstance) (s : S)
      → L.value s key ≡ some old.kustomization_yaml
      → is_ok (old_instance_equals_current_instance_if_set E c key (some old) s).0 ≡ true
  unfolding old_instance_equals_current_instance_if_set
  old_instance-passes c key old s held = elim (Result-cases (E.key_exists c key s).0) [
    | inr failed ↦ absurd (elim failed [
      | inl x ↦ ground (arith, R.key_exists_ok c key s)
      | inr x ↦ ground (arith, R.key_exists_ok c key s)
    ])
    | inl (b, e) ↦ elim (Result-cases (E.get c key (E.key_exists c key s).1).0) [
      | inr failed ↦ absurd (elim failed [
        | inl x ↦ ground (arith, R.get_ok c key (E.key_exists c key s).1)
        | inr x ↦ ground (arith, R.get_ok c key (E.key_exists c key s).1)
      ])
      | inl (kvs, f) ↦
          let after = (E.key_exists c key s).1 in
          ground (
            arith,
            L.key_exists_ok c key s e,
            compare_old-passes old key kvs (E.get c key after).1
                (L.get_ok c key after f ∙ ap (entry key) (L.key_exists_value c key key s ∙ held)),
          )
    ]
  ]

  -- An OldInstance that is not given, or that is what is stored.
  abbrev pub Fresh : Instance → S → Type 0
  Fresh instance s =
      (old : OldInstance)
      → instance.old_instance ≡ some old
      → L.value s (get_instance_key instance.name) ≡ some old.kustomization_yaml

  old_option-passes :
      (c : E.Client) (key : String) (o : Option OldInstance) (s : S)
      → ((old : OldInstance) → o ≡ some old → L.value s key ≡ some old.kustomization_yaml)
      → is_ok (old_instance_equals_current_instance_if_set E c key o s).0 ≡ true
  unfolding old_instance_equals_current_instance_if_set
  old_option-passes c key none s h = refl
  old_option-passes c key (some old) s h = old_instance-passes c key old s (h old refl)

  check_old-passes :
      (client : E.Client) (c : WriterCall S O E.Client)
      → Fresh c.shared c.world.etcd
      → is_ok (check_old E os client c).0 ≡ true
  check_old-passes client c fresh =
      old_option-passes client (get_instance_key c.shared.name) c.shared.old_instance c.world.etcd
        fresh

  write_instance-ok : (c : WriterCall S O E.Client) → is_ok (write_instance E os c).0 ≡ true
  write_instance-ok c = grind (arith, mkdir_file-ok, write_files-ok)

  -- The last two steps of `Init`.
  finish-ok :
      (client : E.Client) (c : WriterCall S O E.Client)
      → Fresh c.shared c.world.etcd
      → is_ok ((check_old E os client >> write_instance E os) c).0 ≡ true
  finish-ok client c fresh =
      ground (arith, check_old-passes client c fresh, write_instance-ok (check_old E os client c).1)

  opened :
      (c : WriterCall S O E.Client)
      → (client : E.Client) × ((open_client E os "(*etcdUpdater).Init.func1" c).0 ≡ ok client)
        × ((open_client E os "(*etcdUpdater).Init.func1" c).1.self.fields.client ≡ some client)
        × ((open_client E os "(*etcdUpdater).Init.func1" c).1.shared ≡ c.shared)
  opened c = elim (Result-cases (E.new_client c.world.vars c.world.etcd).0) [
    | inr failed ↦ absurd (elim failed [
      | inl x ↦ ground (arith, R.new_client_ok c.world.vars c.world.etcd)
      | inr x ↦ ground (arith, R.new_client_ok c.world.vars c.world.etcd)
    ])
    | inl (client, e) ↦ (client, ground arith, ground arith, ground arith)
  ]

  take_lock-ok :
      (a b d : String) (client : E.Client) (c : WriterCall S O E.Client)
      → is_ok (take_lock E os a b d client c).0 ≡ true
  take_lock-ok a b d client c = grind (arith, session-ok)

  take_lock-keeps :
      (a b d : String) (client : E.Client) (c : WriterCall S O E.Client)
      → let t = (take_lock E os a b d client c).1 in
        (t.self.fields ≡ c.self.fields) × (t.shared ≡ c.shared)
  take_lock-keeps a b d client c = (ground arith, ground arith)

  take_lock-value :
      (a b d : String) (client : E.Client) (c : WriterCall S O E.Client) (j : String)
      → IsStorageKey j
      → L.value (take_lock E os a b d client c).1.world.etcd j ≡ L.value c.world.etcd j
  take_lock-value a b d client c j storage = grind (arith, get_session_and_mutex-keeps E L j)

  open_client-value :
      (name : String) (c : WriterCall S O E.Client) (j : String)
      → L.value (open_client E os name c).1.world.etcd j ≡ L.value c.world.etcd j
  open_client-value name c j = grind (arith, L.new_client_value)

  finish-keeps :
      (client : E.Client) (c : WriterCall S O E.Client)
      → let d = ((check_old E os client >> write_instance E os) c).1 in
        (d.self.fields ≡ c.self.fields) × (d.shared ≡ c.shared)
  finish-keeps client c = (ground arith, ground arith)

  -- `Init` returns nil, and has a client then.
  pub init-succeeds :
      (c : WriterCall S O E.Client)
      → IsStorageKey (get_instance_key c.shared.name)
      → Fresh c.shared c.world.etcd
      → (is_ok (init E os c).0 ≡ true)
        × ((client : E.Client) × ((init E os c).1.self.fields.client ≡ some client))
  unfolding init
  init-succeeds c storage fresh =
      let (client, e, f, g) = opened c in
      let c₁ = (open_client E os "(*etcdUpdater).Init.func1" c).1 in
      let lock =
        take_lock E os "(*etcdUpdater).Init.func2" "(*etcdUpdater).Init.func3"
          "(*etcdUpdater).Init.func4" client in
      let c₂ = (lock c₁).1 in
      let kept =
        take_lock-keeps "(*etcdUpdater).Init.func2" "(*etcdUpdater).Init.func3"
          "(*etcdUpdater).Init.func4" client c₁ in
      let key = get_instance_key c.shared.name in
      let same : c₂.shared ≡ c.shared = kept.1 ∙ g in
      let value : L.value c₂.world.etcd key ≡ L.value c.world.etcd key =
        take_lock-value _ _ _ client c₁ key storage ∙ open_client-value _ c key in
      let fresh₂ : Fresh c₂.shared c₂.world.etcd =
        subst (λ i. Fresh i c₂.world.etcd) (sym same) (λ old h. value ∙ fresh old h) in
      let locked =
        take_lock-ok "(*etcdUpdater).Init.func2" "(*etcdUpdater).Init.func3"
          "(*etcdUpdater).Init.func4" client c₁ in
      let finished = finish-ok client c₂ fresh₂ in
      let held = finish-keeps client c₂ in
      (
        ground (arith, e, locked, finished),
        (client, ground (arith, e, f, locked, finished, held, kept)),
      )
