-- ===== src/Examples/Client/Many.antt =====
-- `applyManyInstances` over the etcd adapter.
use hambone.Base.{
  ℕ, zero, suc, ◌+◌, ◌<◌, ◌≤◌, String, ◌<>◌, Bool, true, false, ◌≡◌, refl, sym, ap, subst, ◌∙◌,
  Option, some, List, arith, decimal, String-discrete,
}
use hambone.Base.Prefix.{has_code, has_code-glue, glue-eq, contains-has_code}
use hambone.Base.Decimal.{decimal-no_slash}
use hambone.Go.{Result, ok, Unit₀}
use hambone.Go.Rules.{>>=-ok, >>=-of_ok}
use hambone.Pb.{Instance}
use hambone.Sys.{Os}
use hambone.State.Receiver.{World, machine}
use hambone.Instances.Statuses.{ItemStatuses}
use hambone.Instances.Requests.{Server}
use hambone.Etcd.Client.{Etcd}
use hambone.Etcd.Adapter.{get_instance_key, instance_key_prefix}
use hambone.Etcd.Keys.{get_instance_key-injective}
use hambone.Etcd.Lawful.{IsLawful, IsStorageKey}
use hambone.Etcd.Engine.{Settings}
use hambone.Etcd.Server.{etcd_server}
use hambone.Etcd.Apply.{apply-stored}
use hambone.Etcd.Updater.Commit.{with_instance}
use hambone.Examples.Api.{Api, connected}
use native.Mathlib.Decide.{ℕ_discrete}
use hambone.Examples.Connected.{connected-apply, connected-applies}
use hambone.Etcd.Success.{apply-succeeds}
use hambone.Etcd.Reliable.{IsReliable}
use hambone.Examples.Client.{
  generate_kustomization_yaml, many_name, applied_instance, apply_rounds, apply_many_instances,
}

many_name-no_slash : (i : ℕ) → has_code b'/' (instance_key_prefix <> many_name i) ≡ false
unfolding many_name has_code
many_name-no_slash i = ground (
  arith,
  glue-eq "my-client-" (decimal i),
  has_code-glue b'/' "my-client-" (decimal i),
  glue-eq instance_key_prefix (many_name i),
  has_code-glue b'/' instance_key_prefix (many_name i),
  decimal-no_slash i,
)

slash_in_mark : has_code b'/' "-lock/" ≡ true
unfolding has_code
slash_in_mark = refl

many_name-IsStorageKey : (i : ℕ) → IsStorageKey (get_instance_key (many_name i))
unfolding get_instance_key
many_name-IsStorageKey i =
    contains-has_code b'/' (instance_key_prefix <> many_name i) "-lock/" slash_in_mark
      (many_name-no_slash i)

abbrev key : ℕ → String
key i = get_instance_key (many_name i)

abbrev yaml : ℕ → String
yaml i = generate_kustomization_yaml (many_name i) (many_name i)

-- Two rounds that store under the same key store the same.
same-yaml : (i j : ℕ) → key i ≡ key j → yaml i ≡ yaml j
same-yaml i j e =
    ap (λ n. generate_kustomization_yaml n n)
      (get_instance_key-injective (many_name i) (many_name j) e)

round-own :
    (i : ℕ) (old : Option String)
    → with_instance (applied_instance (many_name i)) (key i) old ≡ some (yaml i)
round-own i old = ground arith

round-keeps :
    (i j : ℕ) (old : Option String)
    → old ≡ some (yaml i)
    → with_instance (applied_instance (many_name j)) (key i) old ≡ some (yaml i)
round-keeps i j old e = elim (String-discrete (key i) (key j)) [
  | yes same ↦ ground (arith, same-yaml i j same)
  | no n ↦ ground (arith, n)
]

module _ {S O : Type 0} (E : Etcd S) (L : IsLawful E) (os : Os O) (settings : Settings)
    (unmarshal : String → Result ItemStatuses) (instances_dir templates_dir : String)
    (enable_kustomize_build enable_kubectl : Bool) where
  abbrev server : Server (World S O (List String))
  server =
      etcd_server E os settings instances_dir templates_dir enable_kustomize_build enable_kubectl

  abbrev client : Api (World S O (List String))
  client = connected (machine os) unmarshal server

  abbrev Stored : ℕ → World S O (List String) → Type 0
  Stored i w = L.value w.etcd (key i) ≡ some (yaml i)

  -- One round, which returned nil, of the Instance `j`.
  applied-value :
      (i j : ℕ) (w : World S O (List String)) {a : Instance}
      → (client.apply (applied_instance (many_name j)) w).0 ≡ ok a
      → L.value (client.apply (applied_instance (many_name j)) w).1.etcd (key i)
        ≡ with_instance (applied_instance (many_name j)) (key i) (L.value w.etcd (key i))
  applied-value i j w h =
      let instance = applied_instance (many_name j) in
      let (applied, same) = connected-apply (machine os) unmarshal server instance w h in
      ap (λ (p : Result Instance × World S O (List String)). L.value p.1.etcd (key i)) same
      ∙ apply-stored E L os settings unmarshal instances_dir templates_dir enable_kustomize_build
          enable_kubectl instance w (key i) (many_name-IsStorageKey i) applied

  rounds-keep :
      (i n k : ℕ) (w : World S O (List String))
      → (apply_rounds client n k w).0 ≡ ok tt
      → Stored i w
      → Stored i (apply_rounds client n k w).1
  unfolding apply_rounds
  rounds-keep i zero k w h stored = stored
  rounds-keep i (suc n) k w h stored =
      let instance = applied_instance (many_name k) in
      let (a, e, f) = >>=-ok (λ _. apply_rounds client n (suc k)) (client.apply instance) w h in
      let w' = (client.apply instance w).1 in
      let here = applied-value i k w e ∙ round-keeps i k (L.value w.etcd (key i)) stored in
      subst (λ (p : Result Unit₀ × World S O (List String)). Stored i p.1) (sym f)
        (rounds-keep i n (suc k) w'
          (ap (λ (p : Result Unit₀ × World S O (List String)). p.0) (sym f) ∙ h) here)

  rounds-store :
      (i n k : ℕ) (w : World S O (List String))
      → (apply_rounds client n k w).0 ≡ ok tt
      → k ≤ i
      → i < k + n
      → Stored i (apply_rounds client n k w).1
  unfolding apply_rounds
  rounds-store i zero k w h low high = absurd (omega (arith, low, high))
  rounds-store i (suc n) k w h low high =
      let instance = applied_instance (many_name k) in
      let (a, e, f) = >>=-ok (λ _. apply_rounds client n (suc k)) (client.apply instance) w h in
      let w' = (client.apply instance w).1 in
      let rest = ap (λ (p : Result Unit₀ × World S O (List String)). p.0) (sym f) ∙ h in
      subst (λ (p : Result Unit₀ × World S O (List String)). Stored i p.1) (sym f)
        (elim (ℕ_discrete i k) [
          | yes same ↦ rounds-keep i n (suc k) w' rest (
              ap (λ j. L.value w'.etcd (key j)) same
              ∙ (applied-value k k w e
                  ∙ (round-own k (L.value w.etcd (key k)) ∙ ap (λ j. some (yaml j)) (sym same))))
          | no other ↦
              rounds-store i n (suc k) w' rest (omega (arith, low, other)) (omega (arith, high))
        ])

  -- After an `applyManyInstances` over a lawful etcd cluster that returned nil, each of the 700
  -- Instances my-client-0 to my-client-699 is stored with the yaml that is generated for its name.
  pub apply_many-stored :
      (w : World S O (List String)) (i : ℕ)
      → (apply_many_instances client w).0 ≡ ok tt
      → i < 700
      → L.value (apply_many_instances client w).1.etcd (get_instance_key (many_name i))
        ≡ some (generate_kustomization_yaml (many_name i) (many_name i))
  unfolding apply_many_instances
  apply_many-stored w i h small = rounds-store i 700 0 w h (omega arith) (omega (arith, small))

module _ {S O : Type 0} (E : Etcd S) (L : IsLawful E) (os : Os O) (R : IsReliable E os)
    (settings : Settings) (unmarshal : String → Result ItemStatuses)
    (instances_dir templates_dir : String) where
  abbrev bare_client : Api (World S O (List String))
  bare_client =
      connected (machine os) unmarshal
        (etcd_server E os settings instances_dir templates_dir false false)

  rounds-end : (n k : ℕ) (w : World S O (List String)) → (apply_rounds bare_client n k w).0 ≡ ok tt
  unfolding apply_rounds
  rounds-end zero k w = refl
  rounds-end (suc n) k w =
      let instance = applied_instance (many_name k) in
      let applied =
        apply-succeeds E L os R settings unmarshal instances_dir templates_dir false instance w
          (many_name-IsStorageKey k) (λ old e. absurd cc) in
      let through =
        connected-applies (machine os) unmarshal
          (etcd_server E os settings instances_dir templates_dir false false) instance w applied in
      let step =
        >>=-of_ok (λ _. apply_rounds bare_client n (suc k)) (bare_client.apply instance) w
          through in
      ap (λ (p : Result Unit₀ × World S O (List String)). p.0) step ∙ rounds-end n (suc k) _

  -- `applyManyInstances` over a lawful etcd cluster without the tools gets through its 700 rounds
  -- and returns nil, if no call that the server makes of the cluster and of the machine fails, but
  -- for the calls that clean up, which do not panic.
  pub apply_many-ends :
      (w : World S O (List String)) → (apply_many_instances bare_client w).0 ≡ ok tt
  unfolding apply_many_instances
  apply_many-ends w = rounds-end 700 0 w
