-- ===== src/Etcd/Getter/Keeps.antt =====
-- A `Get`, however it ends, changes nothing that is stored.
use hambone.Base.{
  String, Bool, not, if◌then◌else◌, ◌&&◌, ◌≡◌, refl, sym, ap, subst, ◌∙◌, inl, inr, List, [], ◌∷◌,
  arith, All,
}
use hambone.Go.{Result, ok, err, panicked, Result-cases, Unit₀, Action, skip}
use hambone.Pb.{InstanceList, GetOptions}
use hambone.Sys.{Os}
use hambone.State.Method.{Call}
use hambone.State.Cleanup.{Cleanup}
use hambone.State.Cleanup.Preserve.{Preserves, cleanup-keeps}
use hambone.State.Receiver.{World, Receiver, machine, run_and_forget}
use hambone.Go.{plain}
use hambone.Instances.Statuses.{ItemStatuses, load_statuses}
use hambone.Instances.Requests.{Server, get, fill_list, fill_all, instance_dir_of, answer}
use hambone.Instances.Requests.Tools.{statuses-keeps}
use hambone.Etcd.Client.{Etcd}
use hambone.Etcd.Lawful.{IsLawful}
use hambone.Etcd.Adapter.{get_instance_key, instance_key_prefix}
use hambone.Etcd.Engine.{Settings, new_getter}
use hambone.Etcd.Server.{etcd_server}
use hambone.Etcd.Getter.{GetterFields, run, fetch, run_cleanup_funcs}

module _ {S : Type 0} (E : Etcd S) (L : IsLawful E) where
  fetch-keeps :
      (c : E.Client) (options : GetOptions) (j : String) (s : S)
      → L.value (fetch E c options s).1 j ≡ L.value s j
  fetch-keeps c options j s = ground (
    arith,
    L.get_value c (get_instance_key options.name) j s,
    L.get_prefix_value c instance_key_prefix j s,
  )

  -- `Close` of the client, if there is one.
  abbrev client_cleanups : Result E.Client → List (Cleanup S)
  client_cleanups (ok client) =
      record { name = "(*etcdGetter).Run.func1"; call = E.close_client client } ∷ []
  client_cleanups _ = []

  cleanups-Preserve :
      (j : String) (s : S) (r : Result E.Client)
      → All (Preserves (λ t. L.value t j ≡ L.value s j)) (client_cleanups r)
  cleanups-Preserve j s (ok client) = (λ t e. L.close_client_value client j t ∙ e, tt)
  cleanups-Preserve j s (err e) = tt
  cleanups-Preserve j s (panicked p) = tt

module _ {S O : Type 0} (E : Etcd S) (L : IsLawful E) where
  run-keeps :
      (j : String) (c : Call (World S O (List String)) InstanceList (Receiver S GetterFields))
      → L.value (run E c).1.world.etcd j ≡ L.value c.world.etcd j
  unfolding run
  run-keeps j c = grind (arith, L.new_client_value, fetch-keeps E L)

  run-registers :
      (c : Call (World S O (List String)) InstanceList (Receiver S GetterFields))
      → c.self.cleanup_funcs ≡ []
      → (run E c).1.self.cleanup_funcs
        ≡ client_cleanups E L (E.new_client c.world.vars c.world.etcd).0
  unfolding run
  run-registers c fresh = grind arith

  closed-keeps :
      (j : String) (r : Result E.Client)
      → (c : Call (World S O (List String)) InstanceList (Receiver S GetterFields))
      → c.self.cleanup_funcs ≡ client_cleanups E L r
      → L.value (run_cleanup_funcs E c).1.world.etcd j ≡ L.value c.world.etcd j
  unfolding run_cleanup_funcs run_and_forget
  closed-keeps j r c same =
      cleanup-keeps (λ t. L.value t j ≡ L.value c.world.etcd j) plain c.self.cleanup_funcs
        c.world.etcd
        (subst (All (Preserves (λ t. L.value t j ≡ L.value c.world.etcd j))) (sym same)
          (cleanups-Preserve E L j c.world.etcd r))
        refl

module _ {S O : Type 0} (E : Etcd S) (L : IsLawful E) (os : Os O) (settings : Settings)
    (unmarshal : String → Result ItemStatuses) (instances_dir templates_dir : String)
    (enable_kustomize_build enable_kubectl : Bool) where
  abbrev server : Server (World S O (List String))
  server =
      etcd_server E os settings instances_dir templates_dir enable_kustomize_build enable_kubectl

  fill_all-etcd :
      (list : InstanceList) (w : World S O (List String))
      → (fill_all (machine os) unmarshal server list w).2.etcd ≡ w.etcd
  unfolding fill_all
  fill_all-etcd [] w = refl
  fill_all-etcd (instance ∷ list) w =
      let dir = instance_dir_of (machine os) unmarshal server instance in
      let w' = (load_statuses unmarshal (machine os) dir instance w).2 in
      ground (arith, statuses-keeps os unmarshal dir instance w, fill_all-etcd list w')

  -- What follows `Run`.
  abbrev filling :
      GetOptions
      → Action (Call (World S O (List String)) InstanceList (Receiver S GetterFields)) Unit₀
  filling options c =
      if enable_kubectl && not options.exclude_statuses
      then fill_list (machine os) unmarshal server c
      else skip c

  filling-keeps :
      (options : GetOptions)
      → (c : Call (World S O (List String)) InstanceList (Receiver S GetterFields))
      → ((filling options c).1.world.etcd ≡ c.world.etcd) × ((filling options c).1.self ≡ c.self)
  filling-keeps options c = (ground (arith, fill_all-etcd c.shared c.world), ground arith)

  answer-state :
      {R : Type 0} (x : Result Unit₀ × Call (World S O (List String)) InstanceList R)
      → (answer (machine os) unmarshal server x).2 ≡ x.1.world
  answer-state (ok _, c) = refl
  answer-state (err e, c) = refl
  answer-state (panicked p, c) = refl

  -- On a lawful etcd cluster a `Get`, however it ends, changes nothing that is stored.
  pub get-keeps :
      (options : GetOptions) (w : World S O (List String)) (j : String)
      → L.value (get (machine os) unmarshal server options w).2.etcd j ≡ L.value w.etcd j
  unfolding get
  get-keeps options w j =
      let c : Call (World S O (List String)) InstanceList (Receiver S GetterFields) = record {
        world = w;
        shared = [];
        self = new_getter E os options instances_dir;
      } in
      let r = (E.new_client w.vars w.etcd).0 in
      let c₁ = (run E c).1 in
      let c₂ = (filling options c₁).1 in
      let registered = run-registers E L c refl in
      let filled = filling-keeps options c₁ in
      let ran = run-keeps E L j c in
      let at_once = closed-keeps E L j r c₁ registered in
      let funcs = ap (λ (x : Receiver S GetterFields). x.cleanup_funcs) filled.1 ∙ registered in
      let at_end = closed-keeps E L j r c₂ funcs in
      elim (Result-cases (run E c).0) [
        | inl (a, e) ↦ ground (arith, ran, at_end, filled)
        | inr (inl (x, e)) ↦ ground (arith, ran, at_once)
        | inr (inr (x, e)) ↦ ground (arith, ran)
      ]
