-- ===== src/Etcd/Atomic/Trace.antt =====
-- Any sequence of requests over the etcd adapter, whatever becomes of each.
use hambone.Base.{String, Bool, true, false, ◌≡◌, refl, List, [], ◌∷◌}
use hambone.Go.{Result, ok, err, panicked, Unit₀}
use hambone.Pb.{Instance, GetOptions}
use hambone.Sys.{Os}
use hambone.State.Receiver.{World, machine, run_and_forget}
use hambone.Instances.Statuses.{ItemStatuses}
use hambone.Instances.Requests.{
  Server, apply, delete, handle_apply, handle_delete, handle_get, handle_get_templates,
  get_templates,
}
use hambone.Etcd.Client.{Etcd}
use hambone.Etcd.Lawful.{IsLawful}
use hambone.Etcd.Engine.{Settings}
use hambone.Etcd.Server.{etcd_server}
use hambone.State.Cleanup.{run_cleanup_funcs, reverse_slice, reverse_rounds, run_each}
use hambone.Etcd.Delete.{delete-removed}
use hambone.Etcd.Getter as Getter
use hambone.Etcd.Getter.Keeps.{get-keeps}
use hambone.Etcd.Atomic.{Writes, Stored, Same, AllOrNothing, Partly}
use hambone.Etcd.Atomic.Applied.{with_all, apply-Partly}
use hambone.Etcd.Atomic.Deleted.{without, delete-atomic}

-- The requests that a server is sent.
pub data Request : Type 0 where
  applies deletes : Instance → Request
  gets : GetOptions → Request
  gets_templates : Request

-- What a request may make of what is stored, when it has returned nil (`true`) and when it has not.
abbrev pub Effect : Request → Bool → Stored → Stored → Type 0
Effect (applies instance) true f g = Same g (with_all instance f)
Effect (applies instance) false f g = Partly instance f g
Effect (deletes instance) true f g = Same g (without instance.name f)
Effect (deletes instance) false f g = AllOrNothing (without instance.name) f g
Effect (gets options) b f g = Same g f
Effect gets_templates b f g = Same g f

-- The requests, in their order, with what they return, lead from one map to the other.
abbrev pub IsRun : List Request → List Bool → Stored → Stored → Type 0
IsRun [] [] f g = Same g f
IsRun [] (b ∷ bs) f g = ⊥
IsRun (r ∷ rs) [] f g = ⊥
IsRun (r ∷ rs) (b ∷ bs) f g = (h : Stored) × Effect r b f h × IsRun rs bs h g

abbrev pub returns_nil : Result Unit₀ → Bool
returns_nil (ok _) = true
returns_nil (err e) = false
returns_nil (panicked p) = false

-- An effect is one for an answer that is nil, or one for another answer.
by_answer :
    (x : Result Unit₀) (P : Bool → Type 0) → (x ≡ ok tt → P true) → P false → P (returns_nil x)
by_answer (ok tt) P whole part = whole refl
by_answer (err e) P whole part = part
by_answer (panicked p) P whole part = part

module _ {S O : Type 0} (E : Etcd S) (L : IsLawful E) (V : Writes E L) (os : Os O)
    (settings : Settings) (unmarshal : String → Result ItemStatuses)
    (instances_dir templates_dir : String) (enable_kustomize_build enable_kubectl : Bool) where
  abbrev server : Server (World S O (List String))
  server =
      etcd_server E os settings instances_dir templates_dir enable_kustomize_build enable_kubectl

  -- What the handler of a request returns, and the world after it.
  abbrev pub handle : Request → World S O (List String) → Bool × World S O (List String)
  handle (applies instance) w =
      let (r, _, w') = handle_apply (machine os) unmarshal server instance w in (returns_nil r, w')
  handle (deletes instance) w =
      let (r, _, w') = handle_delete (machine os) unmarshal server instance w in (returns_nil r, w')
  handle (gets options) w =
      let (r, _, w') = handle_get (machine os) unmarshal server options w in (returns_nil r, w')
  handle gets_templates w =
      let (r, _, w') = handle_get_templates (machine os) unmarshal server w in (returns_nil r, w')

  abbrev pub handle_all :
      List Request → World S O (List String) → List Bool × World S O (List String)
  handle_all [] w = ([], w)
  handle_all (r ∷ rs) w =
      let (b, w') = handle r w in let (bs, last) = handle_all rs w' in (b ∷ bs, last)

  templates-keep :
      (w : World S O (List String)) (j : String)
      → L.value (get_templates (machine os) unmarshal server w).2.etcd j ≡ L.value w.etcd j
  unfolding get_templates Getter.run_templates Getter.run_templates_cleanup_funcs run_and_forget
      run_cleanup_funcs reverse_slice reverse_rounds run_each
  templates-keep w j = refl

  pub handle-Effect :
      (r : Request) (w : World S O (List String))
      → Effect r (handle r w).0 (L.value w.etcd) (L.value (handle r w).1.etcd)
  unfolding handle_apply handle_delete handle_get handle_get_templates
  handle-Effect (applies instance) w =
      let done = apply (machine os) unmarshal server false instance w in
      let (part, whole) =
        apply-Partly E L V os settings unmarshal instances_dir templates_dir enable_kustomize_build
          enable_kubectl instance w in
      by_answer done.0 (λ b. Effect (applies instance) b (L.value w.etcd) (L.value done.2.etcd))
        whole part
  handle-Effect (deletes instance) w =
      let done = delete (machine os) unmarshal server instance w in
      by_answer done.0 (λ b. Effect (deletes instance) b (L.value w.etcd) (L.value done.2.etcd))
        (λ h j storage.
          delete-removed E L os settings unmarshal instances_dir templates_dir
            enable_kustomize_build enable_kubectl instance w j storage h)
        (delete-atomic E L V os settings unmarshal instances_dir templates_dir
          enable_kustomize_build enable_kubectl instance w)
  handle-Effect (gets options) w = λ j storage.
      get-keeps E L os settings unmarshal instances_dir templates_dir enable_kustomize_build
        enable_kubectl options w j
  handle-Effect gets_templates w = λ j storage. templates-keep w j

  -- Over a lawful etcd cluster, where a call that writes has, once it has returned, taken effect or
  -- not: any sequence of requests, each of which may end by nil, an error or a panic, leaves what is
  -- stored as a run of map operations does, one for each request, in their order. An `Apply` that
  -- returns nil stores the yaml and the files of its Instance, and one that does not stores nothing,
  -- or the yaml and, from the first one on, some or all of the files. A `Delete` that returns nil
  -- drops the keys that begin with the key of its Instance, and one that does not drops them or
  -- nothing. The other two do nothing.
  pub handle_all-refines :
      (rs : List Request) (w : World S O (List String))
      → let (bs, last) = handle_all rs w in IsRun rs bs (L.value w.etcd) (L.value last.etcd)
  handle_all-refines [] w = λ j storage. refl
  handle_all-refines (r ∷ rs) w =
      (L.value (handle r w).1.etcd, handle-Effect r w, handle_all-refines rs (handle r w).1)
