-- ===== src/Etcd/Atomic/Answered.antt =====
-- Where what a `Get` over the etcd adapter answers comes from.
use hambone.Base.{
  String, false, not, ◌&&◌, ◌≡◌, ◌≢◌, ap, ◌∙◌, ◌⊎◌, inl, inr, some, List, [], ◌∷◌, map,
  Option-cases,
}
use hambone.Go.{Result, ok, Unit₀}
use hambone.Pb.{GetOptions, InstanceList}
use hambone.Sys.{Os}
use hambone.State.Receiver.{World, machine}
use hambone.Instances.Requests.{get}
use hambone.Etcd.Client.{Etcd}
use hambone.Etcd.Adapter.{get_instance_key}
use hambone.Etcd.Keys.{strip-get_instance_key}
use hambone.Etcd.Lawful.{IsLawful, IsStorageKey, entry}
use hambone.Etcd.Getter.{instance_of}
use hambone.Etcd.Getter.Run.{instance_named}
use hambone.Etcd.Server.{etcd_server}
use hambone.Etcd.ReadBack.{get-named}
use hambone.Etcd.Atomic.{Writes}
use hambone.Etcd.Atomic.Trace.{Request}
use hambone.Etcd.Atomic.Origin.{Site, Reached, IsPutBy, Reached-origin}

module _ {S O : Type 0} (E : Etcd S) (L : IsLawful E) (V : Writes E L) (os : Os O) (site : Site)
    (options : GetOptions) where
  abbrev pub answer :
      World S O (List String) → Result Unit₀ × InstanceList × World S O (List String)
  answer w =
      get (machine os) site.unmarshal
        (etcd_server E os site.settings site.instances_dir site.templates_dir
          site.enable_kustomize_build site.enable_kubectl)
        options w

  -- Over a lawful etcd cluster, where a call that writes has, once it has returned, taken effect or
  -- not: a `Get` for a name that is not empty and whose key has no mark of a lock, to a server of the cluster, that returns nil, where no statuses
  -- are asked for or kubectl is not enabled, in a world that servers which share the cluster can
  -- leave, after any requests, one behind the other, answers nothing, or one Instance with that name
  -- and without files, whose yaml was stored under its key at the start, or is what one of the
  -- `Apply` requests puts there.
  pub get-Reached :
      {w v : World S O (List String)} {rs : List Request}
      → Reached E L V os w rs v
      → options.name ≢ ""
      → IsStorageKey (get_instance_key options.name)
      → (site.enable_kubectl && not options.exclude_statuses) ≡ false
      → (answer v).0 ≡ ok tt
      → let key = get_instance_key options.name in
        ((answer v).1 ≡ [])
        ⊎ ((yaml : String) × ((answer v).1 ≡ instance_named options.name yaml ∷ [])
            × (IsPutBy rs key yaml ⊎ (L.value w.etcd key ≡ some yaml)))
  get-Reached {v = v} reached named storage bare got =
      let key = get_instance_key options.name in
      let answered =
        get-named E L os site.settings site.unmarshal site.instances_dir site.templates_dir
          site.enable_kustomize_build site.enable_kubectl options v named bare got in
      elim (Option-cases (L.value v.etcd key)) [
        | inl missing ↦ inl (answered ∙ ap (λ t. map instance_of (entry key t)) missing)
        | inr (yaml, held) ↦ inr (
          yaml,
          answered
              ∙ (ap (λ t. map instance_of (entry key t)) held
                  ∙ ap (λ n. instance_named n yaml ∷ []) (strip-get_instance_key options.name)),
          Reached-origin E L V os reached key yaml storage held,
        )
      ]
