-- ===== src/Etcd/Atomic/Origin.antt =====
-- Where what is stored over the etcd adapter comes from.
use hambone.Base.{
  String, Bool, true, false, Option, some, ◌≡◌, sym, ◌∙◌, ◌⊎◌, inl, inr, List, [], ◌∷◌, arith,
  starts_with, ◌==◌, Bool-cases,
}
use hambone.Go.{Result}
use hambone.Pb.{Instance, File}
use hambone.Sys.{Os}
use hambone.State.Receiver.{World}
use hambone.Instances.Statuses.{ItemStatuses}
use hambone.Etcd.Client.{Etcd}
use hambone.Etcd.Lawful.{IsLawful, IsStorageKey}
use hambone.Etcd.Engine.{Settings}
use hambone.Etcd.Adapter.{get_instance_key, get_file_key}
use hambone.Etcd.Updater.Commit.{with_files, with_instance}
use hambone.Etcd.Atomic.{Writes, Stored, Same, SomePut, Partly, put_at}
use hambone.Etcd.Atomic.Deleted.{without}
use hambone.Etcd.Atomic.Trace.{
  Request, applies, deletes, gets, gets_templates, Effect, handle, handle-Effect,
}

-- Some file of the list has the key and the contents.
abbrev AmongFiles : String → List File → String → String → Type 0
AmongFiles key [] j text = ⊥
AmongFiles key (file ∷ files) j text =
    ((j ≡ get_file_key key file.name) × (file.contents ≡ text)) ⊎ AmongFiles key files j text

-- The Instance puts the text under the key: its yaml under its own key, or a file.
abbrev pub Puts : Instance → String → String → Type 0
Puts instance j text =
    let key = get_instance_key instance.name in
    ((j ≡ key) × (instance.kustomization_yaml ≡ text)) ⊎ AmongFiles key instance.files j text

with_files-from :
    (key : String) (files : List File) (j text : String) (old : Option String)
    → with_files key files j old ≡ some text
    → AmongFiles key files j text ⊎ (old ≡ some text)
with_files-from key [] j text old h = inr h
with_files-from key (file ∷ files) j text old h = elim (with_files-from key files j text _ h) [
  | inl later ↦ inl (inr later)
  | inr here ↦ elim (Bool-cases (j == get_file_key key file.name)) [
    | inl e ↦ inl (inl (ground arith, ground (arith, here, e)))
    | inr e ↦ inr (ground (arith, here, e))
  ]
]

with_instance-from :
    (instance : Instance) (j text : String) (old : Option String)
    → with_instance instance j old ≡ some text
    → Puts instance j text ⊎ (old ≡ some text)
with_instance-from instance j text old h =
    let key = get_instance_key instance.name in
    elim (with_files-from key instance.files j text _ h) [
      | inl among ↦ inl (inr among)
      | inr here ↦ elim (Bool-cases (j == key)) [
        | inl e ↦ inl (inl (ground arith, ground (arith, here, e)))
        | inr e ↦ inr (ground (arith, here, e))
      ]
    ]

-- One of the requests is an `Apply` that puts the text under the key.
abbrev pub IsPutBy : List Request → String → String → Type 0
IsPutBy [] j text = ⊥
IsPutBy (applies instance ∷ rs) j text = Puts instance j text ⊎ IsPutBy rs j text
IsPutBy (deletes instance ∷ rs) j text = IsPutBy rs j text
IsPutBy (gets options ∷ rs) j text = IsPutBy rs j text
IsPutBy (gets_templates ∷ rs) j text = IsPutBy rs j text

weaken :
    (r : Request) (rs : List Request) (j text : String)
    → IsPutBy rs j text
    → IsPutBy (r ∷ rs) j text
weaken (applies instance) rs j text h = inr h
weaken (deletes instance) rs j text h = h
weaken (gets options) rs j text h = h
weaken gets_templates rs j text h = h

earlier :
    {A : Type 0} (r : Request) (rs : List Request) (j text : String)
    → IsPutBy rs j text ⊎ A
    → IsPutBy (r ∷ rs) j text ⊎ A
earlier r rs j text (inl put) = inl (weaken r rs j text put)
earlier r rs j text (inr was) = inr was

put_at-from :
    (k v j text : String) (f : Stored)
    → put_at k v f j ≡ some text
    → ((j ≡ k) × (v ≡ text)) ⊎ (f j ≡ some text)
put_at-from k v j text f h = elim (Bool-cases (j == k)) [
  | inl e ↦ inl (ground arith, ground (arith, h, e))
  | inr e ↦ inr (ground (arith, h, e))
]

SomePut-from :
    (key : String) (files : List File) (f g : Stored) (j text : String)
    → IsStorageKey j
    → SomePut key files f g
    → g j ≡ some text
    → AmongFiles key files j text ⊎ (f j ≡ some text)
SomePut-from key [] f g j text storage same h = inr (sym (same j storage) ∙ h)
SomePut-from key (file ∷ files) f g j text storage (inl same) h = inr (sym (same j storage) ∙ h)
SomePut-from key (file ∷ files) f g j text storage (inr put) h =
    elim (SomePut-from key files _ g j text storage put h) [
      | inl later ↦ inl (inr later)
      | inr here ↦ elim (put_at-from (get_file_key key file.name) file.contents j text f here) [
        | inl this ↦ inl (inl this)
        | inr was ↦ inr was
      ]
    ]

Partly-from :
    (instance : Instance) (f g : Stored) (j text : String)
    → IsStorageKey j
    → Partly instance f g
    → g j ≡ some text
    → Puts instance j text ⊎ (f j ≡ some text)
Partly-from instance f g j text storage (inl same) h = inr (sym (same j storage) ∙ h)
Partly-from instance f g j text storage (inr put) h =
    let key = get_instance_key instance.name in
    elim (SomePut-from key instance.files _ g j text storage put h) [
      | inl among ↦ inl (inr among)
      | inr here ↦ elim (put_at-from key instance.kustomization_yaml j text f here) [
        | inl this ↦ inl (inl this)
        | inr was ↦ inr was
      ]
    ]

without-from : (name j text : String) (f : Stored) → without name f j ≡ some text → f j ≡ some text
without-from name j text f h = elim (Bool-cases (starts_with j (get_instance_key name))) [
  | inl e ↦ absurd (ground (arith, h, e))
  | inr e ↦ ground (arith, h, e)
]

-- What is stored behind a request comes from it, or was there.
Effect-from :
    (r : Request) (b : Bool) (rs : List Request) (f g : Stored) (j text : String)
    → IsStorageKey j
    → Effect r b f g
    → g j ≡ some text
    → IsPutBy (r ∷ rs) j text ⊎ (f j ≡ some text)
Effect-from (applies instance) true rs f g j text storage same h =
    elim (with_instance-from instance j text (f j) (sym (same j storage) ∙ h)) [
      | inl puts ↦ inl (inl puts)
      | inr was ↦ inr was
    ]
Effect-from (applies instance) false rs f g j text storage part h =
    elim (Partly-from instance f g j text storage part h) [
      | inl puts ↦ inl (inl puts)
      | inr was ↦ inr was
    ]
Effect-from (deletes instance) true rs f g j text storage same h =
    inr (without-from instance.name j text f (sym (same j storage) ∙ h))
Effect-from (deletes instance) false rs f g j text storage (inl same) h =
    inr (sym (same j storage) ∙ h)
Effect-from (deletes instance) false rs f g j text storage (inr same) h =
    inr (without-from instance.name j text f (sym (same j storage) ∙ h))
Effect-from (gets options) b rs f g j text storage same h = inr (sym (same j storage) ∙ h)
Effect-from gets_templates b rs f g j text storage same h = inr (sym (same j storage) ∙ h)

-- How a server is configured, and how it reads what kubectl answers.
pub record Site : Type 0 where
  pub settings : Settings
  pub unmarshal : String → Result ItemStatuses
  pub instances_dir : String
  pub templates_dir : String
  pub enable_kustomize_build : Bool
  pub enable_kubectl : Bool

module _ {S O : Type 0} (E : Etcd S) (L : IsLawful E) (V : Writes E L) (os : Os O) where
  abbrev pub handle_at : Site → Request → World S O (List String) → Bool × World S O (List String)
  handle_at site =
      handle E L V os site.settings site.unmarshal site.instances_dir site.templates_dir
        site.enable_kustomize_build site.enable_kubectl

  -- The worlds that servers which share a cluster can leave, with their requests, the last one
  -- first. Between two requests all may change but what is stored.
  pub data Reached (w : World S O (List String))
      : List Request → World S O (List String) → Type 0 where
    started : Reached w [] w
    handled :
        {rs : List Request} {v : World S O (List String)} (site : Site) (r : Request)
        → Reached w rs v
        → Reached w (r ∷ rs) (handle_at site r v).1
    elsewhere :
        {rs : List Request} {v v' : World S O (List String)}
        → Same (L.value v'.etcd) (L.value v.etcd)
        → Reached w rs v
        → Reached w rs v'

  -- Over a lawful etcd cluster, where a call that writes has, once it has returned, taken effect or
  -- not: what a key without the mark of a lock holds in a world that servers which share the cluster can leave, after any requests, one behind the
  -- other, each of which may end by nil, an error or a panic, and whatever else changes between them
  -- but what is stored, was there at the start, or is what one of the `Apply` requests puts there:
  -- its yaml, and the key is that of its name, or the contents of one of its files, and the key is
  -- that of the file.
  pub Reached-origin :
      {w v : World S O (List String)} {rs : List Request}
      → Reached w rs v
      → (j text : String) → IsStorageKey j
      → L.value v.etcd j ≡ some text
      → IsPutBy rs j text ⊎ (L.value w.etcd j ≡ some text)
  Reached-origin started j text storage held = inr held
  Reached-origin (elsewhere same reached) j text storage held =
      Reached-origin reached j text storage (sym (same j storage) ∙ held)
  Reached-origin (handled {rs} {v} site r reached) j text storage held =
      let effect =
        handle-Effect E L V os site.settings site.unmarshal site.instances_dir site.templates_dir
          site.enable_kustomize_build site.enable_kubectl r v in
      let (b, v') = handle_at site r v in
      elim (Effect-from r b rs (L.value v.etcd) (L.value v'.etcd) j text storage effect held) [
        | inl put ↦ inl put
        | inr was ↦ earlier r rs j text (Reached-origin reached j text storage was)
      ]
