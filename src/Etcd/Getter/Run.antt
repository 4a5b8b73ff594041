-- ===== src/Etcd/Getter/Run.antt =====
-- What `Run` of the etcd getter returns.
use hambone.Base.{
  String, ◌<>◌, ◌≡◌, ◌≢◌, ◌∙◌, sym, ap, ◌⊎◌, inl, inr, none, some, List, [], ◌∷◌, ◌++◌, map,
  starts_with, arith, String-discrete, ◌&&◌, if◌then◌else◌, length,
}
use hambone.Base.Int.{ℤ, pos, negsuc, int32, leb_ℤ}
use hambone.Go.{Result, ok, Result-cases}
use hambone.Pb.{Instance, InstanceList, GetOptions}
use hambone.Helpers.{convert_start_stop_to_slice_indexes}
use hambone.State.Page.{page, slice}
use hambone.State.Page.Window.{take_all}
use hambone.State.Method.{Call}
use hambone.State.Receiver.{World, Receiver}
use hambone.Etcd.Client.{Etcd, KeyValue}
use hambone.Etcd.Adapter.{instance_key_prefix, get_instance_key, get_file_key}
use hambone.Etcd.Keys.{strip-get_instance_key, file_key-eq-instance_key, instance_key-starts_with}
use hambone.Etcd.Lawful.{IsLawful, entry, find}
use hambone.Etcd.Getter.{GetterFields, instance_of, run, fetch, filter_list}

-- An element of a list.
abbrev pub Contains : {A : Type 0} → A → List A → Type 0
Contains a [] = ⊥
Contains a (x ∷ xs) = (x ≡ a) ⊎ Contains a xs

-- An Instance with a name, a yaml and nothing else.
abbrev pub instance_named : String → String → Instance
instance_named name yaml = record {
  name = name;
  kustomization_yaml = yaml;
  statuses = [];
  statuses_error_message = "";
  old_instance = none;
  files = [];
}

Contains-map :
    {A B : Type 0} (f : A → B) (a : A) (xs : List A) → Contains a xs → Contains (f a) (map f xs)
Contains-map f a [] h = h
Contains-map f a (x ∷ xs) (inl e) = inl (ap f e)
Contains-map f a (x ∷ xs) (inr h) = inr (Contains-map f a xs h)

find-Contains :
    (k v : String) (kvs : List KeyValue)
    → find k kvs ≡ some v
    → Contains (record { key = k; value = v }) kvs
find-Contains k v [] h = cc
find-Contains k v (kv ∷ kvs) h = elim (String-discrete k kv.key) [
  | yes same ↦ inl (ground (arith, same))
  | no differ ↦ inr (find-Contains k v kvs (ground (arith, differ)))
]

-- With 0 for both bounds a page that is returned is the whole list.
slice_everything :
    {A : Type 0} (xs ys : List A) (start stop l : ℤ)
    → start ≡ pos 0
    → stop ≡ pos 0
    → (let (lo, hi) = convert_start_stop_to_slice_indexes start stop l in
        if leb_ℤ hi (pos 0) && leb_ℤ (pos 0) hi
        then slice xs lo (pos (length xs))
        else slice xs lo hi)
      ≡ ok ys
    → ys ≡ xs
unfolding slice convert_start_stop_to_slice_indexes
slice_everything xs ys start stop (pos n) s t h = ground (arith, take_all (length xs) xs)
slice_everything xs ys start stop (negsuc n) s t h = ground arith

page_everything :
    {A : Type 0} (options : GetOptions) (xs ys : List A)
    → options.start ≡ pos 0
    → options.stop ≡ pos 0
    → page options xs ≡ ok ys
    → ys ≡ xs
unfolding page
page_everything options xs ys s t h =
    slice_everything xs ys options.start options.stop (int32 (length xs)) s t h

abbrev pub State : Type 0 → Type 0 → Type 0
State S O = Call (World S O (List String)) InstanceList (Receiver S GetterFields)

filter_list-named :
    (options : GetOptions) (list : InstanceList)
    → options.name ≢ ""
    → filter_list options list ≡ ok list
filter_list-named options list h = ground arith

filter_list-unnamed :
    (options : GetOptions) (list : InstanceList)
    → options.name ≡ ""
    → filter_list options list ≡ page options list
filter_list-unnamed options list h = ground arith

ok-injective : {A : Type 0} (a b : A) → ok a ≡ ok b → a ≡ b
ok-injective a b h = cc

module _ {S : Type 0} (E : Etcd S) where
  fetch-named :
      (client : E.Client) (options : GetOptions) (s : S)
      → options.name ≢ ""
      → fetch E client options s ≡ E.get client (get_instance_key options.name) s
  fetch-named client options s h = ground arith

  fetch-unnamed :
      (client : E.Client) (options : GetOptions) (s : S)
      → options.name ≡ ""
      → fetch E client options s ≡ E.get_prefix client instance_key_prefix s
  fetch-unnamed client options s h = ground arith

module _ {S O : Type 0} (E : Etcd S) (L : IsLawful E) where
  -- The answer of the cluster, and what becomes of it.
  abbrev Fetched : State S O → Type 0
  Fetched c =
      let options = c.self.fields.options in
      let (r, s) = E.new_client c.world.vars c.world.etcd in
      (client : E.Client) × (kvs : List KeyValue) × ((fetch E client options s).0 ≡ ok kvs)
      × (filter_list options (c.shared ++ map instance_of kvs) ≡ ok (run E c).1.shared)

  run-Fetched : (c : State S O) → (run E c).0 ≡ ok tt → Fetched c
  unfolding run
  run-Fetched c h = elim (Result-cases (E.new_client c.world.vars c.world.etcd).0) [
    | inr failed ↦ absurd (elim failed [ inl x ↦ ground arith | inr x ↦ ground arith ])
    | inl (client, e) ↦
        elim (Result-cases
          (fetch E client c.self.fields.options (E.new_client c.world.vars c.world.etcd).1).0) [
            | inr failed ↦ absurd (elim failed [ inl x ↦ ground arith | inr x ↦ ground arith ])
            | inl (kvs, f) ↦ (client, kvs, f, ground arith)
          ]
  ]

  -- On a lawful cluster a getter for a name that is not empty that returns nil has put behind what
  -- its list held the Instance that is stored under the key of the name, or nothing if none is.
  pub run-named :
      (c : State S O)
      → c.self.fields.options.name ≢ ""
      → (run E c).0 ≡ ok tt
      → let key = get_instance_key c.self.fields.options.name in
        (run E c).1.shared ≡ c.shared ++ map instance_of (entry key (L.value c.world.etcd key))
  unfolding run
  run-named c named h =
      let (client, kvs, e, f) = run-Fetched c h in
      let key = get_instance_key c.self.fields.options.name in
      let after = (E.new_client c.world.vars c.world.etcd).1 in
      let got =
        ap (λ (p : Result (List KeyValue) × S). p.0)
          (sym (fetch-named E client c.self.fields.options after named))
        ∙ e in
      ok-injective _ _ (sym f ∙ filter_list-named c.self.fields.options _ named)
      ∙ ap (λ l. c.shared ++ map instance_of l)
          (L.get_ok client key after got
            ∙ ap (entry key) (L.new_client_value c.world.vars key c.world.etcd))

  -- On a lawful cluster a getter without a name and with 0 for both bounds that returns nil has put
  -- one Instance for each key-value of a list behind what it held, and that list holds of each key
  -- what is stored under it, if the key has the prefix of the keys of Instances, and nothing of
  -- other keys.
  pub run-everything :
      (c : State S O)
      → c.self.fields.options.name ≡ ""
      → c.self.fields.options.start ≡ pos 0
      → c.self.fields.options.stop ≡ pos 0
      → (run E c).0 ≡ ok tt
      → (kvs : List KeyValue) × ((j : String)
          → find j kvs
            ≡ (if starts_with j instance_key_prefix then L.value c.world.etcd j else none))
        × ((run E c).1.shared ≡ c.shared ++ map instance_of kvs)
  run-everything c unnamed s t h =
      let (client, kvs, e, f) = run-Fetched c h in
      let after = (E.new_client c.world.vars c.world.etcd).1 in
      let got =
        ap (λ (p : Result (List KeyValue) × S). p.0)
          (sym (fetch-unnamed E client c.self.fields.options after unnamed))
        ∙ e in
      (
        kvs,
        λ j.
            L.get_prefix_ok client instance_key_prefix j after got
            ∙ ap (λ v. if starts_with j instance_key_prefix then v else none)
                (L.new_client_value c.world.vars j c.world.etcd),
        page_everything c.self.fields.options _ _ s t
            (sym (filter_list-unnamed c.self.fields.options _ unnamed) ∙ f),
      )

  -- On a lawful cluster, a getter with an empty list, without a name and with 0 for both bounds
  -- that returns nil lists every file that is stored for an Instance as an Instance itself, named
  -- after the Instance and the path of the file, and with the contents of the file as its yaml.
  run-lists_files :
      (c : State S O) (name file contents : String)
      → c.self.fields.options.name ≡ ""
      → c.self.fields.options.start ≡ pos 0
      → c.self.fields.options.stop ≡ pos 0
      → c.shared ≡ []
      → L.value c.world.etcd (get_file_key (get_instance_key name) file) ≡ some contents
      → (run E c).0 ≡ ok tt
      → Contains (instance_named (name <> ("/" <> file)) contents) (run E c).1.shared
  run-lists_files c name file contents unnamed s t empty held h =
      let (kvs, found, listed) = run-everything c unnamed s t h in
      let key = get_instance_key (name <> ("/" <> file)) in
      let here : find key kvs ≡ some contents =
        found key
        ∙ (ap (λ b. if b then L.value c.world.etcd key else none)
              (instance_key-starts_with (name <> ("/" <> file)))
            ∙ (ap (L.value c.world.etcd) (sym (file_key-eq-instance_key name file)) ∙ held)) in
      rw (listed, empty)
        (rw (strip-get_instance_key (name <> ("/" <> file))) at
          (Contains-map instance_of _ kvs (find-Contains key contents kvs here)))
