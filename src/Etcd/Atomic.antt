-- ===== src/Etcd/Atomic.antt =====
-- Requests over the etcd adapter, however they end: how much of its work on what is stored each has
-- done.
pub mod Applied
pub mod Deleted
pub mod Trace
pub mod Origin
pub mod Answered
use hambone.Base.{
  String, Option, none, some, List, [], ◌∷◌, ◌≡◌, ◌∙◌, ap, ◌⊎◌, inl, inr, ◌==◌, if◌then◌else◌,
  starts_with,
}
use hambone.Pb.{Instance, File}
use hambone.Etcd.Adapter.{get_instance_key, get_file_key}
use hambone.Etcd.Client.{Etcd}
use hambone.Etcd.Lawful.{IsLawful, IsStorageKey}

-- What the keys hold, but for those with the mark of a lock.
abbrev pub Stored : Type 0
Stored = String → Option String

abbrev pub Same : Stored → Stored → Type 0
Same f g = (j : String) → IsStorageKey j → f j ≡ g j

abbrev pub put_at : String → String → Stored → Stored
put_at k v f j = if j == k then some v else f j

abbrev pub without_prefix : String → Stored → Stored
without_prefix p f j = if starts_with j p then none else f j

-- A call that writes has, once it has returned, taken effect or not, whatever it returned: an error
-- may mean either.
pub record Writes {S : Type 0} (E : Etcd S) (L : IsLawful E) : Type 0 where
  pub put_ends :
      (c : E.Client) (k v : String) (s : S)
      → Same (L.value (E.put c k v s).1) (L.value s)
        ⊎ Same (L.value (E.put c k v s).1) (put_at k v (L.value s))
  pub delete_ends :
      (c : E.Client) (p : String) (s : S)
      → Same (L.value (E.delete_prefix c p s).1) (L.value s)
        ⊎ Same (L.value (E.delete_prefix c p s).1) (without_prefix p (L.value s))

-- Nothing is changed, or the whole change is made.
abbrev pub AllOrNothing : (Stored → Stored) → Stored → Stored → Type 0
AllOrNothing change f g = Same g f ⊎ Same g (change f)

pub after-AllOrNothing :
    (change : Stored → Stored) (f g h : Stored)
    → Same h g
    → AllOrNothing change f g
    → AllOrNothing change f h
after-AllOrNothing change f g h same (inl nothing) =
    inl λ j storage. same j storage ∙ nothing j storage
after-AllOrNothing change f g h same (inr everything) =
    inr λ j storage. same j storage ∙ everything j storage

-- Some of the files have been put, each under its key, from the first one on.
abbrev pub SomePut : String → List File → Stored → Stored → Type 0
SomePut key [] f g = Same g f
SomePut key (file ∷ files) f g =
    Same g f ⊎ SomePut key files (put_at (get_file_key key file.name) file.contents f) g

-- What an Instance carries has been put up to some point: nothing, or the yaml and some of the
-- files from the first one on.
abbrev pub Partly : Instance → Stored → Stored → Type 0
Partly instance f g =
    let key = get_instance_key instance.name in
    Same g f ⊎ SomePut key instance.files (put_at key instance.kustomization_yaml f) g

pub Same-SomePut :
    (key : String) (files : List File) (f g : Stored) → Same g f → SomePut key files f g
Same-SomePut key [] f g same = same
Same-SomePut key (file ∷ files) f g same = inl same

-- What is the same on both sides makes no difference.
pub SomePut-after :
    (key : String) (files : List File) (f g h : Stored)
    → Same h g
    → SomePut key files f g
    → SomePut key files f h
SomePut-after key [] f g h same put = λ j storage. same j storage ∙ put j storage
SomePut-after key (file ∷ files) f g h same (inl none_put) =
    inl λ j storage. same j storage ∙ none_put j storage
SomePut-after key (file ∷ files) f g h same (inr put) = inr (SomePut-after key files _ g h same put)

put_at-Same : (k v : String) (f g : Stored) → Same f g → Same (put_at k v f) (put_at k v g)
put_at-Same k v f g same = λ j storage. ap (λ t. if j == k then some v else t) (same j storage)

pub SomePut-before :
    (key : String) (files : List File) (f f' g : Stored)
    → Same f' f
    → SomePut key files f' g
    → SomePut key files f g
SomePut-before key [] f f' g same put = λ j storage. put j storage ∙ same j storage
SomePut-before key (file ∷ files) f f' g same (inl none_put) =
    inl λ j storage. none_put j storage ∙ same j storage
SomePut-before key (file ∷ files) f f' g same (inr put) = inr (
    SomePut-before key files _ _ g
      (put_at-Same (get_file_key key file.name) file.contents f' f same) put)

pub Partly-after :
    (instance : Instance) (f g h : Stored) → Same h g → Partly instance f g → Partly instance f h
Partly-after instance f g h same (inl nothing) = inl λ j storage. same j storage ∙ nothing j storage
Partly-after instance f g h same (inr put) =
    inr (SomePut-after (get_instance_key instance.name) instance.files _ g h same put)

pub Partly-before :
    (instance : Instance) (f f' g : Stored) → Same f' f → Partly instance f' g → Partly instance f g
Partly-before instance f f' g same (inl nothing) =
    inl λ j storage. nothing j storage ∙ same j storage
Partly-before instance f f' g same (inr put) =
    let key = get_instance_key instance.name in
    inr (
      SomePut-before key instance.files _ _ g
        (put_at-Same key instance.kustomization_yaml f' f same) put)
