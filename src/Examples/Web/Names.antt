-- ===== src/Examples/Web/Names.antt =====
-- The names that `validationHandler` lets through, and the paths in which it finds them.
use hambone.Base.{
  String, ◌<>◌, true, false, ◌≡◌, refl, sym, ap, ◌∙◌, ◌⊎◌, inl, inr, some, List, [], ◌∷◌, arith,
  Option-cases, Bool-cases,
}
use hambone.Base.Prefix.{
  glue, glue-eq, strip_prefix, strip_prefix-some, has_code, has_code-glue, contains-has_code,
}
use hambone.Etcd.Adapter.{get_instance_key, instance_key_prefix}
use hambone.Etcd.Lawful.{IsStorageKey}
use hambone.Examples.Web.Routes.{all_name_chars, is_name, verbs, match_verb, match_name}

all_name_chars-slash : (s : String) → all_name_chars s ≡ true → has_code b'/' s ≡ false
unfolding all_name_chars has_code
all_name_chars-slash String.[] h = refl
all_name_chars-slash (String.◌∷◌ c s) h = ground (arith, all_name_chars-slash s)

pub is_name-no_slash : (name : String) → is_name name ≡ true → has_code b'/' name ≡ false
unfolding is_name
is_name-no_slash name h = ground (arith, all_name_chars-slash name)

slash_in_mark : has_code b'/' "-lock/" ≡ true
unfolding has_code
slash_in_mark = refl

no_slash_in_prefix : has_code b'/' instance_key_prefix ≡ false
unfolding has_code
no_slash_in_prefix = refl

-- A name that is let through has no slash, so that the key made of it has no mark of a lock.
pub is_name-IsStorageKey :
    (name : String) → is_name name ≡ true → IsStorageKey (get_instance_key name)
unfolding get_instance_key
is_name-IsStorageKey name h =
    contains-has_code b'/' (instance_key_prefix <> name) "-lock/" slash_in_mark (
      ground (
        arith,
        glue-eq instance_key_prefix name,
        has_code-glue b'/' instance_key_prefix name,
        no_slash_in_prefix,
        is_name-no_slash name h,
      ))

-- The path of a verb and a name.
abbrev pub path_of : String → String → String
path_of verb name = glue "/instance/" (glue (glue verb "/") name)

abbrev pub IsOneOf : String → List String → Type 0
IsOneOf v [] = ⊥
IsOneOf v (w ∷ ws) = (v ≡ w) ⊎ IsOneOf v ws

match_verb-some :
    (vs : List String) (s name : String)
    → match_verb vs s ≡ some name
    → (verb : String) × IsOneOf verb vs × (is_name name ≡ true) × (s ≡ glue (glue verb "/") name)
unfolding match_verb
match_verb-some [] s name h = cc
match_verb-some (v ∷ vs) s name h =
    let rest = match_verb-some vs s name in
    elim (Option-cases (strip_prefix (glue v "/") s)) [
      | inl e ↦ let (verb, m, n, f) = rest (ground arith) in (verb, inr m, n, f)
      | inr (r, e) ↦ elim (Bool-cases (is_name r)) [
        | inl n ↦
            let same : r ≡ name = ground arith in
            (
              v,
              inl refl,
              ap is_name (sym same) ∙ n,
              strip_prefix-some (glue v "/") s r e ∙ ap (glue (glue v "/")) same,
            )
        | inr n ↦ let (verb, m, n, f) = rest (ground arith) in (verb, inr m, n, f)
      ]
    ]

-- `validationHandler` passes on a name only if the path is that of one of the four verbs and this
-- name, and the name is not empty and has only letters, digits and dashes.
match_name_sound :
    (path name : String)
    → match_name path ≡ some name
    → (is_name name ≡ true) × ((verb : String) × IsOneOf verb verbs × (path ≡ path_of verb name))
unfolding match_name
match_name_sound path name h = elim (Option-cases (strip_prefix "/instance/" path)) [
  | inl e ↦ cc
  | inr (r, e) ↦
      let (verb, m, n, f) = match_verb-some verbs r name (ground arith) in
      (n, (verb, m, strip_prefix-some "/instance/" path r e ∙ ap (glue "/instance/") f))
]

-- And it does so for each such path.
pub match_name_complete :
    (name : String)
    → is_name name ≡ true
    → (match_name (path_of "new" name) ≡ some name)
      × (match_name (path_of "edit" name) ≡ some name)
      × (match_name (path_of "save" name) ≡ some name)
      × (match_name (path_of "view" name) ≡ some name)
unfolding match_name match_verb strip_prefix
match_name_complete name h = (ground arith, ground arith, ground arith, ground arith)
