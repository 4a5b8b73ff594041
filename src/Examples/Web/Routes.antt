-- ===== src/Examples/Web/Routes.antt =====
-- Which handler a request reaches: `validationHandler`, and the patterns that `main` registers with
-- the mux of `net/http`. It answers a path that is not clean with a redirect, and gives a clean one
-- to the handler of the longest pattern that the path begins with.
use Prim.Native.Char.{code}
use Prim.Native.String.{len}
use hambone.Base.{
  String, ◌<>◌, ℕ, Bool, true, false, not, ◌&&◌, ◌||◌, Option, none, some, List, [], ◌∷◌, ◌==◌,
  if◌then◌else◌, ltb, leb, is_code, split,
}
use hambone.Base.Prefix.{strip_prefix, glue}
use hambone.Go.{Error}
use hambone.Go.FilePath.{clean}
use hambone.Examples.Api.{Api}
use hambone.Examples.Web.{
  Page, Handler, NamedHandler, not_found, moved, save_handler, save_new_handler, view_all_handler,
  view_handler, edit_handler, new_handler,
}

-- `[a-zA-Z0-9\-]`
abbrev pub is_name_char : ℕ → Bool
is_name_char c =
    (leb 97 c && leb c 122) || (leb 65 c && leb c 90) || (leb 48 c && leb c 57) || is_code c 45

unfoldable pub all_name_chars : String → Bool
all_name_chars String.[] = true
all_name_chars (String.◌∷◌ c s) = is_name_char (code c) && all_name_chars s

-- `[a-zA-Z0-9\-]+`
unfoldable pub is_name : String → Bool
unfolding all_name_chars
is_name s = not (s == "") && all_name_chars s

abbrev pub verbs : List String
verbs = "new" ∷ "edit" ∷ "save" ∷ "view" ∷ []

unfoldable pub match_verb : List String → String → Option String
unfolding is_name strip_prefix
match_verb [] s = none
match_verb (verb ∷ more) s =
    let rest = match_verb more s in
    elim (strip_prefix (glue verb "/") s) [
      | none ↦ rest
      | some name ↦ if is_name name then some name else rest
    ]

-- `FindStringSubmatch`, the second group of it
unfoldable pub match_name : String → Option String
unfolding match_verb strip_prefix
match_name path = elim (strip_prefix "/instance/" path) [
  | none ↦ none
  | some s ↦ match_verb verbs s
]

unfoldable pub validation_handler : {W : Type 0} → NamedHandler W → Handler W
unfolding match_name
validation_handler fn r w = elim (match_name r.path) [
  | none ↦ (not_found ∷ [], w)
  | some name ↦ fn r name w
]

abbrev pub ends_in_slash : List String → Bool
ends_in_slash [] = false
ends_in_slash (part ∷ []) = part == ""
ends_in_slash (part ∷ more ∷ parts) = ends_in_slash (more ∷ parts)

abbrev pub rooted_path : String → Option String → String
rooted_path p none = "/" <> p
rooted_path p (some rest) = p

-- `cleanPath` of `net/http`
unfoldable pub clean_path : String → String
unfolding clean strip_prefix
clean_path p =
    if p == ""
    then "/"
    else (let rooted = rooted_path p (strip_prefix "/" p) in
        let np = clean rooted in
        if ends_in_slash (split b'/' rooted) && not (np == "/") then np <> "/" else np)

-- The longest pattern that the path begins with. Every pattern here ends in a slash.
abbrev pub better : {A : Type 0} → String × A → Option (String × A) → Option (String × A)
better x none = some x
better x (some y) = if ltb (len x.0) (len y.0) then some y else some x

unfoldable pub longest : {A : Type 0} → List (String × A) → String → Option (String × A)
unfolding strip_prefix
longest [] path = none
longest (route ∷ routes) path =
    let best = longest routes path in
    elim (strip_prefix route.0 path) [ none ↦ best | some _ ↦ better route best ]

abbrev pub registered : {A : Type 0} → List (String × A) → String → Bool
registered [] path = false
registered (route ∷ routes) path = route.0 == path || registered routes path

module _ {W : Type 0} (api : Api W) (execute : String → Page → Option Error) where
  abbrev pub routes : List (String × Handler W)
  routes =
      ("/instance/", view_all_handler api execute)
      ∷ ("/instance/new/", validation_handler (new_handler api execute))
      ∷ ("/instance/view/", validation_handler (view_handler api execute))
      ∷ ("/instance/edit/", validation_handler (edit_handler api execute))
      ∷ ("/instance/save/", validation_handler (save_handler api))
      ∷ ("/instance/savenew/", save_new_handler api)
      ∷ []

  abbrev pub dispatch : Option (String × Handler W) → Handler W
  dispatch none r w = (not_found ∷ [], w)
  dispatch (some (pattern, handler)) r w = handler r w

  unfoldable pub serve : Handler W
  unfolding clean_path longest
  serve r w =
      let path = clean_path r.path in
      if registered routes (path <> "/")
      then (moved (path <> "/") ∷ [], w)
      else if path == r.path
      then dispatch (longest routes path) r w
      else (moved path ∷ [], w)
