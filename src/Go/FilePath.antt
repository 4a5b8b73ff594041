-- ===== src/Go/FilePath.antt =====
-- `path/filepath` on Unix: `Clean`, `Dir`, `Join` and `Rel`, over the parts between slashes.
pub mod Rooted
use hambone.Base.{
  String, ◌<>◌, Bool, true, false, Option, none, some, List, [], ◌∷◌, ◌++◌, map, reverse, ◌==◌,
  if◌then◌else◌, split, join, starts_with,
}

-- One part against the parts kept so far, the last of them first.
push_part : Bool → List String → String → List String
push_part rooted [] part =
    if part == ""
    then []
    else if part == "."
    then []
    else if part == ".."
    then (if rooted then [] else ".." ∷ [])
    else part ∷ []
push_part rooted (top ∷ kept) part =
    if part == ""
    then top ∷ kept
    else if part == "."
    then top ∷ kept
    else if part == ".."
    then (if top == ".." then ".." ∷ top ∷ kept else kept)
    else part ∷ top ∷ kept

push_parts : Bool → List String → List String → List String
push_parts rooted kept [] = kept
push_parts rooted kept (part ∷ parts) = push_parts rooted (push_part rooted kept part) parts

-- The parts of the cleaned path.
clean_parts : String → List String
unfolding push_part push_parts
clean_parts path = reverse (push_parts (starts_with path "/") [] (split b'/' path))

spell : Bool → List String → String
spell true parts = "/" <> join "/" parts
spell false [] = "."
spell false (part ∷ parts) = join "/" (part ∷ parts)

unfoldable pub clean : String → String
unfolding clean_parts spell
clean path = spell (starts_with path "/") (clean_parts path)

-- The path up to its last slash.
drop_last : List String → List String
drop_last [] = []
drop_last (part ∷ []) = "" ∷ []
drop_last (part ∷ more ∷ parts) = part ∷ drop_last (more ∷ parts)

unfoldable pub dir : String → String
unfolding clean drop_last
dir path = clean (join "/" (drop_last (split b'/' path)))

-- `filepath.Join(a, b)`
unfoldable pub join_path : String → String → String
unfolding clean
join_path a b =
    if a == ""
    then (if b == "" then "" else clean b)
    else if b == ""
    then clean a
    else clean (a <> ("/" <> b))

-- The parts of base and target behind what they share.
climb : List String → List String → Option (List String)
climb [] target = some target
climb (part ∷ base) target =
    if part == ".." then none else some (map (λ _. "..") (part ∷ base) ++ target)

rel_parts : List String → List String → Option (List String)
unfolding climb
rel_parts [] target = climb [] target
rel_parts (b ∷ base) [] = climb (b ∷ base) []
rel_parts (b ∷ base) (t ∷ target) =
    let rest = rel_parts base target in if b == t then rest else climb (b ∷ base) (t ∷ target)

same_root : Bool → Bool → Bool
same_root true true = true
same_root false false = true
same_root _ _ = false

-- `filepath.Rel`; `none` is its error.
unfoldable pub rel : String → String → Option String
unfolding clean_parts spell rel_parts same_root
rel base target =
    if same_root (starts_with base "/") (starts_with target "/")
    then elim (rel_parts (clean_parts base) (clean_parts target)) [
      | none ↦ none
      | some parts ↦ some (spell false parts)
    ]
    else none
