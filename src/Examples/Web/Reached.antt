-- ===== src/Examples/Web/Reached.antt =====
-- The handler that a request reaches through the mux.
use hambone.Base.{
  ℕ, String, ◌<>◌, true, false, ◌≡◌, ◌≢◌, refl, sym, ap, ◌∙◌, Option, some, [], ◌∷◌, arith, split,
  join, starts_with, length, ◌==◌, String-discrete,
}
use hambone.Base.Prefix.{glue, glue-eq, glue_assoc, split-glue, split-has_code, strip_prefix}
use hambone.Go.{Error}
use hambone.Go.FilePath.{clean}
use hambone.Go.FilePath.Rooted.{IsPlain, clean-rooted}
use text.Mathlib.TextPositions.{starts_with-append}
use hambone.Examples.Api.{Api}
use hambone.Examples.Web.{
  Request, Page, NamedHandler, save_handler, view_handler, edit_handler, new_handler,
}
use hambone.Examples.Web.Routes.{
  is_name, all_name_chars, match_name, clean_path, longest, serve, routes, ends_in_slash,
  registered, dispatch, validation_handler,
}
use hambone.Examples.Web.Names.{path_of, is_name-no_slash, match_name_complete}

parts_differ :
    (p q : String) (m n : ℕ)
    → length (split b'/' p) ≡ m
    → length (split b'/' q) ≡ n
    → m ≢ n
    → (p == q) ≡ false
parts_differ p q m n hp hq differ = elim (String-discrete p q) [
  | yes e ↦ absurd (differ (sym hp ∙ (ap (λ t. length (split b'/' t)) e ∙ hq)))
  | no n ↦ ground (arith, n)
]

clean_path-stays :
    (p rest : String)
    → (p == "") ≡ false
    → strip_prefix "/" p ≡ some rest
    → clean p ≡ p
    → ends_in_slash (split b'/' p) ≡ false
    → clean_path p ≡ p
unfolding clean_path
clean_path-stays p rest some_path rooted cleaned last = ground arith

spelled :
    (a b c d e f : String)
    → a <> (b <> (c <> (d <> (e <> f)))) ≡ glue a (glue b (glue c (glue d (glue e f))))
spelled a b c d e f = rw (glue-eq, glue-eq, glue-eq, glue-eq, glue-eq) refl

module _ (name : String) (h : is_name name ≡ true) where
  plain_unless : (t : String) → is_name t ≡ false → (name == t) ≡ false
  plain_unless t bad = elim (String-discrete name t) [
    | yes e ↦ ground (arith, ap is_name e)
    | no n ↦ ground (arith, n)
  ]

  name-IsPlain : IsPlain name
  unfolding is_name all_name_chars String-discrete
  name-IsPlain = (plain_unless "" refl, plain_unless "." refl, plain_unless ".." refl)

  -- A path with one of the verbs, of which these facts are computed.
  module _ (verb : String) (plain : IsPlain verb)
      (cut : (t : String)
        → split b'/' (path_of verb t) ≡ "" ∷ "instance" ∷ verb ∷ split b'/' t) where
    cut_here : split b'/' (path_of verb name) ≡ "" ∷ "instance" ∷ verb ∷ name ∷ []
    cut_here =
        cut name
        ∙ ap (λ ps. "" ∷ "instance" ∷ verb ∷ ps)
            (split-has_code b'/' name (is_name-no_slash name h))

    cleaned : clean (path_of verb name) ≡ path_of verb name
    unfolding join String-discrete
    cleaned =
        clean-rooted (path_of verb name) ("instance" ∷ verb ∷ name ∷ [])
          ((refl, refl, refl), (plain, (name-IsPlain, tt)))
          (ap (λ p. starts_with p "/") (glue-eq "/" _) ∙ starts_with-append "/" _) cut_here
        ∙ (spelled "/" "instance" "/" verb "/" name
            ∙ ap (glue "/instance/") (sym (glue_assoc verb "/" name)))

    empty_parts : length (split b'/' "") ≡ 1
    unfolding split
    empty_parts = refl

    clean_path-path : clean_path (path_of verb name) ≡ path_of verb name
    unfolding strip_prefix
    clean_path-path =
        clean_path-stays (path_of verb name) _
          (parts_differ (path_of verb name) "" 4 1 (ap length cut_here) empty_parts
            (λ e. omega arith))
          refl cleaned (ap ends_in_slash cut_here ∙ name-IsPlain.0)

    with_slash : path_of verb name <> "/" ≡ path_of verb (glue name "/")
    with_slash =
        sym (glue-eq (path_of verb name) "/")
        ∙ ap (glue "/instance/") (glue_assoc (glue verb "/") name "/")

    slash_parts : split b'/' (path_of verb name <> "/") ≡ "" ∷ "instance" ∷ verb ∷ name ∷ "" ∷ []
    unfolding split
    slash_parts =
        ap (split b'/') with_slash
        ∙ (cut (glue name "/")
            ∙ ap (λ ps. "" ∷ "instance" ∷ verb ∷ ps)
                (split-glue "/" name "" (is_name-no_slash name h)))

    slash_differs :
        (pattern : String)
        → length (split b'/' pattern) ≢ 5
        → (pattern == (path_of verb name <> "/")) ≡ false
    slash_differs pattern few = parts_differ pattern _ _ 5 refl (ap length slash_parts) few

    module _ {W : Type 0} (api : Api W) (execute : String → Page → Option Error) where
      not_registered : registered (routes api execute) (path_of verb name <> "/") ≡ false
      unfolding split
      not_registered = ground (
        arith,
        slash_differs "/instance/" (λ e. omega (arith, e)),
        slash_differs "/instance/new/" (λ e. omega (arith, e)),
        slash_differs "/instance/view/" (λ e. omega (arith, e)),
        slash_differs "/instance/edit/" (λ e. omega (arith, e)),
        slash_differs "/instance/save/" (λ e. omega (arith, e)),
        slash_differs "/instance/savenew/" (λ e. omega (arith, e)),
      )

      serve-dispatch :
          (r : Request) (w : W)
          → r.path ≡ path_of verb name
          → serve api execute r w
            ≡ dispatch api execute (longest (routes api execute) (path_of verb name)) r w
      unfolding serve
      serve-dispatch r w e = rw (e, clean_path-path, not_registered) (ground arith)

validated :
    {W : Type 0} (fn : NamedHandler W) (r : Request) (name path : String) (w : W)
    → r.path ≡ path
    → match_name path ≡ some name
    → validation_handler fn r w ≡ fn r name w
unfolding validation_handler
validated fn r name path w e m = let found = ap match_name e ∙ m in ground (arith, found)

module _ {W : Type 0} (api : Api W) (execute : String → Page → Option Error) where
  -- A request for one of the four verbs and a name that is not empty and has only letters, digits
  -- and dashes is answered by the handler of this verb, which is given this name: the mux neither
  -- redirects it nor gives it to the handler of another pattern.
  pub serve-reaches :
      (r : Request) (name : String) (w : W)
      → is_name name ≡ true
      → (r.path ≡ path_of "new" name → serve api execute r w ≡ new_handler api execute r name w)
        × (r.path ≡ path_of "view" name → serve api execute r w ≡ view_handler api execute r name w)
        × (r.path ≡ path_of "edit" name → serve api execute r w ≡ edit_handler api execute r name w)
        × (r.path ≡ path_of "save" name → serve api execute r w ≡ save_handler api r name w)
  unfolding longest strip_prefix split String-discrete
  serve-reaches r name w h =
      let (new, edit, save, view) = match_name_complete name h in
      (
        λ e.
            serve-dispatch name h "new" (refl, refl, refl) (λ t. refl) api execute r w e
            ∙ validated (new_handler api execute) r name _ w e new,
        λ e.
            serve-dispatch name h "view" (refl, refl, refl) (λ t. refl) api execute r w e
            ∙ validated (view_handler api execute) r name _ w e view,
        λ e.
            serve-dispatch name h "edit" (refl, refl, refl) (λ t. refl) api execute r w e
            ∙ validated (edit_handler api execute) r name _ w e edit,
        λ e.
            serve-dispatch name h "save" (refl, refl, refl) (λ t. refl) api execute r w e
            ∙ validated (save_handler api) r name _ w e save,
      )
