-- ===== src/Go/FilePath/Rooted.antt =====
-- A path from the root whose parts are plain names is clean already.
use hambone.Base.{
  String, ◌<>◌, Bool, true, false, ◌≡◌, refl, sym, ap, ◌∙◌, List, [], ◌∷◌, ◌++◌, reverse, arith,
  All, split, join, starts_with, ◌==◌,
}
use hambone.Go.FilePath.{clean, clean_parts, push_part, push_parts, spell}
use mathlib.Core.List.{reverse-cons, reverse-reverse, append_assoc, append-nil}

-- A name that means neither this directory nor the one above.
abbrev pub IsPlain : String → Type 0
IsPlain part = ((part == "") ≡ false) × ((part == ".") ≡ false) × ((part == "..") ≡ false)

push_part-plain :
    (rooted : Bool) (kept : List String) (part : String)
    → IsPlain part
    → push_part rooted kept part ≡ part ∷ kept
unfolding push_part
push_part-plain rooted [] part (a, b, c) = rw (a, b, c) refl
push_part-plain rooted (top ∷ kept) part (a, b, c) = rw (a, b, c) refl

push_parts-plain :
    (rooted : Bool) (kept parts : List String)
    → All IsPlain parts
    → push_parts rooted kept parts ≡ reverse parts ++ kept
unfolding push_parts
push_parts-plain rooted kept [] h = refl
push_parts-plain rooted kept (part ∷ parts) (h, more) =
    ap (λ k. push_parts rooted k parts) (push_part-plain rooted kept part h)
    ∙ (push_parts-plain rooted (part ∷ kept) parts more
        ∙ (sym (append_assoc (reverse parts) (part ∷ []) kept)
            ∙ ap (λ r. r ++ kept) (sym (reverse-cons part parts))))

push_part_nothing : (rooted : Bool) → push_part rooted [] "" ≡ []
unfolding push_part
push_part_nothing rooted = ground arith

pub clean-rooted :
    (path : String) (parts : List String)
    → All IsPlain parts
    → starts_with path "/" ≡ true
    → split b'/' path ≡ "" ∷ parts
    → clean path ≡ "/" <> join "/" parts
unfolding clean clean_parts push_parts spell
clean-rooted path parts plain rooted cut =
    let kept : push_parts true [] (split b'/' path) ≡ reverse parts =
      ap (push_parts true []) cut
      ∙ (ap (λ k. push_parts true k parts) (push_part_nothing true)
          ∙ (push_parts-plain true [] parts plain ∙ append-nil (reverse parts))) in
    rw (rooted) (
      ap (λ ps. "/" <> join "/" (reverse ps)) kept
      ∙ ap (λ ps. "/" <> join "/" ps) (reverse-reverse parts))
