-- ===== src/Base/Prefix.antt =====
-- Texts seen character by character: cutting a prefix off, and the characters that occur in a text.
use Prim.Native.Nat.{ℕ, compare, Ordering}
use Prim.Native.Char.{Char, code}
use Prim.Native.String.{String, ◌++◌ as ◌<>◌}
use mathlib.Core.Path.{◌≡◌, refl, sym, ap, ◌∙◌}
use mathlib.Core.Logic.{inl, inr}
use mathlib.Core.Bool.{Bool, true, false, ◌||◌}
use mathlib.Core.Option.{Option, none, some}
use mathlib.Core.List.{[], ◌∷◌}
use native.Mathlib.Omega.{arith}
use text.Mathlib.Text.{starts_with}
use text.Mathlib.TextEquality.{codes_equal, starts_with_iff}
use text.Mathlib.TextPositions.{compare_self}
use text.Mathlib.TextLemmas.{nil-append, cons-append}
use hambone.Base.Tests.{if◌then◌else◌, Bool-cases, is_equal}
use hambone.Base.Text.{contains, is_code, split}

-- `++` by clauses, which computes on a literal in front of a text that is not known.
abbrev pub glue : String → String → String
glue String.[] t = t
glue (String.◌∷◌ c s) t = String.◌∷◌ c (glue s t)

pub glue-eq : (s t : String) → glue s t ≡ s <> t
glue-eq String.[] t = sym (nil-append t)
glue-eq (String.◌∷◌ c s) t = ap (λ r. String.◌∷◌ c r) (glue-eq s t) ∙ sym (cons-append c s t)

is_equal-eq : (o : Ordering) → is_equal o ≡ true → o ≡ Ordering.eq
is_equal-eq Ordering.eq h = refl
is_equal-eq Ordering.lt h = cc
is_equal-eq Ordering.gt h = cc

abbrev pub same_char : Char → Char → Bool
same_char c d = is_code (code c) (code d)

same_char-eq : (c d : Char) → same_char c d ≡ true → c ≡ d
same_char-eq c d h = codes_equal c d (is_equal-eq (compare (code c) (code d)) h)

same_char_self : (c : Char) → same_char c c ≡ true
same_char_self c = ap is_equal (compare_self (code c))

-- What follows the prefix `p`.
unfoldable pub strip_prefix : String → String → Option String
strip_prefix String.[] s = some s
strip_prefix (String.◌∷◌ c p) String.[] = none
strip_prefix (String.◌∷◌ c p) (String.◌∷◌ d s) =
    let rest = strip_prefix p s in if same_char c d then rest else none

pub strip_prefix-some : (p s r : String) → strip_prefix p s ≡ some r → s ≡ glue p r
unfolding strip_prefix
strip_prefix-some String.[] s r h = cc
strip_prefix-some (String.◌∷◌ c p) String.[] r h = cc
strip_prefix-some (String.◌∷◌ c p) (String.◌∷◌ d s) r h =
    ground (arith, same_char-eq c d, strip_prefix-some p s r)

pub strip_prefix-glue : (p r : String) → strip_prefix p (glue p r) ≡ some r
unfolding strip_prefix
strip_prefix-glue String.[] r = refl
strip_prefix-glue (String.◌∷◌ c p) r = ground (arith, same_char_self c, strip_prefix-glue p r)

-- Whether a character of the given code occurs.
unfoldable pub has_code : ℕ → String → Bool
has_code n String.[] = false
has_code n (String.◌∷◌ c s) = is_code (code c) n || has_code n s

pub has_code-glue : (n : ℕ) (s t : String) → has_code n (glue s t) ≡ (has_code n s || has_code n t)
unfolding has_code
has_code-glue n String.[] t = refl
has_code-glue n (String.◌∷◌ c s) t = ground (arith, has_code-glue n s t)

starts_with-has_code :
    (n : ℕ) (s p : String) → has_code n p ≡ true → has_code n s ≡ false → starts_with s p ≡ false
starts_with-has_code n s p hp hs = elim (Bool-cases (starts_with s p)) [
  | inl e ↦
      let (r, f) = (starts_with_iff s p).0 e in ground (arith, has_code-glue n p r, glue-eq p r, f)
  | inr e ↦ e
]

-- A text without a character contains no text that has it.
pub contains-has_code :
    (n : ℕ) (s p : String) → has_code n p ≡ true → has_code n s ≡ false → contains s p ≡ false
unfolding contains has_code
contains-has_code n String.[] p hp hs = starts_with-has_code n String.[] p hp hs
contains-has_code n (String.◌∷◌ c s) p hp hs =
    ground (arith, starts_with-has_code n (String.◌∷◌ c s) p hp hs, contains-has_code n s p hp)

-- Nothing is split at a character that does not occur.
pub split-has_code : (n : ℕ) (s : String) → has_code n s ≡ false → split n s ≡ s ∷ []
unfolding split has_code
split-has_code n String.[] h = refl
split-has_code n (String.◌∷◌ c s) h = ground (arith, split-has_code n s)

-- And the first part ends where it does.
pub split-glue :
    (c : Char) (s t : String)
    → has_code (code c) s ≡ false
    → split (code c) (glue s (String.◌∷◌ c t)) ≡ s ∷ split (code c) t
unfolding split has_code
split-glue c String.[] t h = ground (arith, same_char_self c)
split-glue c (String.◌∷◌ d s) t h = ground (arith, split-glue c s t)

pub glue_assoc : (a b c : String) → glue (glue a b) c ≡ glue a (glue b c)
glue_assoc String.[] b c = refl
glue_assoc (String.◌∷◌ x a) b c = ap (λ r. String.◌∷◌ x r) (glue_assoc a b c)
