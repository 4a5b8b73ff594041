-- ===== src/Base/Text.antt =====
-- Texts: equality as a test, and what the source uses of Go's `strings` and `fmt` packages.
use Prim.Native.Nat.{ℕ, zero, suc, ◌+◌, ◌/◌, ◌%◌, compare}
use Prim.Native.Char.{Char, code}
use Prim.Native.String.{String, ◌++◌ as ◌<>◌}
use mathlib.Core.Logic.{ite, dite}
use mathlib.Core.Bool.{Bool, true, false, ◌||◌, ◌&&◌, Bool-discrete}
use mathlib.Core.List.{List, [], ◌∷◌}
use text.Mathlib.Text
use text.Mathlib.Text.{starts_with}
use text.Mathlib.TextEquality.{eq_iff}
use hambone.Base.Tests.{is_equal, if◌then◌else◌, ltb, leb}

-- Shut in proofs, where a split on `s == t` gives the equation or its negation.
unfoldable pub String-discrete : Discrete String
String-discrete s t =
    dite (Bool-discrete (Text.◌==◌ s t) true) (λ same. yes ((eq_iff s t).0 same))
      (λ differ. no (λ p. differ ((eq_iff s t).1 p)))

infix 50 ◌==◌
abbrev pub ◌==◌ : String → String → Bool
s == t = ite (String-discrete s t) true false

abbrev pub is_code : ℕ → ℕ → Bool
is_code a b = is_equal (compare a b)

-- The code points of a text: its bytes, if it is ASCII.
unfoldable pub codes : String → List ℕ
codes String.[] = []
codes (String.◌∷◌ c s) = code c ∷ codes s

-- `strings.Contains`
unfoldable pub contains : String → String → Bool
contains String.[] sub = starts_with String.[] sub
contains (String.◌∷◌ c s) sub = starts_with (String.◌∷◌ c s) sub || contains s sub

-- `unicode.IsSpace`
is_space : ℕ → Bool
is_space c =
    (leb 9 c && leb c 13)
    || is_code c 0x20
    || is_code c 0x85
    || is_code c 0xA0
    || is_code c 0x1680
    || (leb 0x2000 c && leb c 0x200A)
    || is_code c 0x2028
    || is_code c 0x2029
    || is_code c 0x202F
    || is_code c 0x205F
    || is_code c 0x3000

trim_left : String → String
trim_left String.[] = String.[]
trim_left (String.◌∷◌ c s) =
    let rest = trim_left s in if is_space (code c) then rest else String.◌∷◌ c s

keep_end : Char → String → String
keep_end c String.[] = if is_space (code c) then String.[] else String.◌∷◌ c String.[]
keep_end c (String.◌∷◌ d s) = String.◌∷◌ c (String.◌∷◌ d s)

trim_right : String → String
trim_right String.[] = String.[]
trim_right (String.◌∷◌ c s) = keep_end c (trim_right s)

-- `strings.TrimSpace`
unfoldable pub trim_space : String → String
unfolding trim_left trim_right keep_end is_space
trim_space s = trim_right (trim_left s)

drop_newline : Char → String → String → String
drop_newline c String.[] rest = if is_code (code c) 10 then String.[] else String.◌∷◌ c String.[]
drop_newline c (String.◌∷◌ _ _) rest = String.◌∷◌ c rest

-- `strings.TrimSuffix(s, "\n")`
unfoldable pub trim_suffix_newline : String → String
unfolding drop_newline
trim_suffix_newline String.[] = String.[]
trim_suffix_newline (String.◌∷◌ c s) = drop_newline c s (trim_suffix_newline s)

-- `strings.Replace(s, "\n", new, -1)`
unfoldable pub replace_newline : String → String → String
replace_newline new String.[] = String.[]
replace_newline new (String.◌∷◌ c s) =
    (if is_code (code c) 10 then new else String.◌∷◌ c String.[]) <> replace_newline new s

abbrev push_char : Char → List String → List String
push_char c [] = String.◌∷◌ c String.[] ∷ []
push_char c (part ∷ parts) = String.◌∷◌ c part ∷ parts

-- `strings.ReplaceAll(s, "\r", "")`
unfoldable pub remove_returns : String → String
remove_returns String.[] = String.[]
remove_returns (String.◌∷◌ c s) =
    let rest = remove_returns s in if is_code (code c) 13 then rest else String.◌∷◌ c rest

-- `strings.Split` at each character of the given code
unfoldable pub split : ℕ → String → List String
split sep String.[] = String.[] ∷ []
split sep (String.◌∷◌ c s) =
    let rest = split sep s in if is_code (code c) sep then String.[] ∷ rest else push_char c rest

-- `strings.Join`
unfoldable pub join : String → List String → String
join sep [] = ""
join sep (part ∷ []) = part
join sep (part ∷ more ∷ parts) = part <> (sep <> join sep (more ∷ parts))

unfoldable pub digit : ℕ → String
digit zero = "0"
digit (suc zero) = "1"
digit (suc (suc zero)) = "2"
digit (suc (suc (suc zero))) = "3"
digit (suc (suc (suc (suc zero)))) = "4"
digit (suc (suc (suc (suc (suc zero))))) = "5"
digit (suc (suc (suc (suc (suc (suc zero)))))) = "6"
digit (suc (suc (suc (suc (suc (suc (suc zero))))))) = "7"
digit (suc (suc (suc (suc (suc (suc (suc (suc zero)))))))) = "8"
digit (suc (suc (suc (suc (suc (suc (suc (suc (suc n))))))))) = "9"

unfoldable pub decimal_fuel : ℕ → ℕ → String
decimal_fuel zero n = ""
decimal_fuel (suc f) n = elim (ltb n 10) [
  | true ↦ digit n
  | false ↦ decimal_fuel f (n / 10) <> digit (n % 10)
]

-- `%d` of a number that is not negative
unfoldable pub decimal : ℕ → String
unfolding decimal_fuel digit
decimal n = decimal_fuel (n + 1) n
