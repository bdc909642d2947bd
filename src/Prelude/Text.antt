-- ===== src/Prelude/Text.antt =====
-- What the program uses of JavaScript's strings: decimal numbers, trimming, ASCII case, slices.
pub mod Split
pub mod Lines
use Prim.Native.Nat.{ℕ, zero, suc, ◌+◌, ◌-◌, ◌/◌, ◌%◌}
use Prim.Native.Char.{code}
use Prim.Native.String.{String, [], ◌∷◌, ◌++◌}
use mathlib.Core.Bool.{Bool, true, false, ◌&&◌, ◌||◌}
use mathlib.Core.List.{List}
use mathlib.Core.Option.{Option, none, some}
use jobilee.Prelude.Tests.{leb, ltb, ◌==◌, nat_eq, string_eq, if◌then◌else◌}

-- The code points of a text.
abbrev pub codes : String → List ℕ
codes [] = List.[]
codes (c ∷ s) = List.◌∷◌ (code c) (codes s)

-- `toLowerCase` and `toUpperCase` on ASCII letters, by code point.
unfoldable pub to_lower : ℕ → ℕ
to_lower c = if leb b'A' c && leb c b'Z' then c + 32 else c

unfoldable pub to_upper : ℕ → ℕ
to_upper c = if leb b'a' c && leb c b'z' then c - 32 else c

-- `startsWith` on code points.
abbrev pub starts_with : List ℕ → List ℕ → Bool
starts_with s List.[] = true
starts_with List.[] (List.◌∷◌ c t) = false
starts_with (List.◌∷◌ d s) (List.◌∷◌ c t) = d == c && starts_with s t

-- equality of texts given by their code points
abbrev pub codes_eq : List ℕ → List ℕ → Bool
codes_eq List.[] List.[] = true
codes_eq List.[] (List.◌∷◌ c t) = false
codes_eq (List.◌∷◌ d s) List.[] = false
codes_eq (List.◌∷◌ d s) (List.◌∷◌ c t) = d == c && codes_eq s t

-- the number of characters
unfoldable pub size : String → ℕ
size [] = zero
size (c ∷ s) = suc (size s)

-- `slice(n)`
unfoldable pub slice_from : ℕ → String → String
slice_from zero s = s
slice_from (suc n) [] = []
slice_from (suc n) (c ∷ s) = slice_from n s

-- the white space and line terminators that `trim` removes
unfoldable pub is_space : ℕ → Bool
is_space c =
    c == 32
    || (leb 9 c && leb c 13)
    || c == 0xa0
    || c == 0x1680
    || (leb 0x2000 c && leb c 0x200a)
    || c == 0x2028
    || c == 0x2029
    || c == 0x202f
    || c == 0x205f
    || c == 0x3000
    || c == 0xfeff

unfoldable pub trim_start : String → String
unfolding is_space
trim_start [] = []
trim_start (c ∷ s) = let rest = trim_start s in if is_space (code c) then rest else c ∷ s

unfoldable pub trim_end : String → String
unfolding is_space
trim_end [] = []
trim_end (c ∷ s) = let rest = trim_end s in if is_space (code c) && rest == [] then [] else c ∷ rest

unfoldable pub trim : String → String
unfolding trim_start trim_end
trim s = trim_end (trim_start s)

digit : ℕ → String
digit d =
    if d == 0
    then "0"
    else if d == 1
    then "1"
    else if d == 2
    then "2"
    else if d == 3
    then "3"
    else if d == 4
    then "4"
    else if d == 5
    then "5"
    else if d == 6
    then "6"
    else if d == 7
    then "7"
    else if d == 8
    then "8"
    else "9"

-- Decimal digits; the fuel `suc n` is enough, since a division by ten shortens a number above 9.
show_from : ℕ → ℕ → String
unfolding digit
show_from zero n = ""
show_from (suc f) n = elim (ltb n 10) [
  | true ↦ digit n
  | false ↦ show_from f (n / 10) ++ digit (n % 10)
]

-- `String(n)`, and a number inside a template.
unfoldable pub show : ℕ → String
unfolding show_from
show n = show_from (suc n) n

-- what follows a prefix
unfoldable pub strip_prefix : String → String → Option String
strip_prefix [] s = some s
strip_prefix (c ∷ p) [] = none
strip_prefix (c ∷ p) (d ∷ s) = if code c == code d then strip_prefix p s else none

-- `slice` on both sides of the first occurrence that `indexOf` finds
unfoldable pub split_first : String → String → Option (String × String)
unfolding strip_prefix
split_first needle [] = none
split_first needle (c ∷ s) = elim (strip_prefix needle (c ∷ s)) [
  | some rest ↦ some ("", rest)
  | none ↦ elim (split_first needle s) [
    | none ↦ none
    | some (before, rest) ↦ some (c ∷ before, rest)
  ]
]

-- `replace(needle, "")`, for a needle that is not empty
unfoldable pub remove_first : String → String → String
unfolding split_first
remove_first needle s = elim (split_first needle s) [
  | none ↦ s
  | some (before, rest) ↦ before ++ rest
]

-- `join(separator)`
unfoldable pub join : String → List String → String
join separator List.[] = ""
join separator (List.◌∷◌ s List.[]) = s
join separator (List.◌∷◌ s (List.◌∷◌ t rest)) = s ++ (separator ++ join separator (List.◌∷◌ t rest))

-- the UTF-16 code units of a text, which `length` and `slice` count
unfoldable pub units : String → List ℕ
units [] = List.[]
units (c ∷ s) =
    let rest = units s in
    let n = code c in
    if ltb n 0x10000
    then List.◌∷◌ n rest
    else List.◌∷◌ (0xd800 + (n - 0x10000) / 0x400) (List.◌∷◌ (0xdc00 + (n - 0x10000) % 0x400) rest)

-- `split` at a separator of one character, given by its code point
unfoldable pub split_on : ℕ → String → List String
split_on separator [] = List.◌∷◌ "" List.[]
split_on separator (c ∷ s) =
    let rest = split_on separator s in
    if code c == separator then List.◌∷◌ "" rest else elim rest [
      | List.[] ↦ List.◌∷◌ (c ∷ []) List.[]
      | List.◌∷◌ line lines ↦ List.◌∷◌ (c ∷ line) lines
    ]
