-- ===== src/Base/Text.antt =====
-- Python's `str` as the native text: `strip`, `casefold` and `upper`. The case maps move the ASCII
-- letters and leave every other character as it is.
use Prim.Native.Nat.{ℕ, zero, suc, ◌/◌, ◌%◌}
use Prim.Native.Char.{Char, code}
use Prim.Native.String.{String, ◌++◌}
use mathlib.Core.List.{List, [], ◌∷◌}
use mathlib.Core.Bool.{Bool, true, false, ◌&&◌, ◌||◌}
use reclaim_rail.Base.Tests.{leb, ltb, ◌==◌, if◌then◌else◌}

-- `str.isspace` of one character
unfoldable pub is_space : Char → Bool
is_space c =
    (leb 9 (code c) && leb (code c) 13)
    || (leb 28 (code c) && leb (code c) 32)
    || code c == 133
    || code c == 160
    || code c == 5760
    || (leb 8192 (code c) && leb (code c) 8202)
    || code c == 8232
    || code c == 8233
    || code c == 8239
    || code c == 8287
    || code c == 12288

abbrev pub is_empty : String → Bool
is_empty String.[] = true
is_empty (String.◌∷◌ _ _) = false

unfoldable pub lstrip : String → String
lstrip String.[] = ""
lstrip (String.◌∷◌ c s) = let rest = lstrip s in if is_space c then rest else String.◌∷◌ c s

unfoldable pub rstrip : String → String
rstrip String.[] = ""
rstrip (String.◌∷◌ c s) =
    let rest = rstrip s in if is_space c && is_empty rest then "" else String.◌∷◌ c rest

-- `value.strip()`
unfoldable pub strip : String → String
unfolding lstrip rstrip is_space
strip s = rstrip (lstrip s)

-- the character that stands where `c` does in the first text
unfoldable pub translate : String → String → Char → Char
translate String.[] _ c = c
translate (String.◌∷◌ a as') String.[] c = c
translate (String.◌∷◌ a froms) (String.◌∷◌ b tos) c =
    let rest = translate froms tos c in if code a == code c then b else rest

abbrev pub map_text : (Char → Char) → String → String
map_text f String.[] = ""
map_text f (String.◌∷◌ c s) = String.◌∷◌ (f c) (map_text f s)

abbrev pub lower_letters : String
lower_letters = "abcdefghijklmnopqrstuvwxyz"

abbrev pub upper_letters : String
upper_letters = "ABCDEFGHIJKLMNOPQRSTUVWXYZ"

-- `value.casefold()`
unfoldable pub casefold : String → String
unfolding translate
casefold = map_text (translate upper_letters lower_letters)

-- `value.upper()`
unfoldable pub upper : String → String
unfolding translate
upper = map_text (translate lower_letters upper_letters)

abbrev join_from : String → String → List String → String
join_from separator x [] = x
join_from separator x (y ∷ ys) = x ++ (separator ++ join_from separator y ys)

-- `separator.join(texts)`
abbrev pub join : String → List String → String
join separator [] = ""
join separator (x ∷ xs) = join_from separator x xs

-- `str(n)` of a number: its decimal digits, for more rounds than it has digits
digit : ℕ → String
digit n =
    if n == 0
    then "0"
    else if n == 1
    then "1"
    else if n == 2
    then "2"
    else if n == 3
    then "3"
    else if n == 4
    then "4"
    else if n == 5
    then "5"
    else if n == 6
    then "6"
    else if n == 7
    then "7"
    else if n == 8
    then "8"
    else "9"

decimal_from : ℕ → ℕ → String → String
decimal_from zero n acc = acc
decimal_from (suc rounds) n acc =
    let rest = decimal_from rounds (n / 10) (digit (n % 10) ++ acc) in
    if ltb n 10 then digit n ++ acc else rest

unfoldable pub decimal : ℕ → String
unfolding digit decimal_from
decimal n = decimal_from (suc n) n ""
