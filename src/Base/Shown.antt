-- ===== src/Base/Shown.antt =====
-- Python's texts of integers and Booleans, and white space collapsed by `" ".join(value.split())`.
use Prim.Native.String.{String, ◌++◌}
use mathlib.Core.List.{List, [], ◌∷◌}
use mathlib.Core.Bool.{Bool, true, false}
use reclaim_rail.Base.Tests.{if◌then◌else◌}
use reclaim_rail.Base.Int.{ℤ, pos, pos_part, neg_part, ltb_ℤ}
use reclaim_rail.Base.Text.{decimal, is_space, is_empty, join}

-- `str(n)`, and `str(b).lower()`
abbrev pub show_ℤ : ℤ → String
show_ℤ n = if ltb_ℤ n (pos 0) then "-" ++ decimal (neg_part n) else decimal (pos_part n)

abbrev pub show_bool : Bool → String
show_bool true = "true"
show_bool false = "false"

abbrev push_word : String → List String → List String
push_word w ws = if is_empty w then ws else w ∷ ws

-- the word that the text begins with, and the words after it
chop : String → String × List String
chop String.[] = ("", [])
chop (String.◌∷◌ c s) =
    let (w, ws) = chop s in if is_space c then ("", push_word w ws) else (String.◌∷◌ c w, ws)

-- `" ".join(value.split())`
unfoldable pub collapse : String → String
unfolding chop is_space
collapse s = let (w, ws) = chop s in join " " (push_word w ws)
