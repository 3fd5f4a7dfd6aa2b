-- ===== src/Base/Lines.antt =====
-- Python's `splitlines`, and `sep.join`.
use Prim.Native.Char.{code}
use Prim.Native.Nat.{ℕ}
use Prim.Native.String.{String, ◌++◌ as ◌<>◌}
use mathlib.Core.Bool.{Bool, false, ◌&&◌, ◌||◌}
use mathlib.Core.List.{List, [], ◌∷◌}
use akropolis.Base.Equality.{◌==◌, string_eq, if◌then◌else◌}
use akropolis.Base.Numbers.{eqb, leb}

-- The line boundaries of `str.splitlines`.
is_break : ℕ → Bool
is_break c =
    leb 10 c && leb c 13 || (leb 28 c && leb c 30 || (eqb c 133 || (eqb c 8232 || eqb c 8233)))

starts_line_feed : String → Bool
starts_line_feed String.[] = false
starts_line_feed (String.◌∷◌ c s) = eqb (code c) 10

-- One more character on the first line.
put : Prim.Native.Char.Char → List String → List String
put c [] = String.◌∷◌ c String.[] ∷ []
put c (line ∷ lines) = String.◌∷◌ c line ∷ lines

-- The lines, of which the last is what follows the last boundary.
pieces : String → List String
unfolding is_break starts_line_feed put
pieces String.[] = "" ∷ []
pieces (String.◌∷◌ c s) =
    let rest = pieces s in
    if eqb (code c) 13 && starts_line_feed s
    then rest
    else if is_break (code c)
    then "" ∷ rest
    else put c rest

without_last_blank : List String → List String
without_last_blank [] = []
without_last_blank (line ∷ []) = if line == "" then [] else line ∷ []
without_last_blank (line ∷ next ∷ lines) = line ∷ without_last_blank (next ∷ lines)

unfoldable pub split_lines : String → List String
unfolding pieces without_last_blank
split_lines s = without_last_blank (pieces s)

unfoldable pub join : String → List String → String
join separator [] = ""
join separator (s ∷ []) = s
join separator (s ∷ t ∷ rest) = s <> (separator <> join separator (t ∷ rest))
