-- ===== src/Update/Version.antt =====
-- `_is_newer` of akropolis/update.py: versions as tuples of integers.
use akropolis.Base.{
  String, Bool, true, false, not, ◌&&◌, ◌||◌, Option, none, some, List, [], ◌∷◌, ℤ, ltb_ℤ,
}
use akropolis.Base.Text.{split, int_of_text}

parse_parts : List String → Option (List ℤ)
unfolding int_of_text
parse_parts [] = some []
parse_parts (p ∷ ps) = elim (int_of_text p) [
  | none ↦ none
  | some n ↦ elim (parse_parts ps) [ none ↦ none | some ns ↦ some (n ∷ ns) ]
]

-- `tuple(int(p) for p in s.split("."))`; none for a ValueError.
unfoldable pub version_tuple : String → Option (List ℤ)
unfolding parse_parts split
version_tuple s = parse_parts (split b'.' s)

-- `a > b` of tuples: the first difference decides, and then the length.
unfoldable pub greater : List ℤ → List ℤ → Bool
greater [] ys = false
greater (x ∷ xs) [] = true
greater (x ∷ xs) (y ∷ ys) = let rest = greater xs ys in ltb_ℤ y x || (not (ltb_ℤ x y) && rest)

unfoldable pub newer_tuple : Option (List ℤ) → Option (List ℤ) → Bool
newer_tuple (some a) (some b) = greater a b
newer_tuple _ _ = false

-- `_is_newer`
unfoldable pub is_newer : String → String → Bool
is_newer candidate current = newer_tuple (version_tuple candidate) (version_tuple current)
