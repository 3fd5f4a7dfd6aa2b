-- ===== src/Value.antt =====
-- The values that `yaml.safe_load` and `json.load` give, and what the program asks of them:
-- truth, and the lookup of a dotted path (`_get` of akropolis/config.py).
use akropolis.Base.{
  String, zero, suc, ℤ, pos, negsuc, Bool, true, false, not, ◌==◌, string_eq, if◌then◌else◌, ◌||◌,
  Option, none, some, List, [], ◌∷◌,
}
use akropolis.Base.Text.{split, int_of_text}

-- A float is what the code can read of it: `int()` of it (none for inf and nan), whether it is
-- zero, and its `repr`. `other` is a date or a byte string, by its `str`.
mutual
  pub data Value : Type 0 where
    null : Value
    bool : Bool → Value
    int : ℤ → Value
    float : (whole : Option ℤ) → (is_zero : Bool) → (shown : String) → Value
    str : String → Value
    other : String → Value
    list : Items → Value
    dict : Fields → Value

  pub data Items : Type 0 where
    nil : Items
    cons : Value → Items → Items

  pub data Fields : Type 0 where
    end : Fields
    field : String → Value → Fields → Fields

-- The elements of a list, and its value from its elements.
unfoldable pub elements : Items → List Value
elements nil = []
elements (cons v vs) = v ∷ elements vs

unfoldable pub from_elements : List Value → Items
from_elements [] = nil
from_elements (v ∷ vs) = cons v (from_elements vs)

-- `d[k]`, and whether `k in d`. The first field of a name counts: a dict has one.
unfoldable pub lookup_field : String → Fields → Option Value
lookup_field k end = none
lookup_field k (field j v fs) = if k == j then some v else lookup_field k fs

is_zero_ℤ : ℤ → Bool
is_zero_ℤ (pos zero) = true
is_zero_ℤ (pos (suc n)) = false
is_zero_ℤ (negsuc n) = false

-- `bool(v)`
unfoldable pub truthy : Value → Bool
unfolding is_zero_ℤ
truthy null = false
truthy (bool b) = b
truthy (int z) = not (is_zero_ℤ z)
truthy (float whole is_zero shown) = not is_zero
truthy (str s) = not (s == "")
truthy (other s) = true
truthy (list nil) = false
truthy (list (cons v vs)) = true
truthy (dict end) = false
truthy (dict (field k v fs)) = true

-- The loop of `_get` over the keys of a path.
unfoldable pub walk : Value → List String → Value → Value
unfolding lookup_field
walk cur [] default = cur
walk (dict fs) (k ∷ ks) default = elim (lookup_field k fs) [
  | none ↦ default
  | some v ↦ walk v ks default
]
walk _ (k ∷ ks) default = default

-- `_get(d, path, default)`
unfoldable pub get : Value → String → Value → Value
unfolding walk split
get d path default = walk d (split b'.' path) default

-- `a or b`
unfoldable pub or_else : Value → Value → Value
unfolding truthy
or_else a b = if truthy a then a else b

-- `v == s` for a text `s`.
abbrev pub is_text : Value → String → Bool
is_text (str t) s = t == s
is_text _ s = false

-- `v in names` for a set of texts, where `v` can be hashed.
unfoldable pub one_of : Value → List String → Bool
one_of v [] = false
one_of v (s ∷ names) = is_text v s || one_of v names

-- Lists and dicts cannot be hashed: `v in names` raises TypeError.
unfoldable pub hashable : Value → Bool
hashable (list vs) = false
hashable (dict fs) = false
hashable v = true

-- `int(v)`; none where it raises.
unfoldable pub to_int : Value → Option ℤ
unfolding int_of_text
to_int null = none
to_int (bool true) = some (pos 1)
to_int (bool false) = some (pos 0)
to_int (int z) = some z
to_int (float whole is_zero shown) = whole
to_int (str s) = int_of_text s
to_int (other s) = none
to_int (list vs) = none
to_int (dict fs) = none
