-- ===== src/Base/Text.antt =====
-- Python's text methods that the program calls, by the characters of the text.
use Prim.Native.Nat.{ℕ, zero, suc, ◌+◌, ◌*◌, ◌-◌, ◌/◌, ◌%◌}
use Prim.Native.Char.{Char, code}
use Prim.Native.String.{String, ◌++◌ as ◌<>◌}
use mathlib.Core.Bool.{Bool, true, false, ◌&&◌, ◌||◌}
use mathlib.Core.List.{List, [], ◌∷◌}
use akropolis.Base.Equality.{if◌then◌else◌}
use mathlib.Core.Option
use mathlib.Core.Option.{Option, none, some}
use akropolis.Base.Lists.{keep}
use akropolis.Base.Numbers.{leb, ltb, eqb, ℤ, pos, negsuc}

-- `str.isspace` of one character.
abbrev pub is_space : ℕ → Bool
is_space c =
    (leb 9 c && leb c 13)
    || (leb 28 c && leb c 32)
    || eqb c 133
    || eqb c 160
    || eqb c 5760
    || (leb 8192 c && leb c 8202)
    || eqb c 8232
    || eqb c 8233
    || eqb c 8239
    || eqb c 8287
    || eqb c 12288

abbrev pub is_digit : ℕ → Bool
is_digit c = leb b'0' c && leb c b'9'

put_before : Char → String → String
put_before c String.[] = if is_space (code c) then String.[] else String.◌∷◌ c String.[]
put_before c (String.◌∷◌ d s) = String.◌∷◌ c (String.◌∷◌ d s)

-- A text with its trailing white space gone.
rstrip : String → String
unfolding put_before
rstrip String.[] = String.[]
rstrip (String.◌∷◌ c s) = put_before c (rstrip s)

lstrip : String → String
lstrip String.[] = String.[]
lstrip (String.◌∷◌ c s) = let rest = lstrip s in if is_space (code c) then rest else String.◌∷◌ c s

-- `s.strip()`
unfoldable pub strip : String → String
unfolding lstrip rstrip
strip s = rstrip (lstrip s)

add_char : Bool → Char → List String → List String
add_char true d parts = String.[] ∷ parts
add_char false d [] = String.◌∷◌ d String.[] ∷ []
add_char false d (part ∷ parts) = String.◌∷◌ d part ∷ parts

-- `s.split(c)` for one character `c`: never empty.
unfoldable pub split : ℕ → String → List String
unfolding add_char
split c String.[] = String.[] ∷ []
split c (String.◌∷◌ d s) = add_char (eqb (code d) c) d (split c s)

-- The parts between white space, empty ones included.
space_parts : String → List String
unfolding add_char
space_parts String.[] = String.[] ∷ []
space_parts (String.◌∷◌ d s) = add_char (is_space (code d)) d (space_parts s)

is_word : String → Bool
is_word String.[] = false
is_word (String.◌∷◌ c s) = true

-- `s.split()`: the words between runs of white space.
unfoldable pub words : String → List String
unfolding space_parts is_word
words s = keep is_word (space_parts s)

-- `repr(s)` of a text with no quote, backslash or control character in it.
abbrev pub quoted : String → String
quoted s = "'" <> (s <> "'")

digit_text : ℕ → String
digit_text d =
    if eqb d 0
    then "0"
    else if eqb d 1
    then "1"
    else if eqb d 2
    then "2"
    else if eqb d 3
    then "3"
    else if eqb d 4
    then "4"
    else if eqb d 5
    then "5"
    else if eqb d 6
    then "6"
    else if eqb d 7
    then "7"
    else if eqb d 8
    then "8"
    else "9"

-- The digits of `n` in front of `rest`. `n` rounds are enough, since `n / 10 < n`.
digits : ℕ → ℕ → String → String
unfolding digit_text
digits zero n rest = rest
digits (suc fuel) n rest =
    let more = digits fuel (n / 10) (digit_text (n % 10) <> rest) in
    if ltb n 10 then digit_text n <> rest else more

-- `str(n)`
unfoldable pub decimal : ℕ → String
unfolding digits
decimal n = digits (suc n) n ""

-- The digits of `int(s)`, with single underscores between them.
read_digits : ℕ → Bool → String → Option ℕ
read_digits acc after_digit String.[] = if after_digit then some acc else none
read_digits acc after_digit (String.◌∷◌ c s) =
    let value = acc * 10 + (code c - b'0') in
    let digit = is_digit (code c) in
    let rest = read_digits (if digit then value else acc) digit s in
    if digit || (eqb (code c) b'_' && after_digit) then rest else none

read_signed : String → Option ℤ
unfolding read_digits
read_signed String.[] = none
read_signed (String.◌∷◌ c s) =
    if eqb (code c) b'-'
    then negated (read_digits 0 false s)
    else if eqb (code c) b'+'
    then Option.map pos (read_digits 0 false s)
    else Option.map pos (read_digits 0 false (String.◌∷◌ c s))
  where
    negated : Option ℕ → Option ℤ
    negated none = none
    negated (some zero) = some (pos zero)
    negated (some (suc n)) = some (negsuc n)

-- `int(s)` of a text in ASCII digits; none where it raises ValueError.
unfoldable pub int_of_text : String → Option ℤ
unfolding strip read_signed
int_of_text s = read_signed (strip s)

-- A character that `shlex.quote` finds safe: a letter, a digit or one of @%+=:,./-_
is_shell_safe : ℕ → Bool
is_shell_safe c =
    is_digit c
    || (leb b'a' c && leb c b'z')
    || (leb b'A' c && leb c b'Z')
    || eqb c b'_'
    || eqb c b'@'
    || eqb c b'%'
    || eqb c b'+'
    || eqb c b'='
    || eqb c b':'
    || eqb c b','
    || eqb c b'.'
    || eqb c b'/'
    || eqb c b'-'

all_shell_safe : String → Bool
unfolding is_shell_safe
all_shell_safe String.[] = true
all_shell_safe (String.◌∷◌ c s) = is_shell_safe (code c) && all_shell_safe s

-- Every single quote as '"'"'.
escape_quotes : String → String
escape_quotes String.[] = String.[]
escape_quotes (String.◌∷◌ c s) =
    let rest = escape_quotes s in if eqb (code c) 39 then "'\"'\"'" <> rest else String.◌∷◌ c rest

-- `shlex.quote(s)`
unfoldable pub shell_quote : String → String
unfolding all_shell_safe escape_quotes
shell_quote String.[] = "''"
shell_quote (String.◌∷◌ c s) =
    let text = String.◌∷◌ c s in
    if all_shell_safe text then text else "'" <> (escape_quotes text <> "'")

lower_code : ℕ → ℕ
lower_code c = if leb b'A' c && leb c b'Z' then c + 32 else c

-- `s.lower() == t` for an ASCII text `t`.
unfoldable pub lower_is : String → String → Bool
unfolding lower_code
lower_is String.[] String.[] = true
lower_is (String.◌∷◌ c s) (String.◌∷◌ d t) = eqb (lower_code (code c)) (code d) && lower_is s t
lower_is _ _ = false
