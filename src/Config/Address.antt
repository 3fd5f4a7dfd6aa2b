-- ===== src/Config/Address.antt =====
-- What akropolis/config.py asks of `ipaddress`. IPv4 is written out; the IPv6 grammar and that of
-- networks are parameters.
use Prim.Native.Char.{code}
use akropolis.Base.{
  ℕ, suc, ◌+◌, ◌*◌, ◌-◌, String, Bool, true, false, not, ◌&&◌, ◌||◌, Option, none, some, List, [],
  ◌∷◌, if◌then◌else◌, leb, eqb, ◌<>◌, ℤ, pos, negsuc,
}
use akropolis.Base.Text.{split, is_digit, decimal, quoted}
use akropolis.Value.{Value, null, bool, int, float, str, other, list, dict}

-- The platform: two grammars of `ipaddress`, the file system, and `repr` of a list or dict.
pub record Platform : Type 0 where
  pub is_ipv6 : String → Bool
  pub is_network : String → Bool
  pub exists : String → Bool
  pub expanduser : String → String
  pub repr_of : Value → String

-- The number of at most three digits, with no leading zero.
octet_digits : ℕ → ℕ → String → Option ℕ
octet_digits seen acc String.[] = if leb 1 seen && leb seen 3 then some acc else none
octet_digits seen acc (String.◌∷◌ c s) =
    let rest = octet_digits (suc seen) (acc * 10 + (code c - b'0')) s in
    if is_digit (code c) && not (eqb acc 0 && leb 1 seen) then rest else none

octet : String → Option ℕ
unfolding octet_digits
octet s = elim (octet_digits 0 0 s) [ none ↦ none | some n ↦ if leb n 255 then some n else none ]

infixl 5 ◌>>=◌
abbrev ◌>>=◌ : {A B : Type 0} → Option A → (A → Option B) → Option B
none >>= f = none
some a >>= f = f a

four_octets : List String → Option (List ℕ)
unfolding octet
four_octets (a ∷ b ∷ c ∷ d ∷ []) = do
  w ← octet a
  x ← octet b
  y ← octet c
  z ← octet d
  some (w ∷ x ∷ y ∷ z ∷ [])
four_octets parts = none

-- The four octets of `ipaddress.IPv4Address(s)`; none where it raises ValueError.
unfoldable pub octets : String → Option (List ℕ)
unfolding four_octets split
octets s = four_octets (split b'.' s)

unfoldable pub decimal_ℤ : ℤ → String
unfolding decimal
decimal_ℤ (pos n) = decimal n
decimal_ℤ (negsuc n) = "-" <> decimal (suc n)

module _ (platform : Platform) where
  -- Whether `ipaddress.ip_address(s)` succeeds.
  unfoldable pub is_ip : String → Bool
  unfolding octets
  is_ip s = elim (octets s) [ some _ ↦ true | none ↦ platform.is_ipv6 s ]

  unfoldable pub is_valid_ip_or_cidr : String → Bool
  unfolding is_ip
  is_valid_ip_or_cidr v = is_ip v || platform.is_network v

  -- `str(v)`
  unfoldable pub str_of : Value → String
  unfolding decimal_ℤ
  str_of null = "None"
  str_of (bool true) = "True"
  str_of (bool false) = "False"
  str_of (int z) = decimal_ℤ z
  str_of (float whole is_zero shown) = shown
  str_of (str s) = s
  str_of (other s) = s
  str_of (list vs) = platform.repr_of (list vs)
  str_of (dict fs) = platform.repr_of (dict fs)

-- `f"{v!r}"`
unfoldable pub shown : Platform → Value → String
shown platform (str s) = quoted s
shown platform v = str_of platform v

-- Whether two IPv4 addresses have their first three octets in common.
unfoldable pub same_24 : List ℕ → List ℕ → Bool
same_24 (a ∷ b ∷ c ∷ _) (x ∷ y ∷ z ∷ _) = eqb a x && eqb b y && eqb c z
same_24 _ _ = false
