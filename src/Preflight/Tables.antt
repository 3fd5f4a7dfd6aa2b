-- ===== src/Preflight/Tables.antt =====
-- The tables of akropolis/phases/preflight.py and akropolis/config.py, and the sets of ports.
use akropolis.Base.{
  ℕ, ℤ, pos, negsuc, leb, eqb, String, ◌<>◌, Bool, true, false, not, ◌&&◌, ◌||◌, ◌==◌, string_eq,
  if◌then◌else◌, none, some, List, [], ◌∷◌, ◌++◌, any, keep, map,
}
use akropolis.Base.Lines.{split_lines, join}
use akropolis.Base.Text.{int_of_text, decimal}
use Prim.Native.Char.{code}

-- `REQUIRED_FREE_PORTS` and `REQUIRED_FREE_PORTS_SINGLE`
abbrev pub required_free_ports : List ℕ
required_free_ports =
    80 ∷ 443 ∷ 2379 ∷ 2380 ∷ 5432 ∷ 5000 ∷ 5001 ∷ 8008 ∷ 9000 ∷ 9080 ∷ 9081 ∷ 9300 ∷ 9301 ∷ 9443
    ∷ []

abbrev pub required_free_ports_single : List ℕ
required_free_ports_single = 80 ∷ 443 ∷ 9000 ∷ 9443 ∷ []

-- `PHASES_BY_TOPOLOGY`
abbrev pub ha_phases : List String
ha_phases =
    "base" ∷ "etcd" ∷ "patroni" ∷ "haproxy" ∷ "tls" ∷ "nginx-keepalived" ∷ "authentik" ∷ "restore"
    ∷ "handoff" ∷ []

abbrev pub single_phases : List String
single_phases = "base" ∷ "authentik" ∷ "nginx" ∷ "restore" ∷ "handoff" ∷ []

ha_ports : String → List ℕ
ha_ports name =
    if name == "etcd"
    then 2379 ∷ 2380 ∷ []
    else if name == "patroni"
    then 5432 ∷ 8008 ∷ []
    else if name == "haproxy"
    then 5000 ∷ 5001 ∷ 9000 ∷ []
    else if name == "nginx-keepalived"
    then 80 ∷ 443 ∷ []
    else if name == "authentik"
    then 9080 ∷ 9081 ∷ 9300 ∷ 9301 ∷ 9443 ∷ []
    else []

single_ports : String → List ℕ
single_ports name =
    if name == "authentik" then 9000 ∷ 9443 ∷ [] else if name == "nginx" then 80 ∷ 443 ∷ [] else []

-- `PHASE_PORTS.get(topology, {}).get(name, set())`
unfoldable pub phase_ports : (ha : Bool) → String → List ℕ
unfolding ha_ports single_ports
phase_ports true name = ha_ports name
phase_ports false name = single_ports name

-- `[PHASE_CONTAINERS[p] ...] if p in PHASE_CONTAINERS`
unfoldable pub phase_container : String → List String
phase_container name =
    if name == "etcd"
    then "etcd" ∷ []
    else if name == "haproxy"
    then "haproxy" ∷ []
    else if name == "nginx-keepalived"
    then "nginx" ∷ []
    else if name == "authentik"
    then "authentik" ∷ []
    else []

module _ {A B : Type 0} where
  -- The union over a list.
  abbrev pub gather : (A → List B) → List A → List B
  gather f [] = []
  gather f (x ∷ xs) = f x ++ gather f xs

abbrev pub has_port : List ℕ → ℕ → Bool
has_port ports p = any (λ q. eqb q p) ports

is_same_ℤ : ℤ → ℕ → Bool
is_same_ℤ (pos n) p = eqb n p
is_same_ℤ (negsuc n) p = false

-- Whether the set of the numbers read has the port.
unfoldable pub listens : List ℤ → ℕ → Bool
unfolding is_same_ℤ
listens numbers p = any (λ z. is_same_ℤ z p) numbers

has_colon : String → Bool
has_colon String.[] = false
has_colon (String.◌∷◌ c s) = eqb (code c) b':' || has_colon s

-- `addr.rsplit(":", 1)[-1]`
unfoldable pub after_colon : String → String
unfolding has_colon
after_colon String.[] = String.[]
after_colon (String.◌∷◌ c s) =
    let rest = after_colon s in
    if has_colon s then rest else if eqb (code c) b':' then s else String.◌∷◌ c s

numbers_of : List String → List ℤ
unfolding after_colon int_of_text
numbers_of [] = []
numbers_of (line ∷ lines) = elim (int_of_text (after_colon line)) [
  | some z ↦ z ∷ numbers_of lines
  | none ↦ numbers_of lines
]

-- The numbers after the colons, without those lines for which `int` raises ValueError.
unfoldable pub listening_ports : String → List ℤ
unfolding numbers_of split_lines
listening_ports out = numbers_of (split_lines out)

unfoldable pub put_in_order : ℕ → List ℕ → List ℕ
put_in_order p [] = p ∷ []
put_in_order p (q ∷ qs) = let rest = put_in_order p qs in if leb p q then p ∷ q ∷ qs else q ∷ rest

-- `sorted(ports)`
unfoldable pub sorted : List ℕ → List ℕ
unfolding put_in_order
sorted [] = []
sorted (p ∷ ps) = put_in_order p (sorted ps)

-- `sorted((set(required) & listening) - expected)`; the required ports are different.
unfoldable pub occupied_ports : (required : List ℕ) → List ℤ → (expected : List ℕ) → List ℕ
unfolding sorted listens
occupied_ports required listening expected =
    sorted (keep (λ p. listens listening p && not (has_port expected p)) required)

-- `sorted(set(required) & listening & expected)`
unfoldable pub owned_ports : (required : List ℕ) → List ℤ → (expected : List ℕ) → List ℕ
unfolding sorted listens
owned_ports required listening expected =
    sorted (keep (λ p. listens listening p && has_port expected p) required)

-- `f"{ports}"` of a list of integers.
unfoldable pub shown_ports : List ℕ → String
unfolding join decimal
shown_ports ports = "[" <> (join ", " (map decimal ports) <> "]")

abbrev pub no_ports : List ℕ → Bool
no_ports [] = true
no_ports (p ∷ ps) = false

unfoldable pub ports_detail : (occupied owned : List ℕ) → String
unfolding shown_ports
ports_detail occupied owned =
    (if no_ports occupied then "all free" else "occupied: " <> shown_ports occupied)
    <> (if no_ports owned
        then ""
        else " (ignoring " <> (shown_ports owned <> " — owned by completed phases)"))
