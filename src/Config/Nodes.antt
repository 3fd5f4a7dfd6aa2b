-- ===== src/Config/Nodes.antt =====
-- The nodes part of `load` (akropolis/config.py).
use akropolis.Base.{
  ℕ, ◌+◌, String, ◌<>◌, Bool, true, false, not, string_eq, if◌then◌else◌, contains, Option, none,
  some, List, [], ◌∷◌, ◌++◌, eqb, ltb, length, keep,
}
use akropolis.Base.Text.{decimal}
use akropolis.Value.{Value, null, bool, str, list, dict, elements, get, or_else, truthy, is_text}
use akropolis.Config.{Node}
use akropolis.Config.Address.{Platform, is_ip, str_of}
use akropolis.Config.Problems.{
  Problem, node_count, node_ip_invalid, node_ip_duplicate, several_leaders, Load, ok, crash, ◌>>=◌,
}

abbrev pub report : Bool → Problem → List Problem
report bad p = if bad then p ∷ [] else []

-- `raw.get("nodes") or []`; what is neither falsy nor a list fails at `n.get`.
unfoldable pub node_values : Value → Load (List Value)
unfolding truthy elements
node_values (list vs) = ok (elements vs)
node_values v = if truthy v then crash else ok []

unfoldable pub expected_node_count : Value → ℕ
expected_node_count topology = if is_text topology "single" then 1 else 3

module _ (platform : Platform) where
  -- One node: `n.get("name") or f"node-{i + 1}"`, and `str(n.get("ip", ""))`.
  unfoldable pub node_at : ℕ → Value → Load Node
  unfolding or_else truthy get str_of decimal
  node_at i (dict fs) = ok (record {
    name = str_of platform (or_else (get (dict fs) "name" null) (str ("node-" <> decimal (i + 1))));
    ip = str_of platform (get (dict fs) "ip" (str ""));
    bootstrap_leader = truthy (get (dict fs) "bootstrap_leader" (bool false));
  })
  node_at i v = crash

  unfoldable pub nodes_from : ℕ → List Value → Load (List Node)
  nodes_from i [] = ok []
  nodes_from i (v ∷ vs) = do n ← node_at i v; ns ← nodes_from (i + 1) vs; ok (n ∷ ns)

  -- The checks of the loop over the nodes, with the addresses seen so far.
  unfoldable pub address_problems : ℕ → List String → List Node → List Problem
  unfolding is_ip
  address_problems i seen [] = []
  address_problems i seen (n ∷ ns) =
      report (not (is_ip platform n.ip)) (node_ip_invalid i n.name n.ip)
      ++ (report (contains seen n.ip) (node_ip_duplicate i n.name n.ip)
          ++ address_problems (i + 1) (n.ip ∷ seen) ns)

-- `[n for n in nodes if n.bootstrap_leader]`
abbrev pub leaders : List Node → List Node
leaders = keep (λ n. n.bootstrap_leader)

unfoldable pub promote_first : List Node → List Node
promote_first [] = []
promote_first (n ∷ ns) = record n { bootstrap_leader = true } ∷ ns

-- The first node leads unless one is named.
unfoldable pub with_leader : List Node → List Node
unfolding promote_first
with_leader nodes = if eqb (length (leaders nodes)) 0 then promote_first nodes else nodes

unfoldable pub leader_problems : List Node → List Problem
leader_problems nodes = report (ltb 1 (length (leaders nodes))) several_leaders

unfoldable pub count_problems : Value → List Value → List Problem
unfolding expected_node_count
count_problems topology values =
    report (not (eqb (length values) (expected_node_count topology)))
      (node_count topology (expected_node_count topology) (length values))

-- `next(n for n in self.nodes if n.bootstrap_leader)`; none is a StopIteration.
unfoldable pub bootstrap_leader : List Node → Option Node
bootstrap_leader [] = none
bootstrap_leader (n ∷ ns) =
    let rest = bootstrap_leader ns in if n.bootstrap_leader then some n else rest
