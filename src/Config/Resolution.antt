-- ===== src/Config/Resolution.antt =====
-- The addresses and the publication of PostgreSQL that akropolis/config.py resolves from a loaded
-- file and from what an earlier run pinned in the state.
use akropolis.Base.{
  ◌≡◌, ◌≢◌, refl, String, Bool, true, false, not, ◌||◌, ◌==◌, string_eq, if◌then◌else◌, Option,
  none, some, List, [], ◌∷◌, map, keep, arith, Bool-cases, inl, inr,
}
use akropolis.Base.Dict
use akropolis.Base.Dict.{Dict}
use akropolis.Value.{
  Value, null, bool, str, list, dict, nil, Fields, end, field, elements, truthy, or_else,
}
use akropolis.Config.Address.{Platform}
use akropolis.Config.Sections.{get_key}
use akropolis.Config.Allowances.{entries}
use akropolis.Config.Problems.{Load, ok, crash, ◌>>=◌, >>=-eq-ok}

keys : Fields → List Value
keys end = []
keys (field k v fs) = str k ∷ keys fs

characters : String → List Value
characters String.[] = []
characters (String.◌∷◌ c s) = str (String.◌∷◌ c String.[]) ∷ characters s

-- What `for v in` gives; TypeError for what is no collection.
unfoldable pub iterate : Value → Load (List Value)
unfolding elements keys characters
iterate (list vs) = ok (elements vs)
iterate (dict fs) = ok (keys fs)
iterate (str s) = ok (characters s)
iterate v = crash

-- `generated.get(key)`, with None for a missing key.
unfoldable pub pinned : String → Dict Value → Value
unfolding Dict.get_or
pinned key generated = Dict.get_or key null generated

-- Whether a list of texts is true.
abbrev pub is_filled : List String → Bool
is_filled [] = false
is_filled (x ∷ xs) = true

-- `None if v is None else bool(v)`
unfoldable pub optional_bool : Value → Option Bool
optional_bool null = none
optional_bool v = some (truthy v)

unfoldable pub backup_localhost_from_raw : Value → Load (Option Bool)
backup_localhost_from_raw raw = do
  backup ← get_key raw "backup"
  value ← get_key (or_else backup (dict end)) "localhost"
  ok (optional_bool value)

abbrev is_some : Option Bool → Bool
is_some none = false
is_some (some b) = true

-- What an earlier run pinned, in its two spellings.
unfoldable pub pinned_monitor : Dict Value → Load (List Value)
pinned_monitor generated =
    if truthy (pinned "monitor_ips" generated)
    then iterate (pinned "monitor_ips" generated)
    else (if truthy (pinned "monitor_ip" generated)
        then ok (pinned "monitor_ip" generated ∷ [])
        else ok [])

-- `if backup_localhost_from_raw(raw): return []`, then the pinned addresses.
unfoldable pub pinned_backup : Dict Value → Option Bool → Load (List Value)
pinned_backup generated (some true) = ok []
pinned_backup generated _ =
    if truthy (pinned "backup_ips" generated)
    then iterate (pinned "backup_ips" generated)
    else ok []

unfoldable pub pinned_localhost : Dict Value → Option Bool → Load Bool
pinned_localhost generated (some answer) = ok answer
pinned_localhost generated none = ok (
    if truthy (pinned "backup_ips" generated)
    then false
    else truthy (Dict.get_or "backup_localhost" (bool false) generated))

pinned_apart :
    (generated : Dict Value) (answer : Option Bool)
    → pinned_localhost generated answer ≡ ok true
    → pinned_backup generated answer ≡ ok []
unfolding pinned_localhost pinned_backup
pinned_apart generated (some true) h = refl
pinned_apart generated (some false) h = ground arith
pinned_apart generated none h = ground arith

module _ (platform : Platform) where
  -- `[str(v).strip() for v in (block.get("ips") or []) if str(v).strip()]`
  unfoldable pub ips_from : Value → Load (List String)
  ips_from block = do
    value ← get_key block "ips"
    values ← iterate (or_else value (list nil))
    ok (keep (λ e. not (e == "")) (entries platform values))

  unfoldable pub monitor_ips_from_raw : Value → Load (List String)
  monitor_ips_from_raw raw = do
    monitor ← get_key raw "monitor"
    ips_from (or_else monitor (dict end))

  unfoldable pub backup_ips_from_raw : Value → Load (List String)
  backup_ips_from_raw raw = do backup ← get_key raw "backup"; ips_from (or_else backup (dict end))

  -- The second call is made where the first gives no address.
  unfoldable pub backup_answered_in_config : Value → Load Bool
  backup_answered_in_config raw = do
    ips ← backup_ips_from_raw raw
    localhost ← if is_filled ips then ok none else backup_localhost_from_raw raw
    ok (is_filled ips || is_some localhost)

  unfoldable pub resolved_monitor_ips : Value → Dict Value → Load (List Value)
  resolved_monitor_ips raw generated = do
    ips ← monitor_ips_from_raw raw
    if is_filled ips then ok (map str ips) else pinned_monitor generated

  unfoldable pub resolved_backup_ips : Value → Dict Value → Load (List Value)
  resolved_backup_ips raw generated = do
    ips ← backup_ips_from_raw raw
    if is_filled ips
        then ok (map str ips)
        else (backup_localhost_from_raw raw >>= pinned_backup generated)

  unfoldable pub resolved_backup_localhost : Value → Dict Value → Load Bool
  resolved_backup_localhost raw generated = do
    ips ← backup_ips_from_raw raw
    if is_filled ips
        then ok false
        else (backup_localhost_from_raw raw >>= pinned_localhost generated)

  false_ne_true : ok false ≢ ok true
  false_ne_true = ground arith

  -- Where the publication of PostgreSQL on loopback resolves to true, no address resolves for it:
  -- it is never published in both ways.
  pub resolved_apart :
      (raw : Value) (generated : Dict Value)
      → resolved_backup_localhost raw generated ≡ ok true
      → resolved_backup_ips raw generated ≡ ok []
  unfolding resolved_backup_localhost resolved_backup_ips
  resolved_apart raw generated h =
      let (ips, found, h1) = >>=-eq-ok (backup_ips_from_raw raw) _ h in
      elim (Bool-cases (is_filled ips)) [
        | inl filled ↦ absurd (false_ne_true (rw filled at h1))
        | inr blank ↦
            let (answer, given, h2) =
              >>=-eq-ok (backup_localhost_from_raw raw) (pinned_localhost generated)
                (rw blank at h1) in
            rw (found, blank, given) (pinned_apart generated answer h2)
      ]
