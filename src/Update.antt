-- ===== src/Update.antt =====
-- akropolis/update.py: the releases on GitHub, the cache of the check, and the running binary.
-- `B` is the type of byte strings.
pub mod Version
pub mod Precedence
pub mod Throttle
pub mod Install
pub mod Replacing
pub mod Safe
pub mod Done
pub mod Tests
use Prim.Native.Char.{code}
use akropolis.Base.{
  ℕ, ltb, eqb, ◌+◌, ◌*◌, String, Bool, true, false, not, ◌&&◌, ◌||◌, ◌==◌, string_eq, if◌then◌else◌,
  Option, none, some, List, [], ◌∷◌,
}
use akropolis.Value.{Value, null, str, list, dict, end, lookup_field, elements, truthy, get}
use akropolis.Effects.{
  Outcome, return, raise, exception, Raised, Action, pure, throw, and_then, ◌>>=◌, ◌>>◌,
}
use akropolis.Update.Version.{is_newer}

-- What `_write_cache` writes: the time of the last check, and the release that is known.
pub record Cache : Type 0 where
  pub last_checked : ℕ
  pub latest : Option String

-- `st_mode`, with its three bits for execution apart.
pub record Mode : Type 0 where
  pub bits : ℕ
  pub owner_runs : Bool
  pub group_runs : Bool
  pub others_run : Bool

-- `content` is none where a write has ended before its end.
pub record Program (B : Type 0) : Type 0 where
  pub content : Option B
  pub mode : Mode

-- `cache` is none for a missing or an unreadable file; `exe` is the file of `sys.argv[0]`, none
-- where there is none; `tmp` is the temporary file beside it.
pub record Machine (B W : Type 0) : Type 0 where
  pub cache : Option Cache
  pub exe : Option (Program B)
  pub tmp : Option (Program B)
  pub world : W

-- A call of the operating system.
pub data Syscall : Type 0 where
  stat mkstemp write chmod replace unlink : Syscall

-- `_download`: the body, an URLError, or another exception.
pub data Download (B : Type 0) : Type 0 where
  got : B → Download B
  url_error : Download B
  other_error : Raised → Download B

-- What urllib, json, hashlib, zipfile, time and os give. `fetch` is `_fetch_latest_release`, null
-- for None; `time` counts seconds; `cache_writes` says whether the file of the cache can be
-- written.
pub record Services (B W : Type 0) : Type 0 where
  pub fetch : (timeout : ℕ) → W → Value × W
  pub time : W → ℕ
  pub cache_writes : W → Bool
  pub download : String → W → Download B × W
  pub decode : B → Outcome String
  pub sha256 : B → String
  pub is_zipfile : B → Bool
  pub system : Syscall → W → Outcome (Unit {0}) × W

-- `CHECK_INTERVAL_SECONDS`
abbrev pub check_interval_seconds : ℕ
check_interval_seconds = 24 * 60 * 60

-- `CHECK_TIMEOUT_SECONDS`
abbrev pub check_timeout_seconds : ℕ
check_timeout_seconds = 3

-- `s.lstrip("v")`
unfoldable pub without_v : String → String
without_v String.[] = String.[]
without_v (String.◌∷◌ c s) =
    let rest = without_v s in if eqb (code c) b'v' then rest else String.◌∷◌ c s

tag_text : Option Value → Outcome String
unfolding without_v
tag_text none = return ""
tag_text (some (str s)) = return (without_v s)
tag_text (some _) = raise (exception "object has no attribute 'lstrip'")

-- `release.get("tag_name", "").lstrip("v")`
unfoldable pub tag_of : Value → Outcome String
unfolding tag_text lookup_field
tag_of (dict fields) = tag_text (lookup_field "tag_name" fields)
tag_of _ = raise (exception "object has no attribute 'get'")

-- `a or b`
unfoldable pub or_known : Option String → Option String → Option String
or_known none known = known
or_known (some s) known = if s == "" then known else some s

-- `_read_cache().get(...)`, with the defaults of the calls.
abbrev pub last_checked : Option Cache → ℕ
last_checked none = 0
last_checked (some c) = c.last_checked

abbrev pub known_latest : Option Cache → Option String
known_latest none = none
known_latest (some c) = c.latest

-- `latest and _is_newer(latest, current_version)`
unfoldable pub notice : String → Option String → Option String
notice current none = none
notice current (some latest) =
    if not (latest == "") && is_newer latest current then some latest else none

-- `release.get("tag_name", "").lstrip("v") if release else None`
unfoldable pub found_tag : Value → Outcome (Option String)
unfolding truthy
found_tag release =
    if truthy release
    then elim (tag_of release) [ return tag ↦ return (some tag) | raise e ↦ raise e ]
    else return none

-- `release is None`
abbrev pub is_null : Value → Bool
is_null null = true
is_null _ = false

module _ {B W : Type 0} (services : Services B W) where
  -- `_write_cache`
  unfoldable pub write_cache : Cache → Action (Machine B W) (Unit {0})
  write_cache c m =
      (return tt, if services.cache_writes m.world then record m { cache = some c } else m)

  unfoldable pub fetch_release : Action (Machine B W) Value
  fetch_release m =
      let (release, w) = services.fetch check_timeout_seconds m.world in
      (return release, record m { world = w })

  -- A value, or an exception, as a statement.
  abbrev pub give : {A : Type 0} → Outcome A → Action (Machine B W) A
  give o m = (o, m)

  -- The check over the network, of a cache that is too old.
  unfoldable pub refresh :
      (current : String) → Option Cache → (now : ℕ) → Action (Machine B W) (Option String)
  refresh current cache now = do
    release ← fetch_release
    tag ← give (found_tag release)
    let latest = or_known tag (known_latest cache)
    write_cache (record { last_checked = now; latest = latest })
    pure (notice current latest)

  -- `check_for_update`
  unfoldable pub check_for_update : String → Action (Machine B W) (Option String)
  check_for_update current m =
      let now = services.time m.world in
      if ltb now (last_checked m.cache + check_interval_seconds)
      then (return (notice current (known_latest m.cache)), m)
      else refresh current m.cache now m

  -- The latest version, or the exit code `failed` where there is no answer or none in it.
  unfoldable pub with_latest :
      ℕ → (Value → String → Action (Machine B W) ℕ) → Value → Action (Machine B W) ℕ
  with_latest failed go release =
      if is_null release
      then pure failed
      else (give (tag_of release) >>= λ latest.
          if latest == "" then pure failed else go release latest)

  -- What `check_update_now` does with a version.
  unfoldable pub tell : (current : String) → Value → String → Action (Machine B W) ℕ
  tell current release latest m =
      (write_cache (record { last_checked = services.time m.world; latest = some latest })
          >> pure (if is_newer latest current then 1 else 0))
        m

  -- `check_update_now`
  unfoldable pub check_update_now : String → Action (Machine B W) ℕ
  check_update_now current = fetch_release >>= with_latest 2 (tell current)
