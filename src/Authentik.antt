-- ===== src/Authentik.antt =====
-- akropolis/phases/authentik_phase.py: the applied image tag, the gates and the verification.
pub mod Token
pub mod Tagged
pub mod Reachable
pub mod Tests
use akropolis.Base.{
  ℕ, String, ◌<>◌, Bool, true, false, not, ◌&&◌, ◌||◌, ◌==◌, string_eq, if◌then◌else◌, Option, none,
  some, List, [], ◌∷◌,
}
use akropolis.Base.Dict
use akropolis.Value.{Value, str}
use akropolis.State.{State, mark_phase}
use akropolis.Effects.{return, pure, ◌>>=◌, ◌>>◌}
use akropolis.Session.{Conn, Session, Step, plain, add_check}
use akropolis.Session.Remote.{Remote, Reply, run}
use akropolis.Session.Waiting.{wait_for, wait_healthy}
use akropolis.Session.Loops.{first_conn, all_nodes}
use akropolis.Session.Pinned.{as_text}
use akropolis.Authentik.Token.{token_alive, remint_bootstrap_token}

-- `previous_tag`
unfoldable pub previous_tag : String → State → Option String
previous_tag phase_name s =
    Dict.lookup "authentik_tag" (Dict.get_or phase_name [] s.document.phases)

-- `pin_applied_tag`, at the time `now`.
unfoldable pub pin_applied_tag : (now phase_name tag : String) → State → State
pin_applied_tag now phase_name tag s =
    mark_phase now phase_name "applying" (("authentik_tag", tag) ∷ []) s

warning_text : (old new_tag : String) → String
warning_text old new_tag =
    "[yellow]authentik.tag changed: "
    <> (old
        <> (" -> "
            <> (new_tag
                <> ("[/yellow] — triggers a rolling upgrade with DB migrations on container start (no rollback). Back up first (restore.sql_file / pg_dump) and check Authentik's release notes for the "
                    <> (old
                        <> (" -> "
                            <> (new_tag
                                <> " path — some jumps require an intermediate version.")))))))

-- `old and old != new_tag`
unfoldable pub warning_for : Option String → String → Option String
unfolding warning_text
warning_for none new_tag = none
warning_for (some old) new_tag =
    if not (old == "") && not (old == new_tag) then some (warning_text old new_tag) else none

-- `tag_change_warning`
unfoldable pub tag_change_warning : (phase_name new_tag : String) → State → Option String
tag_change_warning phase_name new_tag s = warning_for (previous_tag phase_name s) new_tag

-- `one_healthy_cmd`
unfoldable pub one_healthy_cmd : String → String
one_healthy_cmd container =
    "[ \"$(docker inspect -f '{{.State.Health.Status}}' "
    <> (container <> " 2>/dev/null)\" = healthy ]")

abbrev pub ready_cmd : String
ready_cmd = "curl -sk -o /dev/null -w '%{http_code}' https://127.0.0.1:9443/-/health/ready/"

abbrev pub is_ready : Reply → Bool
is_ready r = r.out == "200" || r.out == "204"

module _ {W : Type 0} (remote : Remote W) (repr : String → String) where
  -- `wait_one_healthy`
  unfoldable pub wait_one_healthy : Conn → (container : String) → (timeout : ℕ) → Step W Bool
  wait_one_healthy conn container timeout =
      wait_for remote conn (one_healthy_cmd container) none timeout 10

  unfoldable pub record_ready : Conn → Bool → Reply → Step W Bool
  record_ready conn good r = do
    add_check (plain conn.node.name "verify: /-/health/ready/" (is_ready r) ("HTTP " <> r.out))
    pure (good && is_ready r)

  unfoldable pub check_health : Conn → Step W Bool
  check_health conn = do
    good ← wait_healthy remote conn 60
    add_check (plain conn.node.name "verify: containers healthy" good "")
    r ← run remote conn ready_cmd none 30
    record_ready conn good r

  -- A token that is rejected is minted again, once.
  unfoldable pub recover : Conn → (token : String) → Bool → Step W Bool
  recover first token true = pure true
  recover first token false = do
    add_check (record {
      node = "cluster";
      name = "verify: API with bootstrap token";
      ok = false;
      detail = "token rejected — attempting to re-mint it into the live database before failing";
      warn = true;
    })
    remint_bootstrap_token remote repr first token

  unfoldable pub check_api : Conn → (token : String) → Step W Bool
  check_api first token = do
    alive ← token_alive remote repr first token
    api ← recover first token alive
    add_check (
        plain "cluster" "verify: API with bootstrap token" api (
          if api
          then ""
          else "token rejected and re-mint did not recover it — create one by hand (akadmin > Directory > Tokens, admin scope) and put it in the monitor config, or fix `ak shell` access and --replay authentik"))
    pure api

  unfoldable pub bootstrap_token : Session W → Value
  bootstrap_token s = Dict.get_or "authentik_bootstrap_token" (str "") s.state.document.generated

  unfoldable pub verify_api : List Conn → Bool → Step W Bool
  verify_api conns ok s =
      (do
        first ← first_conn conns
        token ← as_text (bootstrap_token s)
        api ← check_api first token
        pure (ok && api))
        s

  -- `verify`
  unfoldable pub verify : Step W Bool
  verify s = (all_nodes check_health true s.fleet.conns >>= verify_api s.fleet.conns) s
