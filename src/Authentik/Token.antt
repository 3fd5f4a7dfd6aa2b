-- ===== src/Authentik/Token.antt =====
-- The bootstrap token in akropolis/phases/authentik_phase.py: `token_alive` and
-- `remint_bootstrap_token`. `repr` of a text is a parameter.
use akropolis.Base.{
  String, ◌<>◌, Bool, true, false, ◌&&◌, ◌==◌, string_eq, if◌then◌else◌, none, List, [], ◌∷◌,
}
use text.Mathlib.Text.{starts_with}
use akropolis.Base.Lines.{split_lines}
use akropolis.Base.Text.{strip, shell_quote}
use akropolis.Effects.{pure, ◌>>=◌, ◌>>◌}
use akropolis.Session.{Conn, Step, plain, add_check}
use akropolis.Session.Remote.{Remote, Reply, is_ok, run}
use akropolis.Session.Waiting.{occurs_in}

-- `lines[-1]` of the lines of a text that is not empty.
last_line : List String → String
last_line [] = ""
last_line (line ∷ []) = line
last_line (line ∷ next ∷ lines) = last_line (next ∷ lines)

-- `text.rsplit("OK ", 1)[-1]`: what follows the last occurrence.
unfoldable pub after_ok : String → String
unfolding occurs_in
after_ok String.[] = String.[]
after_ok (String.◌∷◌ c s) =
    let rest = after_ok s in
    if occurs_in "OK " s
    then rest
    else (if starts_with (String.◌∷◌ c s) "OK " then drop3 s else String.◌∷◌ c s)
  where
    drop3 : String → String
    drop3 (String.◌∷◌ k (String.◌∷◌ space t)) = t
    drop3 t = t

-- Its port is 9443.
unfoldable pub alive_cmd : String → String
unfolding shell_quote
alive_cmd token =
    "curl -sk -H "
    <> (shell_quote ("Authorization: Bearer " <> token)
        <> " -o /dev/null -w '%{http_code}' https://127.0.0.1:9443/api/v3/admin/version/")

unfoldable pub is_alive : Reply → Bool
unfolding strip
is_alive r = strip r.out == "200"

unfoldable pub shell_works : Reply → Bool
unfolding occurs_in
shell_works r = is_ok r && occurs_in "OK " r.out

-- The script, from `repr(token)`.
unfoldable pub mint_script : String → String
mint_script token =
    "try:\n    from authentik.core.models import Token, TokenIntents, User\nexcept Exception as e:\n    print('ERR import %s' % e); raise SystemExit(1)\nKEY = "
    <> (token
        <> "\nIDENT = 'akropolis-bootstrap'\nu = User.objects.filter(username='akadmin').first() or \\\n    User.objects.filter(is_active=True).order_by('pk').first()\nif u is None:\n    print('ERR no user in database'); raise SystemExit(1)\nToken.objects.filter(key=KEY).exclude(identifier=IDENT).delete()\nToken.objects.update_or_create(identifier=IDENT, defaults={\n    'user': u, 'intent': TokenIntents.INTENT_API, 'key': KEY,\n    'expiring': False, 'description': 'akropolis provisioning token'})\nprint('OK %s' % u.username)\n")

unfoldable pub mint_cmd : String → String
unfolding shell_quote
mint_cmd script =
    "cd /opt/authentik && docker compose exec -T worker ak shell -c " <> shell_quote script

-- `(r.out or r.err).splitlines()[-1] if (r.out or r.err) else "ak shell failed"`
unfoldable pub shell_detail : Reply → String
unfolding last_line split_lines
shell_detail r =
    let said = if r.out == "" then r.err else r.out in
    if said == "" then "ak shell failed" else last_line (split_lines said)

module _ {W : Type 0} (remote : Remote W) (repr : String → String) where
  -- `token_alive`
  unfoldable pub token_alive : Conn → (token : String) → Step W Bool
  token_alive conn token = do r ← run remote conn (alive_cmd token) none 30; pure (is_alive r)

  unfoldable pub after_mint : Conn → (token : String) → Reply → Step W Bool
  unfolding strip
  after_mint conn token r =
      if shell_works r
      then (do
        add_check (
            plain conn.node.name "bootstrap token re-minted" true (
              "attached to user "
              <> (repr (strip (after_ok r.out))
                  <> " — the token in state and in the monitor config keeps working")))
        token_alive conn token)
      else (do
        add_check (record {
          node = conn.node.name;
          name = "bootstrap token re-minted";
          ok = false;
          detail = shell_detail r;
          warn = true;
        })
        pure false)

  -- `remint_bootstrap_token`
  unfoldable pub remint_bootstrap_token : Conn → (token : String) → Step W Bool
  remint_bootstrap_token conn token = do
    r ← run remote conn (mint_cmd (mint_script (repr token))) none 180
    after_mint conn token r
