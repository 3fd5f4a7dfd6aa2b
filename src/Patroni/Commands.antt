-- ===== src/Patroni/Commands.antt =====
-- The commands of akropolis/phases/patroni_phase.py, and what their replies are read for.
use akropolis.Base.{
  ℕ, zero, suc, ◌-◌, ◌+◌, eqb, leb, String, ◌<>◌, Bool, not, ◌&&◌, ◌==◌, string_eq, if◌then◌else◌,
  List, [], ◌∷◌,
}
use akropolis.Base.Lines.{split_lines}
use akropolis.Base.Text.{shell_quote}
use text.Mathlib.Text.{starts_with}
use akropolis.Session.Remote.{Reply, is_ok}

-- `PG_INSTALL`
unfoldable pub pg_install : String
pg_install =
    "\nif ! test -x /usr/lib/postgresql/16/bin/postgres; then\n  curl -fsSL https://www.postgresql.org/media/keys/ACCC4CF8.asc \\\n    | gpg --dearmor --yes -o /etc/apt/keyrings/postgresql.gpg\n  echo \"deb [signed-by=/etc/apt/keyrings/postgresql.gpg] \\\nhttps://apt.postgresql.org/pub/repos/apt $(lsb_release -cs)-pgdg main\" \\\n    > /etc/apt/sources.list.d/pgdg.list\n  apt-get -qq update\n  DEBIAN_FRONTEND=noninteractive apt-get -y -qq install postgresql-16 postgresql-client-16\nfi\nsystemctl stop postgresql 2>/dev/null; systemctl disable postgresql 2>/dev/null; true\n"

-- `PATRONI_INSTALL`
unfoldable pub patroni_install : String
patroni_install =
    "\ntest -x /opt/patroni/bin/patroni || {\n  python3 -m venv /opt/patroni\n  /opt/patroni/bin/pip install --quiet --upgrade pip\n  /opt/patroni/bin/pip install --quiet 'patroni[etcd3]' psycopg2-binary\n}\nmkdir -p /etc/patroni /var/lib/postgresql/16/patroni\nchown postgres:postgres /var/lib/postgresql/16/patroni\nchmod 700 /var/lib/postgresql/16/patroni\n"

-- `ROLE_CMD`
unfoldable pub role_cmd : String
role_cmd = "curl -s http://127.0.0.1:8008/patroni | jq -r '.role + \" \" + .state'"

abbrev pub enable_patroni : String
enable_patroni = "systemctl enable --now patroni"

abbrev pub primary_cmd : String
primary_cmd = "curl -s -o /dev/null -w '%{http_code}' http://127.0.0.1:8008/primary"

unfoldable pub streaming_cmd : String
unfolding role_cmd
streaming_cmd = role_cmd <> " | grep -E 'replica (running|streaming)'"

abbrev pub list_cmd : String
list_cmd = "/opt/patroni/bin/patronictl -c /etc/patroni/config.yml list 2>&1"

abbrev pub role_exists_cmd : String
role_exists_cmd =
    "sudo -u postgres psql -h /var/run/postgresql -p 5432 -tAc \"SELECT 1 FROM pg_roles WHERE rolname='authentik'\""

abbrev pub database_exists_cmd : String
database_exists_cmd =
    "sudo -u postgres psql -h /var/run/postgresql -p 5432 -tAc \"SELECT 1 FROM pg_database WHERE datname='authentik'\""

abbrev pub create_database_cmd : String
create_database_cmd =
    "sudo -u postgres psql -h /var/run/postgresql -p 5432 -v ON_ERROR_STOP=1 -c 'CREATE DATABASE authentik OWNER authentik'"

-- `s.replace("'", "''")`
double_quotes : String → String
double_quotes String.[] = String.[]
double_quotes (String.◌∷◌ c s) =
    let rest = double_quotes s in
    if eqb (Prim.Native.Char.code c) 39 then "''" <> rest else String.◌∷◌ c rest

-- The command that makes the role.
unfoldable pub create_role_cmd : String → String
unfolding double_quotes shell_quote
create_role_cmd password =
    "sudo -u postgres psql -h /var/run/postgresql -p 5432 -v ON_ERROR_STOP=1 -c "
    <> shell_quote (
        "DO $$ BEGIN IF NOT EXISTS (SELECT FROM pg_roles WHERE rolname='authentik') THEN CREATE ROLE authentik LOGIN PASSWORD '"
        <> (double_quotes password <> "'; END IF; END $$;"))

text_length : String → ℕ
text_length String.[] = 0
text_length (String.◌∷◌ c s) = suc (text_length s)

-- The places where `part` stands, after `left` more characters.
count_from : String → ℕ → String → ℕ
unfolding text_length
count_from part left String.[] = 0
count_from part (suc left) (String.◌∷◌ c s) = count_from part left s
count_from part zero (String.◌∷◌ c s) =
    let more = count_from part (text_length part - 1) s in
    let none_here = count_from part zero s in
    if starts_with (String.◌∷◌ c s) part then suc more else none_here

-- `s.count(part)` of a part that is not empty: places that do not overlap.
unfoldable pub count_in : String → String → ℕ
unfolding count_from
count_in s part = count_from part zero s

-- What `patronictl list` says: one leader, two replicas, three members that run.
abbrev pub leaders_of : String → ℕ
leaders_of out = count_in out " Leader "

abbrev pub replicas_of : String → ℕ
replicas_of out = count_in out " Replica " + count_in out " Sync Standby "

abbrev pub running_of : String → ℕ
running_of out = count_in out "running" + count_in out "streaming"

unfoldable pub is_formed : Reply → Bool
is_formed r =
    is_ok r && (eqb (leaders_of r.out) 1 && (eqb (replicas_of r.out) 2 && leb 3 (running_of r.out)))

-- `lines[-1]`
last_line : List String → String
last_line [] = ""
last_line (line ∷ []) = line
last_line (line ∷ next ∷ lines) = last_line (next ∷ lines)

-- `r.err.splitlines()[-1] if (not r.ok and r.err) else ""`
unfoldable pub last_error : Reply → String
unfolding last_line split_lines
last_error r = if not (is_ok r) && not (r.err == "") then last_line (split_lines r.err) else ""
