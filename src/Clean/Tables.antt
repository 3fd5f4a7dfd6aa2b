-- ===== src/Clean/Tables.antt =====
-- The tables of akropolis/phases/clean_phase.py: a label and a command for each step.
use akropolis.Base.{String, List, [], ◌∷◌}

-- `STEPS`
unfoldable pub steps : List (String × String)
steps =
    (
      "keepalived down (VIP released)",
      "systemctl disable --now keepalived 2>/dev/null; rm -f /etc/keepalived/keepalived.conf; true",
    )
    ∷ (
      "nginx down + removed",
      "cd /opt/nginx 2>/dev/null && docker compose down -v 2>/dev/null; rm -rf /opt/nginx; true",
    )
    ∷ (
      "authentik down + removed",
      "systemctl disable --now authentik-compose 2>/dev/null; cd /opt/authentik 2>/dev/null && docker compose down -v 2>/dev/null; rm -rf /opt/authentik /etc/systemd/system/authentik-compose.service; systemctl daemon-reload; true",
    )
    ∷ (
      "haproxy down + removed",
      "cd /opt/haproxy 2>/dev/null && docker compose down -v 2>/dev/null; rm -rf /opt/haproxy; true",
    )
    ∷ (
      "patroni + postgres data removed",
      "systemctl disable --now patroni 2>/dev/null; rm -rf /etc/patroni /var/lib/postgresql/16/patroni /opt/patroni /etc/systemd/system/patroni.service; systemctl daemon-reload; true",
    )
    ∷ (
      "etcd down + data removed",
      "cd /opt/etcd 2>/dev/null && docker compose down -v 2>/dev/null; rm -rf /opt/etcd; true",
    )
    ∷ (
      "TLS material removed",
      "rm -rf /etc/letsencrypt /var/www/certbot /root/.ssh/id_ed25519_certbot /root/.ssh/id_ed25519_certbot.pub; test -f /root/.ssh/authorized_keys && sed -i '/# akropolis-certbot/d' /root/.ssh/authorized_keys; true",
    )
    ∷ (
      "ufw reset (ssh re-allowed, left enabled)",
      "ufw --force reset && ufw default deny incoming && ufw default allow outgoing && ufw allow ssh && ufw --force enable",
    )
    ∷ (
      "/etc/hosts akropolis block removed",
      "sed -i '/# BEGIN akropolis/,/# END akropolis/d' /etc/hosts",
    )
    ∷ (
      "restore-dump leftovers removed",
      "rm -f /tmp/akropolis-restore-*.sql /tmp/akropolis-restore-*.sql.gz",
    )
    ∷ []

-- `STEPS_SINGLE`
unfoldable pub steps_single : List (String × String)
steps_single =
    (
      "nginx down + removed",
      "systemctl disable --now nginx 2>/dev/null; rm -f /etc/nginx/sites-available/akropolis.conf /etc/nginx/sites-enabled/akropolis.conf; rm -rf /etc/nginx/akropolis-certs /var/www/akropolis-certbot /var/www/akropolis-maintenance; true",
    )
    ∷ (
      "authentik + postgres down + removed (incl. named volume)",
      "systemctl disable --now authentik-compose 2>/dev/null; cd /opt/authentik 2>/dev/null && docker compose down -v 2>/dev/null; rm -rf /opt/authentik /etc/systemd/system/authentik-compose.service; systemctl daemon-reload; true",
    )
    ∷ ("TLS material removed", "rm -rf /etc/letsencrypt /var/www/certbot; true")
    ∷ (
      "akropolis-backup-fw removed (DOCKER-USER rules cleaned up)",
      "systemctl disable --now akropolis-backup-fw 2>/dev/null; /opt/akropolis/backup-fw.sh 2>/dev/null; rm -f /etc/systemd/system/akropolis-backup-fw.service /opt/akropolis/backup-fw.sh; rmdir /opt/akropolis 2>/dev/null; systemctl daemon-reload; true",
    )
    ∷ (
      "ufw reset (ssh re-allowed, left enabled)",
      "ufw --force reset && ufw default deny incoming && ufw default allow outgoing && ufw allow ssh && ufw --force enable",
    )
    ∷ (
      "/etc/hosts akropolis block removed",
      "sed -i '/# BEGIN akropolis/,/# END akropolis/d' /etc/hosts",
    )
    ∷ (
      "restore-dump leftovers removed",
      "rm -f /tmp/akropolis-restore-*.sql /tmp/akropolis-restore-*.sql.gz",
    )
    ∷ []

-- `GONE`
unfoldable pub gone : List (String × String)
gone =
    ("/opt/authentik", "test ! -e /opt/authentik")
    ∷ ("authentik-compose unit", "test ! -e /etc/systemd/system/authentik-compose.service")
    ∷ ("/opt/nginx", "test ! -e /opt/nginx")
    ∷ ("/opt/haproxy", "test ! -e /opt/haproxy")
    ∷ ("/opt/etcd", "test ! -e /opt/etcd")
    ∷ ("/etc/patroni", "test ! -e /etc/patroni")
    ∷ ("postgres data dir", "test ! -e /var/lib/postgresql/16/patroni")
    ∷ ("patroni unit", "test ! -e /etc/systemd/system/patroni.service")
    ∷ ("keepalived conf", "test ! -e /etc/keepalived/keepalived.conf")
    ∷ ("keepalived inactive", "! systemctl is-active --quiet keepalived")
    ∷ (
      "no ak containers",
      "test -z \"$(docker ps -aq 2>/dev/null --filter name='authentik|nginx|haproxy|etcd')\"",
    )
    ∷ []

-- `GONE_SINGLE`
unfoldable pub gone_single : List (String × String)
gone_single =
    ("/opt/authentik", "test ! -e /opt/authentik")
    ∷ ("authentik-compose unit", "test ! -e /etc/systemd/system/authentik-compose.service")
    ∷ ("no ak containers", "test -z \"$(docker ps -aq 2>/dev/null --filter name='authentik')\"")
    ∷ ("nginx config removed", "test ! -e /etc/nginx/sites-enabled/akropolis.conf")
    ∷ ("nginx inactive", "! systemctl is-active --quiet nginx")
    ∷ (
      "akropolis-backup-fw unit removed",
      "test ! -e /etc/systemd/system/akropolis-backup-fw.service",
    )
    ∷ (
      "no akropolis-backup DOCKER-USER rules",
      "! iptables -S DOCKER-USER 2>/dev/null | grep -q -- '--comment akropolis-backup'",
    )
    ∷ []
