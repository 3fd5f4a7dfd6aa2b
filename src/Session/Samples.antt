-- ===== src/Session/Samples.antt =====
-- Nodes for the tests, over a clock in milliseconds: each command takes five of them, and every
-- node gives the same reply.
use akropolis.Base.{ℕ, ◌+◌, ◌*◌, String, true, pos, none, List, [], ◌∷◌, arith}
use akropolis.Value.{null, str, dict, end}
use akropolis.Config.{SiteConfig}
use akropolis.Effects.{return}
use akropolis.State.{fresh_data}
use akropolis.State.Saving.{Data}
use akropolis.Session.{Conn, Session}
use akropolis.Session.Remote.{Remote, Reply}
use akropolis.Session.Clock.{IsMonotonic}

abbrev pub answering : Reply → Remote ℕ
answering reply = record {
  connect = λ conn w. (return tt, w + 5);
  exec = λ conn cmd stdin timeout w. (return reply, w + 5);
  now = λ w. "2026-01-01T00:00:00+0000";
  monotonic = λ w. w;
  sleep = λ n w. w + n * 1000;
}

-- Every command works, or none does.
abbrev pub up : Remote ℕ
up = answering (record { rc = pos 0; out = "200"; err = "" })

abbrev pub down : Remote ℕ
down = answering (record { rc = pos 1; out = ""; err = "refused" })

pub answering-IsMonotonic : (reply : Reply) → IsMonotonic (answering reply)
answering-IsMonotonic reply = record {
  connect = λ conn w. omega arith;
  exec = λ conn cmd stdin timeout w. omega arith;
  sleep = λ n w. omega arith;
}

abbrev pub lab_site : SiteConfig
lab_site = record {
  name = str "lab";
  environment = str "lab";
  topology = str "single";
  nodes = record { name = "n1"; ip = "10.0.0.5"; bootstrap_leader = true } ∷ [];
  ssh = record {
    user = str "admin";
    become = true;
    auth = str "agent";
    key_file = null;
    port = pos 22;
  };
  network = record {
    vip = "";
    interface = str "ens18";
    expected_mtu = pos 1400;
    vrrp_router_id = pos 51;
    check_l2_adjacency = true;
  };
  tls = record {
    provider = str "none";
    hostname = str "";
    acme = dict end;
    import_cert = dict end;
  };
  state_file = "/site/.state/lab.json";
  config_version = pos 3;
  refuse_existing = true;
  authentik_tag = "2026.1";
  raw = dict end;
}

abbrev pub node1 : Conn
node1 = record {
  slot = 0;
  node = record { name = "n1"; ip = "10.0.0.5"; bootstrap_leader = true };
  cfg = lab_site.ssh;
  password = none;
  sudo_password = none;
}

-- A session over that site, from a document and the lines that the operator will type.
abbrev pub session : Data → List String → Session ℕ
session document lines = record {
  cfg = lab_site;
  state = record {
    site_name = "lab";
    document = document;
    disk = record { path = "/site/.state/lab.json"; file = none; tmp = none; siblings = [] };
  };
  fleet = record { conns = node1 ∷ []; connected = []; current_phase = ""; transcript = [] };
  checks = [];
  answers = lines;
  world = 0;
}

abbrev pub fresh_session : List String → Session ℕ
fresh_session = session (fresh_data "lab")
