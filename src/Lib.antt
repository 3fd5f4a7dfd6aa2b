-- ===== src/Lib.antt =====
-- akropolis: a command line program that provisions an identity provider on one node or three.
--
-- A command reads a site's configuration (akropolis/config.py) and its state file
-- (akropolis/state.py), asks for passwords and checks sudo (akropolis/cli.py), and runs phases in
-- order (akropolis/phases/base.py). A phase sends commands to the nodes over SSH
-- (akropolis/sshexec.py) and polls them (akropolis/remote.py). Its status is saved after each
-- phase, so that the next run goes on from there.
--
-- Base        texts, dicts, lists and integers of Python, as the code uses them.
-- Value       the values that YAML gives, and `_get` of akropolis/config.py.
-- Effects     statements that return or raise, over a state. Effects.Moves: what they preserve.
-- State       akropolis/state.py. State.Saving has the steps of `save` on the disk, one for each
--             call; `init`, `phase_status`, `mark_phase`, `get_or_generate` and `save` are the
--             methods.
-- Config      akropolis/config.py, `load` and its parts in the order of the code: Address, Nodes,
--             Sections, Allowances, Loading. A problem is a constructor with what its message
--             quotes (Problems). Resolution has `resolved_backup_ips` and its like. Sound,
--             Allowed and Valid are proofs.
-- Session     a command's objects: the connections, the transcript, the checks, the answers that
--             will be typed, and the world. Session.Remote is `NodeConn`, Session.Waiting is
--             `wait_for`, `wait_healthy` and `dump_logs`, Session.Pushing `push_file`,
--             Session.Loops the loops over the fleet and over tables, Session.Pinned the secrets
--             of `gen_password`, Session.Uploading `put`, `push_binary` and `base_url`; Frame,
--             Clock, Polling, Sent, Placed and Uploaded are proofs.
-- Phases      akropolis/phases/base.py. Phases.Runner is `run_phases`, a definition for each part of
--             a round; Order, Frame, Settled and Stopped are proofs.
-- Lifecycle   akropolis/phases/authentik_lifecycle.py: Shutdown and Start; Gate, Frame, Stopped and
--             Consumed are proofs.
-- Etcd        akropolis/phases/etcd_phase.py: the phase; Healthy has proofs.
-- Patroni     akropolis/phases/patroni_phase.py: Commands has the texts and what the replies are
--             read for; Leading, Ordered and Formed are proofs.
-- Haproxy     akropolis/phases/haproxy_phase.py; Routed has proofs.
-- Preflight   akropolis/phases/preflight.py: Tables has the ports and the sets of them, Node the
--             checks of one node, Preflight itself those of the cluster; Frame, Checks, Ports,
--             Ready and Passed are proofs.
-- Authentik   akropolis/phases/authentik_phase.py: the applied tag, the gates and the verification;
--             Token is `token_alive` and `remint_bootstrap_token`; Tagged and Reachable are proofs.
-- Clean       akropolis/phases/clean_phase.py: Tables has the steps and the checks; Command is
--             `cmd_clean` of akropolis/cli.py; Bare and Guard are proofs.
-- Update      akropolis/update.py: Version is `_is_newer`, Install is `self_update`; the checks of
--             the release are in Update itself; Precedence, Throttle, Replacing, Safe and Done
--             are proofs.
-- Ldap        akropolis/phases/ldap_reconcile.py and `cmd_ldap_reconcile` of akropolis/cli.py;
--             Scripts has the two scripts; Confirmed and Repaired are proofs.
-- Cli         akropolis/cli.py: Login (the passwords and `_preauth_sudo`), Commands (`cmd_provision`,
--             `_lifecycle_cmd`), Rows (`phase_rows`); Authorised and Choice are proofs.
--
-- Parameters. `Remote` stands for Paramiko, the nodes and the clock over a world of any type: a
-- connection or a command returns or raises and changes the world. `IsMonotonic` is the documented
-- behaviour of `time.monotonic` and `time.sleep`. `Platform` stands for the IPv6 and network
-- grammars of `ipaddress`, the file system and `repr` of a list or dict, `Encoding` for hashlib,
-- base64 and `int(text, 8)`, `Templates` for Jinja and files of the package, `Tokens` for the
-- random tokens. `Json` stands for `json.loads` and `repr`, `Local` for the local files, the
-- number of the process and SFTP, for `push_binary`. `Services` stands for what
-- akropolis/update.py calls: the network, JSON, hashlib, zipfile and the operating system, each
-- call of which returns or raises; a byte string is of any type. `Clock` is the time of day in
-- milliseconds, for preflight.
--
-- Bounds. Integers of the configuration are unbounded, as in Python. The polling loop runs on
-- fuel, a round for each millisecond of its timeout; the timeouts and intervals of all calls are
-- whole seconds.
--
-- Not modelled: what is only printed (the terminal's live line, tables, colours), the redaction of
-- the transcript, the grammar of YAML and JSON (a state file that is no JSON is `torn`), file
-- names beyond the join with a directory, a cache of the update check that another program wrote,
-- the tail of a script's output in one message of Ldap, `int()` and `lower()` of letters and
-- digits outside ASCII. A node's name is kept as its text. Of the phases that write configuration
-- to the nodes etcd, patroni and haproxy are modelled, and the verification of authentik; the
-- monitor is not.
pub mod Authentik
pub mod Base
pub mod Value
pub mod Effects
pub mod State
pub mod Config
pub mod Session
pub mod Phases
pub mod Lifecycle
pub mod Etcd
pub mod Clean
pub mod Patroni
pub mod Haproxy
pub mod Preflight
pub mod Cli
pub mod Update
pub mod Ldap
