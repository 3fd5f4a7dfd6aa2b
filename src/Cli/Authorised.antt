-- ===== src/Cli/Authorised.antt =====
-- `_preauth_sudo` of akropolis/cli.py: what it has proved where it returns true.
use akropolis.Base.{
  ◌≡◌, refl, sym, ◌∙◌, ap, subst, ◌⊎◌, inl, inr, ℕ, zero, suc, String, Bool, true, false, ◌==◌,
  string_eq, if◌then◌else◌, Option, none, some, List, [], ◌∷◌, All, arith, Bool-cases,
}
use akropolis.Effects.{
  Outcome, return, raise, exception, interrupt, pure, ◌>>=◌, and_then-eq-return,
}
use akropolis.Effects.Moves.{Moves, Moves-bind, Moves-if}
use akropolis.Session.{Conn, Session, Step, input}
use akropolis.Session.Remote.{Remote, Reply, is_ok, connect, run}
use akropolis.Session.Frame.{SameNodes, SameNodes-IsRespected, run-Moves, connect-Moves}
use akropolis.Cli.Login.{
  Probe, unreachable, refused, try_sudo, add_bad, after_connect, probe_nodes, give_sudo,
  or_password, judge, attempts, preauth,
}

module _ {W : Type 0} (remote : Remote W) where
  -- A command of the node answered that it ran as root, or that `sudo` worked with the connection's
  -- password.
  pub record CanSudo (conn : Conn) : Type 0 where
    pub before : Session W
    pub after : Session W
    pub reply : Reply
    pub proof :
        (run remote conn "id -u" none 30 before ≡ (return reply, after)) × (reply.out ≡ "0")
        ⊎ (run remote conn "true" (some true) 30 before ≡ (return reply, after))
          × (is_ok reply ≡ true)

  sudo_inv :
      (conn : Conn) (s t : Session W)
      → (run remote conn "true" (some true) 30 >>= λ r. pure (is_ok r)) s ≡ (return true, t)
      → CanSudo conn
  sudo_inv conn s t h =
      let (o, u) = run remote conn "true" (some true) 30 s in
      let (r, answered, h1) = and_then-eq-return o (λ r. pure (is_ok r)) u h in
      record {
        before = s;
        after = u;
        reply = r;
        proof = inr (ap (λ o. (o, u)) answered, ground arith);
      }

  try_sudo_inv :
      (conn : Conn) (s t : Session W) → try_sudo remote conn s ≡ (return true, t) → CanSudo conn
  unfolding try_sudo
  try_sudo_inv conn s t h =
      let (o, u) = run remote conn "id -u" none 30 s in
      let (r, answered, h1) = and_then-eq-return o _ u h in
      elim (Bool-cases (r.out == "0")) [
        | inl root ↦ record {
          before = s;
          after = u;
          reply = r;
          proof = inl (ap (λ o. (o, u)) answered, ground arith);
        }
        | inr user ↦ sudo_inv conn u t (rw user at h1)
      ]

  add_bad_inv :
      (conn : Conn) (good : Bool) (others : Probe)
      → add_bad remote conn good others ≡ refused []
      → (good ≡ true) × (others ≡ refused [])
  unfolding add_bad
  add_bad_inv conn good unreachable h = ground arith
  add_bad_inv conn true (refused bad) h = (refl, h)
  add_bad_inv conn false (refused bad) h = ground arith

  after_connect_inv :
      (conn : Conn) (rest : Step W Probe) (r : Outcome (Unit {0})) (s t : Session W)
      → after_connect remote conn rest r s ≡ (return (refused []), t)
      → CanSudo conn × ((u : Session W) × (rest u ≡ (return (refused []), t)))
  unfolding after_connect
  after_connect_inv conn rest (return _) s t h =
      let (o, u) = try_sudo remote conn s in
      let (good, answered, h1) = and_then-eq-return o _ u h in
      let (p, v) = rest u in
      let (others, found, h2) =
        and_then-eq-return p (λ others. pure (add_bad remote conn good others)) v h1 in
      let (able, clean) = add_bad_inv conn good others (ground arith) in
      (
        try_sudo_inv conn s u (ap (λ o. (o, u)) (answered ∙ ap return able)),
        (u, ap (λ p. (p, v)) (found ∙ ap return clean) ∙ ap (λ o. (return (refused []), o.1)) h2),
      )
  after_connect_inv conn rest (raise (exception message)) s t h = ground arith
  after_connect_inv conn rest (raise interrupt) s t h = ground arith

  probe_sound :
      (conns : List Conn) (s t : Session W)
      → probe_nodes remote conns s ≡ (return (refused []), t)
      → All CanSudo conns
  unfolding probe_nodes
  probe_sound [] s t h = tt
  probe_sound (conn ∷ conns) s t h =
      let (r, u) = connect remote conn s in
      let (this, (v, rest)) = after_connect_inv conn (probe_nodes remote conns) r u t h in
      (this, probe_sound conns v t rest)

  step :
      (conn : Conn) (cmd : String) (sudo : Option Bool) (timeout : ℕ)
      → Moves SameNodes (run remote conn cmd sudo timeout)
  step = run-Moves remote (SameNodes-IsRespected remote)

  try_sudo-Moves : (conn : Conn) → Moves SameNodes (try_sudo remote conn)
  unfolding try_sudo
  try_sudo-Moves conn =
      let order = (SameNodes-IsRespected remote).order in
      Moves-bind order (run remote conn "id -u" none 30) _ (step conn "id -u" none 30) λ who.
        Moves-if order (who.out == "0") _ _ (record { at = λ s. refl })
          (Moves-bind order (run remote conn "true" (some true) 30) _
            (step conn "true" (some true) 30) λ r. record { at = λ s. refl })

  after_connect-Moves :
      (conn : Conn) (rest : Step W Probe) (r : Outcome (Unit {0}))
      → Moves SameNodes rest
      → Moves SameNodes (after_connect remote conn rest r)
  unfolding after_connect
  after_connect-Moves conn rest (return _) k =
      let order = (SameNodes-IsRespected remote).order in
      Moves-bind order (try_sudo remote conn) _ (try_sudo-Moves conn)
        λ good. Moves-bind order rest _ k λ others. record { at = λ s. refl }
  after_connect-Moves conn rest (raise (exception message)) k = record { at = λ s. refl }
  after_connect-Moves conn rest (raise interrupt) k = record { at = λ s. refl }

  probe_nodes-Moves : (conns : List Conn) → Moves SameNodes (probe_nodes remote conns)
  unfolding probe_nodes
  probe_nodes-Moves [] = record { at = λ s. refl }
  probe_nodes-Moves (conn ∷ conns) = record {
    at = λ s.
        let (r, u) = connect remote conn s in
        (after_connect-Moves conn (probe_nodes remote conns) r (probe_nodes-Moves conns)).at u
        ∙ (connect-Moves remote (SameNodes-IsRespected remote) conn).at s;
  }

  passed :
      (s u t : Session W)
      → probe_nodes remote s.fleet.conns s ≡ (return (refused []), u)
      → u ≡ t
      → All CanSudo t.fleet.conns
  passed s u t p e =
      let kept = ap (λ o. o.1.fleet.conns) (sym p) ∙ (probe_nodes-Moves s.fleet.conns).at s in
      subst (λ v. All CanSudo v.fleet.conns) e
        (subst (All CanSudo) (sym kept) (probe_sound s.fleet.conns s u p))

  -- The last round passes every node; one that refuses some is followed by another.
  last_round :
      (found : Probe) (password : Option String) (s u t : Session W)
      → probe_nodes remote s.fleet.conns s ≡ (return found, u)
      → judge remote password none found u ≡ (return true, t)
      → All CanSudo t.fleet.conns
  unfolding judge
  last_round unreachable password s u t p h = ground arith
  last_round (refused []) password s u t p h = passed s u t p (ground arith)
  last_round (refused (b ∷ bad)) password s u t p h = ground arith

  inner_round :
      (found : Probe) (password : Option String) (again : Step W Bool) (s u t : Session W)
      → probe_nodes remote s.fleet.conns s ≡ (return found, u)
      → ((v : Session W) → again v ≡ (return true, t) → All CanSudo t.fleet.conns)
      → judge remote password (some again) found u ≡ (return true, t)
      → All CanSudo t.fleet.conns
  unfolding judge
  inner_round unreachable password again s u t p ih h = ground arith
  inner_round (refused []) password again s u t p ih h = passed s u t p (ground arith)
  inner_round (refused (b ∷ bad)) password again s u t p ih h =
      let (o, v) = input u in
      let (line, _, h1) = and_then-eq-return o _ v h in
      ih (give_sudo (or_password line password) v) h1

  attempts_sound :
      (left : ℕ) (password : Option String) (s t : Session W)
      → attempts remote left password s ≡ (return true, t)
      → All CanSudo t.fleet.conns
  unfolding attempts
  attempts_sound zero password s t h =
      let (o, u) = probe_nodes remote s.fleet.conns s in
      let (found, answered, h1) = and_then-eq-return o (judge remote password none) u h in
      last_round found password s u t (ap (λ o. (o, u)) answered) h1
  attempts_sound (suc left) password s t h =
      let (o, u) = probe_nodes remote s.fleet.conns s in
      let again = attempts remote left password in
      let (found, answered, h1) = and_then-eq-return o (judge remote password (some again)) u h in
      inner_round found password again s u t (ap (λ o. (o, u)) answered)
        (λ v e. attempts_sound left password v t e) h1

  -- Where the site escalates and the sudo check before the first phase returns true, every node of
  -- the fleet, with the sudo password that its connection then has, said that it runs as root or
  -- ran `sudo true` with exit code 0.
  pub preauth-CanSudo :
      (password : Option String) (s t : Session W)
      → s.cfg.ssh.become ≡ true
      → preauth remote password s ≡ (return true, t)
      → All CanSudo t.fleet.conns
  unfolding preauth
  preauth-CanSudo password s t become h = attempts_sound 2 password s t (
      subst (λ b. (if b then attempts remote 2 password s else (return true, s)) ≡ (return true, t))
        become h)
