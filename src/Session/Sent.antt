-- ===== src/Session/Sent.antt =====
-- What `NodeConn.run` of akropolis/sshexec.py and `wait_for` of akropolis/remote.py have given: a
-- command that was sent with its reply, alone, or between the world before it and the one after it.
use akropolis.Base.{◌≡◌, refl, ap, subst, ℕ, String, none, Bool, Option}
use akropolis.Effects.{return, and_then-eq-return, and_then, Action}
use akropolis.Session.{Conn, Session}
use akropolis.Session.Remote.{Remote, Reply, run}
use akropolis.Session.Waiting.{wait_for}

module _ {W : Type 0} (remote : Remote W) where
  -- The node was sent the command and gave the reply.
  pub record Replied (conn : Conn) (cmd : String) (timeout : ℕ) (reply : Reply) : Type 0 where
    pub before : Session W
    pub after : Session W
    pub sent : run remote conn cmd none timeout before ≡ (return reply, after)

  -- Where a block that begins with a command returns, the command was answered, and the rest
  -- returned from there.
  pub run-eq-return :
      {B : Type 0} (conn : Conn) (cmd : String) (timeout : ℕ) (f : Reply → Action (Session W) B)
      (s : Session W) {b : B} {t : Session W}
      → (let (o, u) = run remote conn cmd none timeout s in and_then o f u) ≡ (return b, t)
      → (r : Reply) × (Replied conn cmd timeout r
          × (f r (run remote conn cmd none timeout s).1 ≡ (return b, t)))
  run-eq-return conn cmd timeout f s h =
      let (o, u) = run remote conn cmd none timeout s in
      let (r, answered, h1) = and_then-eq-return o f u h in
      (r, (record { before = s; after = u; sent = ap (λ o. (o, u)) answered }, h1))

  -- The node was sent the command in the world `v`, and its reply left the world `w`.
  pub record Exchange (conn : Conn) (cmd : String) (timeout : ℕ) (reply : Reply) (v w : W)
      : Type 0 where
    pub before : Session W
    pub after : Session W
    pub sent : run remote conn cmd none timeout before ≡ (return reply, after)
    pub from : before.world ≡ v
    pub to : after.world ≡ w

  pub exchange-eq-return :
      {B : Type 0} (conn : Conn) (cmd : String) (timeout : ℕ) (f : Reply → Action (Session W) B)
      (s : Session W) {b : B} {t : Session W}
      → (let (o, u) = run remote conn cmd none timeout s in and_then o f u) ≡ (return b, t)
      → (r : Reply) × (Exchange conn cmd timeout r s.world
            (run remote conn cmd none timeout s).1.world
          × (f r (run remote conn cmd none timeout s).1 ≡ (return b, t)))
  exchange-eq-return conn cmd timeout f s h =
      let (o, u) = run remote conn cmd none timeout s in
      let (r, answered, h1) = and_then-eq-return o f u h in
      (
        r,
        (
          record {
            before = s;
            after = u;
            sent = ap (λ o. (o, u)) answered;
            from = refl;
            to = refl;
          },
          h1,
        ),
      )

  -- Polling began in the world `v`, and ended with the answer in the world `w`.
  pub record Polled (conn : Conn) (cmd : String) (expect : Option String) (timeout interval : ℕ)
      (answer : Bool) (v w : W) : Type 0 where
    pub before : Session W
    pub after : Session W
    pub ended : wait_for remote conn cmd expect timeout interval before ≡ (return answer, after)
    pub from : before.world ≡ v
    pub to : after.world ≡ w

  pub polled-eq-return :
      {B : Type 0} (conn : Conn) (cmd : String) (expect : Option String) (timeout interval : ℕ)
      (f : Bool → Action (Session W) B) (s : Session W) {b : B} {t : Session W}
      → (let (o, u) = wait_for remote conn cmd expect timeout interval s in and_then o f u)
        ≡ (return b, t)
      → (answer : Bool) × (Polled conn cmd expect timeout interval answer s.world
            (wait_for remote conn cmd expect timeout interval s).1.world
          × (f answer (wait_for remote conn cmd expect timeout interval s).1 ≡ (return b, t)))
  polled-eq-return conn cmd expect timeout interval f s h =
      let (o, u) = wait_for remote conn cmd expect timeout interval s in
      let (r, answered, h1) = and_then-eq-return o f u h in
      (
        r,
        (
          record {
            before = s;
            after = u;
            ended = ap (λ o. (o, u)) answered;
            from = refl;
            to = refl;
          },
          h1,
        ),
      )

  -- The same exchange or poll, its ends and its answer by other names.
  pub Exchange-from :
      {conn : Conn} {cmd : String} {timeout : ℕ} {reply : Reply} {u v w : W}
      → u ≡ v
      → Exchange conn cmd timeout reply u w
      → Exchange conn cmd timeout reply v w
  Exchange-from {conn} {cmd} {timeout} {reply} {u} {v} {w} e =
      subst (λ x. Exchange conn cmd timeout reply x w) e

  pub Exchange-to :
      {conn : Conn} {cmd : String} {timeout : ℕ} {reply : Reply} {u v w : W}
      → v ≡ w
      → Exchange conn cmd timeout reply u v
      → Exchange conn cmd timeout reply u w
  Exchange-to {conn} {cmd} {timeout} {reply} {u} e = subst (Exchange conn cmd timeout reply u) e

  pub Polled-answer :
      {conn : Conn} {cmd : String} {expect : Option String} {timeout interval : ℕ} {a b : Bool}
      {v w : W}
      → a ≡ b
      → Polled conn cmd expect timeout interval a v w
      → Polled conn cmd expect timeout interval b v w
  Polled-answer {conn} {cmd} {expect} {timeout} {interval} {a} {b} {v} {w} e =
      subst (λ x. Polled conn cmd expect timeout interval x v w) e

  pub Polled-to :
      {conn : Conn} {cmd : String} {expect : Option String} {timeout interval : ℕ} {a : Bool}
      {u v w : W}
      → v ≡ w
      → Polled conn cmd expect timeout interval a u v
      → Polled conn cmd expect timeout interval a u w
  Polled-to {conn} {cmd} {expect} {timeout} {interval} {a} {u} e =
      subst (Polled conn cmd expect timeout interval a u) e
