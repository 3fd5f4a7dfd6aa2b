-- ===== src/Session/Frame.antt =====
-- What `NodeConn.run` of akropolis/sshexec.py can change, for any relation of session to session
-- that its parts respect.
use akropolis.Base.{
  ◌≡◌, refl, ◌∙◌, String, Bool, true, Option, none, ℕ, zero, suc, ◌+◌, ◌*◌, ltb, Bool-cases, inl,
  inr,
}
use akropolis.Effects.{return, pure, ◌>>◌}
use akropolis.Effects.Moves.{Moves, IsPreorder, and_then_moves, Moves-bind, Moves-if}
use akropolis.Session.{Conn, Session, Check, add_check}
use akropolis.Session.Remote.{
  Remote, Reply, member, ensure_connected, exec_sent, escalate, chosen, connect, mark_connected,
  log_reply, stripped, run,
}
use akropolis.Session.Waiting.{clock, sleep, min, passes, after_probe, poll, wait_for}

-- The order, and the four things that a command does to a session.
pub record IsRespected {W : Type 0} (remote : Remote W) (R : Session W → Session W → Type 0)
    : Type 0 where
  pub order : IsPreorder R
  pub connect :
      (conn : Conn) (s : Session W) → R s (record s { world = (remote.connect conn s.world).1 })
  pub exec :
      (conn : Conn) (cmd : String) (stdin : Option String) (timeout : ℕ) (s : Session W)
      → R s (record s { world = (remote.exec conn cmd stdin timeout s.world).1 })
  pub connected : (conn : Conn) (s : Session W) → R s (mark_connected remote conn s)
  pub logged :
      (conn : Conn) (sent : String) (r : Reply) (s : Session W)
      → R s (log_reply remote conn sent r s)
  pub slept : (n : ℕ) (s : Session W) → R s (sleep remote n s).1

module _ {W : Type 0} (remote : Remote W) {R : Session W → Session W → Type 0}
    (k : IsRespected remote R) where
  pub connect-Moves : (conn : Conn) → Moves R (connect remote conn)
  unfolding connect
  connect-Moves conn = record {
    at = λ s.
        let (r, w) = remote.connect conn s.world in
        and_then_moves k.order r (λ _ t. (return tt, mark_connected remote conn t)) s
          (record s { world = w }) (k.connect conn s) λ _. record { at = k.connected conn };
  }

  ensure_connected-Moves : (conn : Conn) → Moves R (ensure_connected remote conn)
  unfolding ensure_connected
  ensure_connected-Moves conn = record {
    at = λ s. elim (Bool-cases (member conn.slot s.fleet.connected)) [
      | inl there ↦ rw there (k.order.reflexive s)
      | inr absent ↦ rw absent ((connect-Moves conn).at s)
    ];
  }

  exec_sent-Moves :
      (conn : Conn) (sent : String × Option String) (timeout : ℕ)
      → Moves R (exec_sent remote conn sent timeout)
  unfolding exec_sent
  exec_sent-Moves conn sent timeout = record {
    at = λ s.
        let (r, w) = remote.exec conn sent.0 sent.1 timeout s.world in
        and_then_moves k.order r
          (λ reply t. (
            return (stripped remote reply),
            log_reply remote conn sent.0 (stripped remote reply) t,
          ))
          s (record s { world = w }) (k.exec conn sent.0 sent.1 timeout s)
          λ reply. record { at = k.logged conn sent.0 (stripped remote reply) };
  }

  pub run-Moves :
      (conn : Conn) (cmd : String) (sudo : Option Bool) (timeout : ℕ)
      → Moves R (run remote conn cmd sudo timeout)
  unfolding run
  run-Moves conn cmd sudo timeout =
      Moves-bind k.order (ensure_connected remote conn) _ (ensure_connected-Moves conn)
        λ _. exec_sent-Moves conn (escalate conn cmd (chosen conn.cfg.become sudo)) timeout

  poll-Moves :
      (fuel : ℕ) (conn : Conn) (cmd : String) (expect : Option String)
      (deadline timeout interval : ℕ)
      → Moves R (poll remote fuel conn cmd expect deadline timeout interval)
  unfolding poll after_probe
  poll-Moves zero conn cmd expect deadline timeout interval = record { at = k.order.reflexive }
  poll-Moves (suc fuel) conn cmd expect deadline timeout interval = record {
    at = λ s. elim (Bool-cases (ltb (clock remote s) deadline)) [
      | inl early ↦ rw early (
          (Moves-bind k.order (run remote conn cmd none (min 30 timeout)) _
              (run-Moves conn cmd none (min 30 timeout))
              λ r.
                Moves-if k.order (passes expect r) (pure true)
                  (sleep remote interval
                    >> poll remote fuel conn cmd expect deadline timeout interval)
                  (record { at = k.order.reflexive })
                  (Moves-bind k.order (sleep remote interval) _ (record { at = k.slept interval })
                    λ _. poll-Moves fuel conn cmd expect deadline timeout interval)).at
            s)
      | inr late ↦ rw late (k.order.reflexive s)
    ];
  }

  pub wait_for-Moves :
      (conn : Conn) (cmd : String) (expect : Option String) (timeout interval : ℕ)
      → Moves R (wait_for remote conn cmd expect timeout interval)
  unfolding wait_for
  wait_for-Moves conn cmd expect timeout interval = record {
    at = λ s.
        (poll-Moves (timeout * 1000) conn cmd expect (clock remote s + timeout * 1000) timeout
            interval).at
          s;
  }

module _ {W : Type 0} where
  -- The state of the site is the same.
  abbrev pub SameState : Session W → Session W → Type 0
  SameState s t = t.state ≡ s.state

  -- The nodes of the fleet are the same.
  abbrev pub SameNodes : Session W → Session W → Type 0
  SameNodes s t = t.fleet.conns ≡ s.fleet.conns

  -- The configuration, the state of the site and the nodes of the fleet are the same.
  abbrev pub SameSite : Session W → Session W → Type 0
  SameSite s t = (t.cfg ≡ s.cfg) × ((t.state ≡ s.state) × (t.fleet.conns ≡ s.fleet.conns))

  pub SameSite-checked : (c : Check) (s : Session W) → SameSite s (add_check c s).1
  unfolding add_check
  SameSite-checked c s = (refl, (refl, refl))

module _ {W : Type 0} (remote : Remote W) where
  pub SameSite-IsRespected : IsRespected remote SameSite
  unfolding mark_connected log_reply sleep
  SameSite-IsRespected = record {
    order = record {
      reflexive = λ s. (refl, (refl, refl));
      transitive = λ s t u h k. (k.0 ∙ h.0, (k.1.0 ∙ h.1.0, k.1.1 ∙ h.1.1));
    };
    connect = λ conn s. (refl, (refl, refl));
    exec = λ conn cmd stdin timeout s. (refl, (refl, refl));
    connected = λ conn s. (refl, (refl, refl));
    logged = λ conn sent r s. (refl, (refl, refl));
    slept = λ n s. (refl, (refl, refl));
  }

  pub SameState-IsRespected : IsRespected remote SameState
  unfolding mark_connected log_reply sleep
  SameState-IsRespected = record {
    order = record { reflexive = λ s. refl; transitive = λ s t u h k. k ∙ h };
    connect = λ conn s. refl;
    exec = λ conn cmd stdin timeout s. refl;
    connected = λ conn s. refl;
    logged = λ conn sent r s. refl;
    slept = λ n s. refl;
  }

  pub SameNodes-IsRespected : IsRespected remote SameNodes
  unfolding mark_connected log_reply sleep
  SameNodes-IsRespected = record {
    order = record { reflexive = λ s. refl; transitive = λ s t u h k. k ∙ h };
    connect = λ conn s. refl;
    exec = λ conn cmd stdin timeout s. refl;
    connected = λ conn s. refl;
    logged = λ conn sent r s. refl;
    slept = λ n s. refl;
  }
