-- ===== src/Preflight/Ready.antt =====
-- What the checks of one node in akropolis/phases/preflight.py have seen, unless they have recorded
-- a failure.
use akropolis.Base.{
  ◌≡◌, refl, sym, ◌∙◌, ap, subst, ◌⊎◌, inl, inr, ℕ, Bool, true, false, not, ◌&&◌, ◌==◌, string_eq,
  none, some, Option, List, [], ◌∷◌, All, Bool-cases, arith,
}
use akropolis.Config.Address.{Platform}
use akropolis.Effects.{
  Outcome, return, raise, exception, interrupt, pure, ◌>>=◌, ◌>>◌, and_then-eq-return,
}
use akropolis.Session.{Check, Conn, Session, add_check}
use akropolis.Session.Remote.{Remote, Reply, is_ok, connect, run}
use akropolis.Session.Sent.{Replied, run-eq-return}
use akropolis.Preflight.Tables.{listening_ports, listens, occupied_ports, has_port, no_ports}
use akropolis.Preflight.Ports.{has_port-occupied_ports}
use akropolis.Preflight.Node.{
  Clock, Offsets, Footprint, ss_cmd, judge_user, judge_uid, try_reach, on_reach, reach, check_ports,
  check_base, check_reached, check_going, check_node, check_nodes,
}
use akropolis.Preflight.Frame.{is_failure, Failed, Failed-now}
use akropolis.Preflight.Checks.{rest-Moves, going-Moves, nodes-Moves}

module _ {W : Type 0} (remote : Remote W) (platform : Platform) (clock : Clock W)
    (footprint : Footprint) where
  -- A command ran as root on the node, with or without sudo.
  pub record RunsAsRoot (conn : Conn) : Type 0 where
    pub before : Session W
    pub after : Session W
    pub sudo : Option Bool
    pub reply : Reply
    pub sent : run remote conn "id -u" sudo 30 before ≡ (return reply, after)
    pub root : (is_ok reply && reply.out == "0") ≡ true

  -- Nothing listens on a required port that no finished phase owns.
  pub record HasFreePorts (conn : Conn) : Type 0 where
    pub reply : Reply
    pub replied : Replied remote conn ss_cmd 30 reply
    pub free :
        (p : ℕ)
        → (has_port footprint.required p
            && (listens (listening_ports reply.out) p && not (has_port footprint.expected p)))
          ≡ false

  pub record IsReady (conn : Conn) : Type 0 where
    pub runs_as_root : RunsAsRoot conn
    pub has_free_ports : HasFreePorts conn

  record-Failed :
      {A : Type 0} (c : Check) (a b : A) (s t : Session W)
      → is_failure c ≡ true
      → (add_check c >> pure a) s ≡ (return b, t)
      → Failed t
  unfolding add_check
  record-Failed c a b s t fails h = subst Failed (ap (λ o. o.1) h) (Failed-now c s fails)

  record_returned :
      {A : Type 0} (c : Check) (a b : A) (s t : Session W)
      → (add_check c >> pure a) s ≡ (return b, t)
      → b ≡ a
  unfolding add_check
  record_returned c a b s t h = ground arith

  -- The loop goes on with a node that runs commands as root, or a failure is recorded.
  abbrev Reached : Conn → Bool → Session W → Type 0
  Reached conn going t = (RunsAsRoot conn × (going ≡ true)) ⊎ Failed t

  no_ports_inv : (ports : List ℕ) → no_ports ports ≡ true → (p : ℕ) → has_port ports p ≡ false
  no_ports_inv [] h p = refl
  no_ports_inv (q ∷ ports) h p = ground arith

  -- Without root the check has failed.
  sudo_inv :
      (conn : Conn) (c : Reply → Check) (u t : Session W) (going : Bool)
      → ((r : Reply) → is_failure (c r) ≡ not (is_ok r && r.out == "0"))
      → (run remote conn "id -u" (some true) 30 >>= λ r. add_check (c r) >> pure true) u
        ≡ (return going, t)
      → Reached conn going t
  sudo_inv conn c u t going fails h =
      let (o, v) = run remote conn "id -u" (some true) 30 u in
      let (r, answered, h1) = and_then-eq-return o (λ r. add_check (c r) >> pure true) v h in
      elim (Bool-cases (is_ok r && r.out == "0")) [
        | inl root ↦ inl (
          record {
            before = u;
            after = v;
            sudo = some true;
            reply = r;
            sent = ap (λ o. (o, v)) answered;
            root = root;
          },
          record_returned (c r) true going v t h1,
        )
        | inr other ↦ inr (record-Failed (c r) true going v t (fails r ∙ ap not other) h1)
      ]

  user_inv :
      (conn : Conn) (become : Bool) (r : Reply) (u t : Session W) (going : Bool)
      → judge_user remote platform clock conn become r u ≡ (return going, t)
      → Reached conn going t
  unfolding judge_user
  user_inv conn true r u t going h = sudo_inv conn _ u t going (λ r. ground arith) h
  user_inv conn false r u t going h = inr (record-Failed _ false going u t refl h)

  uid_inv :
      (conn : Conn) (r : Reply) (s u t : Session W) (going : Bool)
      → run remote conn "id -u" none 30 s ≡ (return r, u)
      → judge_uid remote platform clock conn r u ≡ (return going, t)
      → Reached conn going t
  unfolding judge_uid
  uid_inv conn r s u t going sent h = elim (Bool-cases (is_ok r && r.out == "0")) [
    | inl root ↦ inl (
      record { before = s; after = u; sudo = none; reply = r; sent = sent; root = root },
      record_returned _ true going u t (rw root at h),
    )
    | inr other ↦ user_inv conn conn.cfg.become r u t going (rw other at h)
  ]

  on_reach_inv :
      (conn : Conn) (o : Outcome Bool) (u t : Session W) (going : Bool)
      → (o ≡ return going → t ≡ u → Reached conn going u)
      → on_reach remote platform clock conn o u ≡ (return going, t)
      → Reached conn going t
  unfolding on_reach
  on_reach_inv conn (return b) u t going k h =
      let same : t ≡ u = ap (λ o. o.1) (sym h) in
      subst (Reached conn going) (sym same) (k (ap (λ o. o.0) h) same)
  on_reach_inv conn (raise (exception e)) u t going k h =
      inr (record-Failed _ false going u t refl h)
  on_reach_inv conn (raise interrupt) u t going k h = ground arith

  try_inv :
      (conn : Conn) (s t : Session W) (going : Bool)
      → try_reach remote platform clock conn s ≡ (return going, t)
      → Reached conn going t
  unfolding try_reach
  try_inv conn s t going h =
      let (o, u) = connect remote conn s in
      let (_, _, h1) = and_then-eq-return o _ u h in
      let (p, v) = run remote conn "id -u" none 30 u in
      let (r, answered, h2) = and_then-eq-return p (judge_uid remote platform clock conn) v h1 in
      uid_inv conn r u v t going (ap (λ p. (p, v)) answered) h2

  reach_inv :
      (conn : Conn) (s t : Session W) (going : Bool)
      → reach remote platform clock conn s ≡ (return going, t)
      → Reached conn going t
  unfolding reach
  reach_inv conn s t going h =
      let (o, u) = try_reach remote platform clock conn s in
      on_reach_inv conn o u t going (λ e same. try_inv conn s u going (ap (λ o. (o, u)) e)) h

  ports_inv :
      (conn : Conn) (s t : Session W)
      → check_ports remote platform clock conn footprint s ≡ (return tt, t)
      → HasFreePorts conn ⊎ Failed t
  unfolding check_ports
  ports_inv conn s t h =
      let (r, (replied, h1)) = run-eq-return remote conn ss_cmd 30 _ s h in
      let occupied = occupied_ports footprint.required (listening_ports r.out) footprint.expected in
      elim (Bool-cases (no_ports occupied)) [
        | inl free ↦ inl (record {
          reply = r;
          replied = replied;
          free = λ p.
              sym (
                has_port-occupied_ports footprint.required footprint.expected
                  (listening_ports r.out) p)
              ∙ no_ports_inv occupied free p;
        })
        | inr taken ↦ inr (subst Failed (ap (λ o. o.1) h1) (Failed-now _ _ (ground (arith, taken))))
      ]

  reached_inv :
      (conn : Conn) (offsets clocks : Offsets) (s t : Session W)
      → check_reached remote platform clock conn footprint offsets s ≡ (return clocks, t)
      → HasFreePorts conn ⊎ Failed t
  unfolding check_reached
  reached_inv conn offsets clocks s t h =
      let (o, u) = check_base remote platform clock conn footprint offsets s in
      let (kept, _, h1) = and_then-eq-return o _ u h in
      let (p, v) = check_ports remote platform clock conn footprint u in
      let (_, answered, h2) = and_then-eq-return p _ v h1 in
      let later = (rest-Moves remote platform clock conn footprint kept).at v in
      elim (ports_inv conn u v (ap (λ p. (p, v)) answered)) [
        | inl free ↦ inl free
        | inr failed ↦ inr (subst Failed (ap (λ o. o.1) h2) (later failed))
      ]

  -- The failure of an earlier check is there at the end.
  going_inv :
      (conn : Conn) (offsets clocks : Offsets) (going : Bool) (s t : Session W)
      → Reached conn going s
      → check_going remote platform clock conn footprint offsets going s ≡ (return clocks, t)
      → IsReady conn ⊎ Failed t
  unfolding check_going
  going_inv conn offsets clocks going s t (inr failed) h = inr (
      subst Failed (ap (λ o. o.1) h)
        ((going-Moves remote platform clock conn footprint offsets going).at s failed))
  going_inv conn offsets clocks true s t (inl (root, goes)) h =
      elim (reached_inv conn offsets clocks s t h) [
        | inl free ↦ inl (record { runs_as_root = root; has_free_ports = free })
        | inr failed ↦ inr failed
      ]
  going_inv conn offsets clocks false s t (inl (root, goes)) h = ground arith

  node_inv :
      (conn : Conn) (offsets clocks : Offsets) (s t : Session W)
      → check_node remote platform clock conn footprint offsets s ≡ (return clocks, t)
      → IsReady conn ⊎ Failed t
  unfolding check_node
  node_inv conn offsets clocks s t h =
      let (o, u) = reach remote platform clock conn s in
      let (going, answered, h1) = and_then-eq-return o _ u h in
      going_inv conn offsets clocks going u t (reach_inv conn s u going (ap (λ o. (o, u)) answered))
        h1

  joined :
      (conn : Conn) (conns : List Conn) (t : Session W)
      → IsReady conn ⊎ Failed t
      → All IsReady conns ⊎ Failed t
      → All IsReady (conn ∷ conns) ⊎ Failed t
  joined conn conns t (inl ready) (inl others) = inl (ready, others)
  joined conn conns t (inr failed) others = inr failed
  joined conn conns t (inl ready) (inr failed) = inr failed

  pub nodes_inv :
      (conns : List Conn) (offsets clocks : Offsets) (s t : Session W)
      → check_nodes remote platform clock conns footprint offsets s ≡ (return clocks, t)
      → All IsReady conns ⊎ Failed t
  unfolding check_nodes
  nodes_inv [] offsets clocks s t h = inl tt
  nodes_inv (conn ∷ conns) offsets clocks s t h =
      let (o, u) = check_node remote platform clock conn footprint offsets s in
      let (kept, answered, h1) = and_then-eq-return o _ u h in
      let later = (nodes-Moves remote platform clock conns footprint kept).at u in
      let this : IsReady conn ⊎ Failed t =
        elim (node_inv conn offsets kept s u (ap (λ o. (o, u)) answered)) [
          | inl ready ↦ inl ready
          | inr failed ↦ inr (subst Failed (ap (λ o. o.1) h1) (later failed))
        ] in
      joined conn conns t this (nodes_inv conns kept clocks u t h1)
