-- ===== src/Clean/Bare.antt =====
-- What the phase of akropolis/phases/clean_phase.py has done where it returns.
use akropolis.Base.{
  ◌≡◌, refl, sym, ◌∙◌, ap, subst, String, ◌<>◌, true, not, ◌&&◌, ◌||◌, Option, none, some, List,
  Bool-cases, inl, inr, arith,
}
use akropolis.Base.Dict.{lookup, lookup-insert_self}
use akropolis.Effects.{return, and_then-eq-return}
use akropolis.Effects.Moves.{Moves, Moves-bind, Moves-if}
use akropolis.State.{State, fresh_data}
use akropolis.State.Saving.{StateFile}
use akropolis.Session.{Conn, Session, add_check}
use akropolis.Session.Remote.{Remote, Reply, is_ok, run, add_reply}
use akropolis.Session.Waiting.{occurs_in}
use akropolis.Session.Frame.{SameSite, SameSite-checked, SameSite-IsRespected, run-Moves}
use akropolis.Session.Loops.{each, all_nodes-Moves, each-Moves, Chain, Chain-each, Chain-all_nodes}
use akropolis.Session.Sent.{Exchange, exchange-eq-return, Exchange-to}
use akropolis.Clean.{
  steps_of, gone_of, archive_file, guard_ufw, take_step, tear_down, archive_found, archive_state,
  apply, is_gone, is_bare, verify,
}

module _ {W : Type 0} (remote : Remote W) (stamp : W → String) where
  -- The step was sent to the node, and a firewall that did not reset would have ended the run.
  pub record Taken (conn : Conn) (step : String × String) (s t : Session W) : Type 0 where
    pub reply : Reply
    pub sent : Exchange remote conn step.1 300 reply s.world t.world
    pub safe : (is_ok reply || not (occurs_in "ufw" step.0)) ≡ true

  -- The check was sent to the node, and exited with 0.
  pub record Gone (conn : Conn) (check : String × String) (s t : Session W) : Type 0 where
    pub reply : Reply
    pub sent : Exchange remote conn check.1 30 reply s.world t.world
    pub works : is_ok reply ≡ true

  -- The steps were taken on the node one after the other; the traces were found gone in turn.
  abbrev pub TornDown : List (String × String) → Conn → Session W → Session W → Type 0
  TornDown steps conn = Chain (Taken conn) steps

  abbrev pub Bare : List (String × String) → Conn → Session W → Session W → Type 0
  Bare checks conn = Chain (Gone conn) checks

  is_gone_inv :
      (conn : Conn) (check : String × String) (s t : Session W)
      → is_gone remote stamp conn check s ≡ (return true, t)
      → Gone conn check s t
  unfolding is_gone add_check
  is_gone_inv conn check s t h =
      let (r, (sent, h1)) = exchange-eq-return remote conn check.1 30 _ s h in
      record {
        reply = r;
        sent = Exchange-to remote (ap (λ o. o.1.world) h1) sent;
        works = ground (arith, ap (λ o. o.0) h1);
      }

  is_bare_inv :
      (checks : List (String × String)) (conn : Conn) (s t : Session W)
      → is_bare remote stamp checks conn s ≡ (return true, t)
      → Bare checks conn s t
  unfolding is_bare
  is_bare_inv checks conn s t h =
      (Chain-all_nodes (is_gone remote stamp conn) (is_gone_inv conn) checks true s t h).1

  pub verify-Bare :
      (s t : Session W)
      → verify remote stamp s ≡ (return true, t)
      → Chain (Bare (gone_of s)) s.fleet.conns s t
  unfolding verify
  verify-Bare s t h =
      (Chain-all_nodes (is_bare remote stamp (gone_of s)) (is_bare_inv (gone_of s)) s.fleet.conns
        true s t h).1

  guard_inv :
      (conn : Conn) (label : String) (r : Reply) (s t : Session W)
      → guard_ufw remote stamp conn label r s ≡ (return tt, t)
      → ((is_ok r || not (occurs_in "ufw" label)) ≡ true) × (s.world ≡ t.world)
  unfolding guard_ufw
  guard_inv conn label r s t h = elim (Bool-cases (not (is_ok r) && occurs_in "ufw" label)) [
    | inl fails ↦ ground (arith, ap (λ o. o.0) (rw fails at h))
    | inr safe ↦ (ground (arith, safe), ap (λ o. o.1.world) (rw safe at h))
  ]

  take_step_inv :
      (conn : Conn) (step : String × String) (s t : Session W)
      → take_step remote stamp conn step s ≡ (return tt, t)
      → Taken conn step s t
  unfolding take_step add_reply add_check
  take_step_inv conn step s t h =
      let (r, (sent, h1)) = exchange-eq-return remote conn step.1 300 _ s h in
      let (safe, same) = guard_inv conn step.0 r _ t h1 in
      record { reply = r; sent = Exchange-to remote same sent; safe = safe }

  is_gone-Moves :
      (conn : Conn) (check : String × String) → Moves SameSite (is_gone remote stamp conn check)
  unfolding is_gone
  is_gone-Moves conn check =
      let k = SameSite-IsRespected remote in
      Moves-bind k.order (run remote conn check.1 none 30) _
        (run-Moves remote k conn check.1 none 30)
        λ r.
          Moves-bind k.order (add_check _) _ (record { at = SameSite-checked _ })
            λ _. record { at = k.order.reflexive }

  is_bare-Moves :
      (checks : List (String × String)) (conn : Conn)
      → Moves SameSite (is_bare remote stamp checks conn)
  unfolding is_bare
  is_bare-Moves checks conn =
      all_nodes-Moves (SameSite-IsRespected remote).order (is_gone remote stamp conn) true checks
        (is_gone-Moves conn)

  -- The verification changes neither the state nor the nodes.
  pub verify-Moves : Moves SameSite (verify remote stamp)
  unfolding verify
  verify-Moves = record {
    at = λ s.
        let k = SameSite-IsRespected remote in
        (all_nodes-Moves k.order (is_bare remote stamp (gone_of s)) true s.fleet.conns
            (is_bare-Moves (gone_of s))).at
          s;
  }

  guard-Moves :
      (conn : Conn) (label : String) (r : Reply)
      → Moves SameSite (guard_ufw remote stamp conn label r)
  unfolding guard_ufw
  guard-Moves conn label r =
      let k = SameSite-IsRespected remote in
      Moves-if k.order (not (is_ok r) && occurs_in "ufw" label) _ _
        (record { at = k.order.reflexive }) (record { at = k.order.reflexive })

  take_step-Moves :
      (conn : Conn) (step : String × String) → Moves SameSite (take_step remote stamp conn step)
  unfolding take_step add_reply
  take_step-Moves conn step =
      let k = SameSite-IsRespected remote in
      Moves-bind k.order (run remote conn step.1 none 300) _
        (run-Moves remote k conn step.1 none 300)
        λ r.
          Moves-bind k.order (add_check _) _ (record { at = SameSite-checked _ })
            λ _. guard-Moves conn step.0 r

  -- The state file is gone, and the secrets with it but for a copy that the owner alone can read.
  abbrev pub Archived : Option StateFile → State → State → Type 0
  Archived none s t = t ≡ s
  Archived (some f) s t =
      (t.document ≡ fresh_data s.site_name)
      × ((t.disk.file ≡ none)
          × ((w : W) × (lookup (s.disk.path <> (".cleaned-" <> stamp w)) t.disk.siblings
                ≡ some (record { content = f.content; owner_only = true }))))

  put_away_inv :
      (file : Option StateFile) (s t : Session W)
      → archive_found remote stamp file s ≡ (return tt, t)
      → Archived file s.state t.state × ((t.fleet.conns ≡ s.fleet.conns) × (t.world ≡ s.world))
  unfolding archive_found add_check archive_file
  put_away_inv none s t h = (
    ap (λ o. o.1.state) (sym h),
    (ap (λ o. o.1.fleet.conns) (sym h), ap (λ o. o.1.world) (sym h)),
  )
  put_away_inv (some f) s t h = (
    subst (Archived (some f) s.state) (ap (λ o. o.1.state) h)
        (refl, (refl, (s.world, lookup-insert_self _ _ s.state.disk.siblings))),
    (ap (λ o. o.1.fleet.conns) (sym h), ap (λ o. o.1.world) (sym h)),
  )

  -- Where the teardown returns, every step was taken on every node, and then the state was put
  -- away, and nothing more was sent.
  pub record IsTorn (s t : Session W) : Type 0 where
    pub stepped : Session W
    pub nodes : Chain (TornDown (steps_of s)) s.fleet.conns s stepped
    pub same_state : stepped.state ≡ s.state
    pub same_world : t.world ≡ stepped.world
    pub same_nodes : t.fleet.conns ≡ s.fleet.conns
    pub local : Archived s.state.disk.file stepped.state t.state

  tear_down-Moves :
      (steps : List (String × String)) (conn : Conn)
      → Moves SameSite (tear_down remote stamp steps conn)
  unfolding tear_down
  tear_down-Moves steps conn =
      each-Moves (SameSite-IsRespected remote).order (take_step remote stamp conn) steps
        (take_step-Moves conn)

  tear_down_inv :
      (steps : List (String × String)) (conn : Conn) (s t : Session W)
      → tear_down remote stamp steps conn s ≡ (return tt, t)
      → TornDown steps conn s t
  unfolding tear_down
  tear_down_inv steps conn = Chain-each (take_step remote stamp conn) (take_step_inv conn) steps

  pub apply-IsTorn : (s t : Session W) → apply remote stamp s ≡ (return tt, t) → IsTorn s t
  unfolding apply archive_state
  apply-IsTorn s t h =
      let steps = steps_of s in
      let (o, u) = each (tear_down remote stamp steps) s.fleet.conns s in
      let (done, answered, h1) = and_then-eq-return o _ u h in
      let same =
        (each-Moves (SameSite-IsRespected remote).order (tear_down remote stamp steps) s.fleet.conns
            (tear_down-Moves steps)).at
          s in
      let (put_away, (kept, still)) = put_away_inv u.state.disk.file u t h1 in
      record {
        stepped = u;
        nodes =
            Chain-each (tear_down remote stamp steps) (tear_down_inv steps) s.fleet.conns s u
              (ap (λ o. (o, u)) answered);
        same_state = same.1.0;
        same_world = still;
        same_nodes = kept ∙ same.1.1;
        local = subst (λ st. Archived st.disk.file u.state t.state) same.1.0 put_away;
      }
