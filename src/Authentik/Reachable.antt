-- ===== src/Authentik/Reachable.antt =====
-- What the verification of akropolis/phases/authentik_phase.py has seen where it passes.
use akropolis.Base.{
  ◌≡◌, refl, ap, ◌∙◌, sym, subst, ◌⊎◌, String, Bool, true, false, ◌&&◌, ◌||◌, none, List, [], ◌∷◌,
  Bool-cases, inl, inr, arith, ◌==◌, string_eq,
}
use akropolis.Base.Dict
use akropolis.Base.Text.{strip}
use akropolis.Value.{str}
use akropolis.Effects.{return, pure, ◌>>=◌, and_then-eq-return}
use akropolis.Session.{Conn, Session, add_check}
use akropolis.Session.Remote.{Remote, Reply, is_ok, run}
use akropolis.Session.Waiting.{all_healthy, wait_healthy, occurs_in}
use akropolis.Session.Loops.{first_conn, all_nodes, Chain, Chain-all_nodes, return-and-true}
use akropolis.Session.Frame.{SameState, SameState-IsRespected, run-Moves}
use akropolis.Effects.Moves.{Moves, Moves-bind, Moves-if}
use akropolis.Session.Pinned.{as_text, as_text-eq-return}
use akropolis.Session.Sent.{
  Exchange, Polled, exchange-eq-return, polled-eq-return, Exchange-from, Exchange-to, Polled-answer,
}
use akropolis.Authentik.Token.{
  alive_cmd, is_alive, shell_works, mint_cmd, mint_script, token_alive, after_mint,
  remint_bootstrap_token,
}
use akropolis.Authentik.{
  ready_cmd, is_ready, record_ready, check_health, recover, check_api, bootstrap_token, verify_api,
  verify,
}

module _ {W : Type 0} (remote : Remote W) (repr : String → String) where
  -- Both containers were healthy, and then the server was asked, and nothing else was, and
  -- answered that it is ready.
  pub record Serving (conn : Conn) (s t : Session W) : Type 0 where
    pub healthy_at : W
    pub gate : Polled remote conn all_healthy none 60 10 true s.world healthy_at
    pub reply : Reply
    pub asked : Exchange remote conn ready_cmd 30 reply healthy_at t.world
    pub ready : (reply.out == "200" || reply.out == "204") ≡ true

  -- The node's interface was asked with the token from the world `v` to the world `w`.
  pub record Judged (conn : Conn) (token : String) (verdict : Bool) (v w : W) : Type 0 where
    pub reply : Reply
    pub asked : Exchange remote conn (alive_cmd token) 30 reply v w
    pub alive : (strip reply.out == "200") ≡ verdict

  -- The token was rejected, then minted by a script that worked, and then accepted.
  pub record Minted (conn : Conn) (token : String) (s t : Session W) : Type 0 where
    pub rejected_at : W
    pub rejected : Judged conn token false s.world rejected_at
    pub reply : Reply
    pub minted_at : W
    pub minted :
        Exchange remote conn (mint_cmd (mint_script (repr token))) 180 reply rejected_at minted_at
    pub works : (is_ok reply && occurs_in "OK " reply.out) ≡ true
    pub accepted : Judged conn token true minted_at t.world

  abbrev pub Accepted : Conn → String → Session W → Session W → Type 0
  Accepted conn token s t = Judged conn token true s.world t.world ⊎ Minted conn token s t

  pub record IsReachable (s t : Session W) : Type 0 where
    pub looked : Session W
    pub nodes : Chain Serving s.fleet.conns s looked
    pub token : String
    pub of_state :
        Dict.get_or "authentik_bootstrap_token" (str "") t.state.document.generated ≡ str token
    pub first : Conn
    pub others : List Conn
    pub first_of : s.fleet.conns ≡ first ∷ others
    pub accepted : Accepted first token looked t

  health_inv :
      (conn : Conn) (s t : Session W)
      → check_health remote repr conn s ≡ (return true, t)
      → Serving conn s t
  unfolding check_health wait_healthy record_ready add_check
  health_inv conn s t h =
      let (good, (waited, h1)) = polled-eq-return remote conn all_healthy none 60 10 _ s h in
      let (r, (asked, h2)) = exchange-eq-return remote conn ready_cmd 30 _ _ h1 in
      let (is_good, ready) = return-and-true good (is_ready r) _ t h2 in
      record {
        healthy_at = _;
        gate = Polled-answer remote is_good waited;
        reply = r;
        asked = Exchange-to remote (ap (λ o. o.1.world) h2) asked;
        ready = ready;
      }

  alive_inv :
      (conn : Conn) (token : String) (verdict : Bool) (s t : Session W)
      → token_alive remote repr conn token s ≡ (return verdict, t)
      → Judged conn token verdict s.world t.world
  unfolding token_alive is_alive
  alive_inv conn token verdict s t h =
      let (r, (asked, h1)) = exchange-eq-return remote conn (alive_cmd token) 30 _ s h in
      record {
        reply = r;
        asked = Exchange-to remote (ap (λ o. o.1.world) h1) asked;
        alive = ground (arith, ap (λ o. o.0) h1);
      }

  mint_inv :
      (conn : Conn) (token : String) (s u v t : Session W)
      → Judged conn token false s.world u.world
      → v.world ≡ u.world
      → remint_bootstrap_token remote repr conn token v ≡ (return true, t)
      → Minted conn token s t
  unfolding remint_bootstrap_token after_mint add_check shell_works
  mint_inv conn token s u v t rejected same h =
      let cmd = mint_cmd (mint_script (repr token)) in
      let (r, (minted, h1)) = exchange-eq-return remote conn cmd 180 _ v h in
      elim (Bool-cases (shell_works r)) [
        | inl works ↦ record {
          rejected_at = u.world;
          rejected = rejected;
          reply = r;
          minted_at = (run remote conn cmd none 180 v).1.world;
          minted = Exchange-from remote same minted;
          works = works;
          accepted = alive_inv conn token true _ t (rw works at h1);
        }
        | inr fails ↦ ground (arith, ap (λ o. o.0) (rw fails at h1))
      ]

  same_world :
      (conn : Conn) (token : String) (s v t : Session W)
      → v.world ≡ t.world
      → Accepted conn token s v
      → Accepted conn token s t
  same_world conn token s v t e (inl once) = inl (subst (Judged conn token true s.world) e once)
  same_world conn token s v t e (inr m) = inr (record {
    rejected_at = m.rejected_at;
    rejected = m.rejected;
    reply = m.reply;
    minted_at = m.minted_at;
    minted = m.minted;
    works = m.works;
    accepted = subst (Judged conn token true m.minted_at) e m.accepted;
  })

  recovered_inv :
      (conn : Conn) (token : String) (alive : Bool) (s u v : Session W)
      → token_alive remote repr conn token s ≡ (return alive, u)
      → recover remote repr conn token alive u ≡ (return true, v)
      → Accepted conn token s v
  unfolding recover add_check
  recovered_inv conn token true s u v h k = inl (
      subst (Judged conn token true s.world) (ap (λ o. o.1.world) k)
        (alive_inv conn token true s u h))
  recovered_inv conn token false s u v h k =
      inr (mint_inv conn token s u _ v (alive_inv conn token false s u h) refl k)

  api_inv :
      (conn : Conn) (token : String) (s t : Session W)
      → check_api remote repr conn token s ≡ (return true, t)
      → Accepted conn token s t
  unfolding check_api add_check
  api_inv conn token s t h =
      let (o, u) = token_alive remote repr conn token s in
      let (alive, answered, h1) = and_then-eq-return o _ u h in
      let (p, v) = recover remote repr conn token alive u in
      let (api, recovered, h2) = and_then-eq-return p _ v h1 in
      same_world conn token s v t (ap (λ o. o.1.world) h2) (
        recovered_inv conn token alive s u v (ap (λ o. (o, u)) answered)
          (ap (λ p. (p, v)) (recovered ∙ ap return (ground (arith, ap (λ o. o.0) h2)))))

  alive-Moves :
      (conn : Conn) (token : String) → Moves SameState (token_alive remote repr conn token)
  unfolding token_alive
  alive-Moves conn token =
      let k = SameState-IsRespected remote in
      Moves-bind k.order (run remote conn (alive_cmd token) none 30) _
        (run-Moves remote k conn (alive_cmd token) none 30) λ r. record { at = k.order.reflexive }

  minted-Moves :
      (conn : Conn) (token : String) (r : Reply)
      → Moves SameState (after_mint remote repr conn token r)
  unfolding after_mint add_check
  minted-Moves conn token r =
      let k = SameState-IsRespected remote in
      Moves-if k.order (shell_works r) _ _
        (Moves-bind k.order (add_check _) _ (record { at = λ s. refl }) λ _. alive-Moves conn token)
        (record { at = λ s. refl })

  recover-Moves :
      (conn : Conn) (token : String) (alive : Bool)
      → Moves SameState (recover remote repr conn token alive)
  unfolding recover remint_bootstrap_token add_check
  recover-Moves conn token true = record { at = λ s. refl }
  recover-Moves conn token false =
      let k = SameState-IsRespected remote in
      let cmd = mint_cmd (mint_script (repr token)) in
      Moves-bind k.order (add_check _) _ (record { at = λ s. refl })
        λ _.
          Moves-bind k.order (run remote conn cmd none 180) _ (run-Moves remote k conn cmd none 180)
            (minted-Moves conn token)

  api-Moves : (conn : Conn) (token : String) → Moves SameState (check_api remote repr conn token)
  unfolding check_api add_check
  api-Moves conn token =
      let k = SameState-IsRespected remote in
      Moves-bind k.order (token_alive remote repr conn token) _ (alive-Moves conn token) λ alive.
        Moves-bind k.order (recover remote repr conn token alive) _ (recover-Moves conn token alive)
          λ api. record { at = λ s. refl }

  token_of_state :
      (s t : Session W)
      → t.state ≡ s.state
      → bootstrap_token remote repr t ≡ bootstrap_token remote repr s
  unfolding bootstrap_token
  token_of_state s t e =
      ap (λ state. Dict.get_or "authentik_bootstrap_token" (str "") state.document.generated) e

  token_inv :
      (conns : List Conn) (ok : Bool) (s t : Session W)
      → verify_api remote repr conns ok s ≡ (return true, t)
      → (ok ≡ true)
        × ((token : String) × ((Dict.get_or "authentik_bootstrap_token"
                  (str "")
                  t.state.document.generated
                ≡ str token)
              × ((first : Conn) × ((others : List Conn) × ((conns ≡ first ∷ others)
                      × Accepted first token s t)))))
  unfolding verify_api first_conn bootstrap_token
  token_inv [] ok s t h = ground arith
  token_inv (first ∷ others) ok s t h =
      let (o, u) = as_text (bootstrap_token remote repr s) s in
      let (token, read, h0) = and_then-eq-return o _ u h in
      let (is_token, same) =
        as_text-eq-return (bootstrap_token remote repr s) s u token (ap (λ o. (o, u)) read) in
      let h1 =
        subst
          (λ u.
            (check_api remote repr first token >>= λ api. pure (ok && api)) u ≡ (return true, t))
          same h0 in
      let (p, v) = check_api remote repr first token s in
      let (api, answered, h2) = and_then-eq-return p _ v h1 in
      let (good, passed) = return-and-true ok api _ t h2 in
      let kept : t.state ≡ s.state = sym (ap (λ o. o.1.state) h2) ∙ (api-Moves first token).at s in
      (
        good,
        (
          token,
          (
            token_of_state s t kept ∙ is_token,
            (
              first,
              (
                others,
                (
                  refl,
                  same_world first token s v t (ap (λ o. o.1.world) h2)
                      (api_inv first token s v (ap (λ p. (p, v)) (answered ∙ ap return passed))),
                ),
              ),
            ),
          ),
        ),
      )

  -- Where the verification of the authentik phase returns true, each node in turn had both
  -- containers healthy and, asked next, answered that it is ready; then the first node of the
  -- fleet accepted the bootstrap token that the state holds at the end, at once, or after it had
  -- rejected the token and a script that worked had minted it again, with nothing else sent.
  pub verify-IsReachable :
      (s t : Session W) → verify remote repr s ≡ (return true, t) → IsReachable s t
  unfolding verify
  verify-IsReachable s t h =
      let (o, u) = all_nodes (check_health remote repr) true s.fleet.conns s in
      let (ok, visited, h1) = and_then-eq-return o _ u h in
      let (good, (token, (of_state, (first, (others, (first_of, accepted)))))) =
        token_inv s.fleet.conns ok u t h1 in
      record {
        looked = u;
        nodes =
            (Chain-all_nodes (check_health remote repr) health_inv s.fleet.conns true s u
              (ap (λ o. (o, u)) (visited ∙ ap return good))).1;
        token = token;
        of_state = of_state;
        first = first;
        others = others;
        first_of = first_of;
        accepted = accepted;
      }
