-- ===== src/Haproxy/Routed.antt =====
-- What the verification of akropolis/phases/haproxy_phase.py has seen where it passes.
use akropolis.Base.{
  ◌≡◌, refl, sym, ap, ◌∙◌, subst, ◌⊎◌, inl, inr, String, Bool, true, false, none, some, Option,
  List, [], ◌∷◌, Bool-cases, arith, ◌==◌, string_eq,
}
use akropolis.Base.Dict
use akropolis.Base.Text.{strip}
use akropolis.Value.{Value, str, truthy}
use akropolis.Effects.{return, and_then-eq-return}
use akropolis.Session.{Conn, Session, add_check}
use akropolis.Session.Remote.{Remote, Reply, is_ok}
use akropolis.Session.Pushing.{Encoding}
use akropolis.Session.Loops.{
  first_conn, all_nodes, Chain, Chain-all_nodes, return-and-true, and-eq-true,
}
use akropolis.Session.Frame.{SameState-IsRespected, run-Moves}
use akropolis.Session.Pinned.{Tokens, as_text, as_text-eq-return}
use akropolis.Session.Sent.{
  Exchange, Polled, exchange-eq-return, polled-eq-return, Exchange-to, Polled-answer, Polled-to,
}
use akropolis.Haproxy.{
  Templates, csv_cmd, answers_cmd, backends_cmd, select_cmd, stats_password, converge, check_node,
  if_filled, database_password, works_through, select_one, end_to_end, verify_chain, verify,
}

unset_inv :
    (held : Option Value)
    → if_filled held ≡ none
    → (held ≡ none) ⊎ ((v : Value) × ((held ≡ some v) × (truthy v ≡ false)))
unfolding if_filled
unset_inv none h = inl refl
unset_inv (some v) h = elim (Bool-cases (truthy v)) [
  | inl filled ↦ ground (arith, rw filled at h)
  | inr empty ↦ inr (v, (refl, empty))
]

held_inv : (held : Option Value) (v : Value) → if_filled held ≡ some v → held ≡ some v
unfolding if_filled
held_inv none v h = ground arith
held_inv (some w) v h = elim (Bool-cases (truthy w)) [
  | inl filled ↦ rw filled at h
  | inr empty ↦ ground (arith, rw empty at h)
]

module _ {W : Type 0} (remote : Remote W) (encoding : Encoding) (gen_password : Tokens W)
    (templates : Templates) where
  -- The statistics of the node were polled until they answered, and then, with nothing in between,
  -- until one primary and two replicas were up.
  pub record Converged (csv : String) (conn : Conn) (s t : Session W) : Type 0 where
    pub answering_at : W
    pub answering : Polled remote conn (answers_cmd csv) none 60 5 true s.world answering_at
    pub backends : Polled remote conn (backends_cmd csv) none 90 5 true answering_at t.world

  -- The state has no password for the database, or an empty one.
  abbrev pub Unset : Session W → Type 0
  Unset t =
      (Dict.lookup "authentik_db_password" t.state.document.generated ≡ none)
      ⊎ ((v : Value) × ((Dict.lookup "authentik_db_password" t.state.document.generated ≡ some v)
            × (truthy v ≡ false)))

  -- The query through the first node, from the world `v` on, with the password of the state that
  -- it left, was the last command and worked.
  pub record Selected (first : Conn) (v : W) (t : Session W) : Type 0 where
    pub password : String
    pub of_state :
        Dict.lookup "authentik_db_password" t.state.document.generated ≡ some (str password)
    pub reply : Reply
    pub asked : Exchange remote first (select_cmd password) 30 reply v t.world
    pub works : is_ok reply ≡ true
    pub gave_one : (strip reply.out == "1") ≡ true

  -- The state has no password for the database, and nothing more was sent; or the query worked.
  abbrev pub ChainWorks : Conn → W → Session W → Type 0
  ChainWorks first v t = (Unset t × (v ≡ t.world)) ⊎ Selected first v t

  pub record IsRouted (s t : Session W) : Type 0 where
    pub password : String
    pub named : Session W
    pub of_state :
        stats_password remote encoding gen_password templates s ≡ (return (str password), named)
    pub looked : Session W
    pub nodes : Chain (Converged (csv_cmd password)) s.fleet.conns named looked
    pub first : Conn
    pub others : List Conn
    pub first_of : s.fleet.conns ≡ first ∷ others
    pub chain : ChainWorks first looked.world t

  converge_inv :
      (csv : String) (conn : Conn) (answering : Bool) (s t : Session W)
      → converge remote encoding gen_password templates csv conn answering s ≡ (return true, t)
      → (answering ≡ true) × Polled remote conn (backends_cmd csv) none 90 5 true s.world t.world
  unfolding converge add_check
  converge_inv csv conn true s t h =
      let (converged, (waited, h1)) =
        polled-eq-return remote conn (backends_cmd csv) none 90 5 _ s h in
      (
        refl,
        Polled-to remote (ap (λ o. o.1.world) h1)
            (Polled-answer remote (ground (arith, ap (λ o. o.0) h1)) waited),
      )
  converge_inv csv conn false s t h = ground (arith, ap (λ o. o.0) h)

  check_inv :
      (csv : String) (conn : Conn) (s t : Session W)
      → check_node remote encoding gen_password templates csv conn s ≡ (return true, t)
      → Converged csv conn s t
  unfolding check_node add_check
  check_inv csv conn s t h =
      let (answering, (waited, h1)) =
        polled-eq-return remote conn (answers_cmd csv) none 60 5 _ s h in
      let (good, backends) = converge_inv csv conn answering _ t h1 in
      record { answering_at = _; answering = Polled-answer remote good waited; backends = backends }

  password_same :
      (s t : Session W)
      → t.state ≡ s.state
      → database_password remote encoding gen_password templates t
        ≡ database_password remote encoding gen_password templates s
  unfolding database_password
  password_same s t e =
      ap
        (λ state.
          database_password remote encoding gen_password templates (record s { state = state }))
        e

  works_inv :
      (r : Reply)
      → works_through remote encoding gen_password templates r ≡ true
      → (is_ok r ≡ true) × ((strip r.out == "1") ≡ true)
  unfolding works_through
  works_inv r h = and-eq-true (is_ok r) _ h

  end_inv :
      (first : Conn) (ok : Bool) (password : Option Value) (s t : Session W)
      → database_password remote encoding gen_password templates s ≡ password
      → end_to_end remote encoding gen_password templates first ok password s ≡ (return true, t)
      → (ok ≡ true) × ChainWorks first s.world t
  unfolding end_to_end select_one add_check database_password
  end_inv first ok none s t e h = (
    ground (arith, ap (λ o. o.0) h),
    inl (unset_inv _ (password_same s t (sym (ap (λ o. o.1.state) h)) ∙ e), ap (λ o. o.1.world) h),
  )
  end_inv first ok (some v) s t e h =
      let (o, x) = as_text v s in
      let (password, read, h1) = and_then-eq-return o _ x h in
      let (is_text, same) = as_text-eq-return v s x password (ap (λ o. (o, x)) read) in
      let h2 =
        subst
          (λ x.
            select_one remote encoding gen_password templates first ok password x
            ≡ (return true, t))
          same h1 in
      let (r, (asked, h3)) = exchange-eq-return remote first (select_cmd password) 30 _ s h2 in
      let (good, works) = return-and-true ok _ _ t h3 in
      let kept =
        sym (ap (λ o. o.1.state) h3)
        ∙ (run-Moves remote (SameState-IsRespected remote) first (select_cmd password) none 30).at
            s in
      (
        good,
        inr (record {
          password = password;
          of_state = held_inv _ (str password) (password_same s t kept ∙ (e ∙ ap some is_text));
          reply = r;
          asked = Exchange-to remote (ap (λ o. o.1.world) h3) asked;
          works = (works_inv r works).0;
          gave_one = (works_inv r works).1;
        }),
      )

  chain_inv :
      (conns : List Conn) (ok : Bool) (s t : Session W)
      → verify_chain remote encoding gen_password templates conns ok s ≡ (return true, t)
      → (ok ≡ true)
        × ((first : Conn) × ((others : List Conn) × ((conns ≡ first ∷ others)
                × ChainWorks first s.world t)))
  unfolding verify_chain first_conn
  chain_inv [] ok s t h = ground arith
  chain_inv (first ∷ others) ok s t h =
      let (good, works) =
        end_inv first ok (database_password remote encoding gen_password templates s) s t refl h in
      (good, (first, (others, (refl, works))))

  -- Where the verification of the haproxy phase returns true, the statistics of each node in turn,
  -- asked with the state's password, answered and then showed one primary and two replicas up; and
  -- then a query through the first node with the password that the state holds for the database
  -- gave 1, or the state holds no such password and nothing more was sent.
  pub haproxy_verify-IsRouted :
      (s t : Session W)
      → verify remote encoding gen_password templates s ≡ (return true, t)
      → IsRouted s t
  unfolding verify
  haproxy_verify-IsRouted s t h =
      let (o, a) = stats_password remote encoding gen_password templates s in
      let (secret, found, h1) = and_then-eq-return o _ a h in
      let (p, b) = as_text secret a in
      let (password, read, h2) = and_then-eq-return p _ b h1 in
      let (is_text, same) = as_text-eq-return secret a b password (ap (λ p. (p, b)) read) in
      let check = check_node remote encoding gen_password templates (csv_cmd password) in
      let (q, c) = all_nodes check true s.fleet.conns b in
      let (ok, visited, h3) = and_then-eq-return q _ c h2 in
      let (good, (first, (others, (is_first, works)))) = chain_inv s.fleet.conns ok c t h3 in
      record {
        password = password;
        named = a;
        of_state = ap (λ o. (o, a)) (found ∙ ap return is_text);
        looked = c;
        nodes =
            subst (λ b. Chain (Converged (csv_cmd password)) s.fleet.conns b c) same
              (Chain-all_nodes check (check_inv (csv_cmd password)) s.fleet.conns true b c
                (ap (λ q. (q, c)) (visited ∙ ap return good))).1;
        first = first;
        others = others;
        first_of = is_first;
        chain = works;
      }
