-- ===== src/Patroni/Leading.antt =====
-- The node that akropolis/phases/patroni_phase.py takes for the leader.
use akropolis.Base.{
  ◌≡◌, refl, ◌∙◌, ap, sym, ◌⊎◌, inl, inr, Bool, true, false, not, if◌then◌else◌, List, [], ◌∷◌,
  keep, arith,
}
use akropolis.Effects.{Outcome, return}
use akropolis.Session.{Conn, Session}
use akropolis.Patroni.{leader_conn}

-- The nodes that are marked as the bootstrap leader, in the order of the fleet.
abbrev pub leaders_among : List Conn → List Conn
leaders_among conns = keep (λ conn. conn.node.bootstrap_leader) conns

-- The other nodes, in the order of the fleet.
abbrev pub others_among : List Conn → List Conn
others_among conns = keep (λ conn. not conn.node.bootstrap_leader) conns

keep_head :
    {A : Type 0} (p : A → Bool) (x : A) (xs : List A) → p x ≡ true → keep p (x ∷ xs) ≡ x ∷ keep p xs
keep_head p x xs h = rw h refl

keep_tail :
    {A : Type 0} (p : A → Bool) (x : A) (xs : List A) → p x ≡ false → keep p (x ∷ xs) ≡ keep p xs
keep_tail p x xs h = rw h refl

leads : Conn → Bool
leads conn = conn.node.bootstrap_leader

module _ {W : Type 0} where
  head_inv :
      (here : Bool) (conn leader : Conn) (rest : Outcome Conn × Session W) (s t : Session W)
      → (if here then (return conn, s) else rest) ≡ (return leader, t)
      → ((here ≡ true) × ((conn ≡ leader) × (t ≡ s)))
        ⊎ ((here ≡ false) × (rest ≡ (return leader, t)))
  head_inv true conn leader rest s t h =
      inl (refl, (ground (arith, ap (λ o. o.0) h), ap (λ o. o.1) (sym h)))
  head_inv false conn leader rest s t h = inr (refl, h)

  -- It is the first of them, and looking for it changes nothing.
  pub leader_conn_inv :
      (conns : List Conn) (s t : Session W) (leader : Conn)
      → leader_conn conns s ≡ (return leader, t)
      → ((others : List Conn) × (leaders_among conns ≡ leader ∷ others)) × (t ≡ s)
  unfolding leader_conn leads
  leader_conn_inv [] s t leader h = ground arith
  leader_conn_inv (conn ∷ conns) s t leader h =
      elim (head_inv conn.node.bootstrap_leader conn leader (leader_conn conns s) s t h) [
        | inl here ↦ (
          (
            leaders_among conns,
            keep_head leads conn conns here.0 ∙ ap (λ c. c ∷ leaders_among conns) here.1.0,
          ),
          here.1.1,
        )
        | inr later ↦
            let (among, same) = leader_conn_inv conns s t leader later.1 in
            ((among.0, keep_tail leads conn conns later.0 ∙ among.1), same)
      ]
