-- ===== src/Preflight/Ports.antt =====
-- The sets of ports of akropolis/phases/preflight.py: what is in them.
use akropolis.Base.{
  ◌≡◌, refl, ap, ◌∙◌, ℕ, ℤ, eqb, Bool, not, ◌&&◌, ◌||◌, List, [], ◌∷◌, keep, Bool-cases, inl, inr,
  arith,
}
use akropolis.Preflight.Tables.{has_port, listens, put_in_order, sorted, occupied_ports}

has_port-put_in_order :
    (p q : ℕ) (ps : List ℕ) → has_port (put_in_order q ps) p ≡ (eqb q p || has_port ps p)
unfolding put_in_order
has_port-put_in_order p q [] = refl
has_port-put_in_order p q (r ∷ rs) = ground (arith, has_port-put_in_order p q rs)

has_port-sorted : (p : ℕ) (ps : List ℕ) → has_port (sorted ps) p ≡ has_port ps p
unfolding sorted
has_port-sorted p [] = refl
has_port-sorted p (q ∷ ps) =
    ground (arith, has_port-put_in_order p q (sorted ps), has_port-sorted p ps)

has_port-keep :
    (f : ℕ → Bool) (p : ℕ) (ps : List ℕ) → has_port (keep f ps) p ≡ (has_port ps p && f p)
has_port-keep f p [] = refl
has_port-keep f p (q ∷ ps) = elim (Bool-cases (eqb q p)) [
  | inl same ↦
      let equal : q ≡ p = ground (arith, same) in
      ground (arith, has_port-keep f p ps, same, ap f equal)
  | inr other ↦ ground (arith, has_port-keep f p ps, other)
]

-- A port is listed as occupied exactly where it is required, something listens on it, and it is not
-- expected.
pub has_port-occupied_ports :
    (required expected : List ℕ) (listening : List ℤ) (p : ℕ)
    → has_port (occupied_ports required listening expected) p
      ≡ (has_port required p && (listens listening p && not (has_port expected p)))
unfolding occupied_ports
has_port-occupied_ports required expected listening p =
    has_port-sorted p (keep (λ q. listens listening q && not (has_port expected q)) required)
    ∙ has_port-keep (λ q. listens listening q && not (has_port expected q)) p required
