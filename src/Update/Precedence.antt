-- ===== src/Update/Precedence.antt =====
-- What it means in akropolis/update.py that a version is newer than another.
use akropolis.Base.{
  ◌≡◌, refl, ap, ◌∙◌, ◌↔◌, inl, inr, String, true, false, Option, none, some, List, [], ◌∷◌, ◌++◌,
  ℤ, pos, negsuc, ltb_ℤ, Bool-cases, arith,
}
use akropolis.Update.Version.{version_tuple, greater, newer_tuple, is_newer}

-- Two tuples that agree up to a first difference, at which the first has the greater number, or up
-- to the end of the second, after which the first goes on.
pub data Above (xs ys : List ℤ) : Type 0 where
  longer :
      (common : List ℤ) (x : ℤ) (more : List ℤ)
      → xs ≡ common ++ (x ∷ more)
      → ys ≡ common
      → Above xs ys
  larger :
      (common : List ℤ) (x y : ℤ) (more others : List ℤ)
      → ltb_ℤ y x ≡ true
      → xs ≡ common ++ (x ∷ more)
      → ys ≡ common ++ (y ∷ others)
      → Above xs ys

-- Both texts are dotted integers, and the first stands above.
pub record IsAbove (candidate current : String) : Type 0 where
  pub xs : List ℤ
  pub ys : List ℤ
  pub read_candidate : version_tuple candidate ≡ some xs
  pub read_current : version_tuple current ≡ some ys
  pub above : Above xs ys

ltb_ℤ_irrefl : (x : ℤ) → ltb_ℤ x x ≡ false
ltb_ℤ_irrefl (pos n) = ground arith
ltb_ℤ_irrefl (negsuc n) = ground arith

ltb_ℤ_eq : (x y : ℤ) → ltb_ℤ x y ≡ false → ltb_ℤ y x ≡ false → x ≡ y
ltb_ℤ_eq (pos m) (pos n) h k = ap pos (ground (arith, h, k))
ltb_ℤ_eq (pos m) (negsuc n) h k = ground (arith, h, k)
ltb_ℤ_eq (negsuc m) (pos n) h k = ground (arith, h, k)
ltb_ℤ_eq (negsuc m) (negsuc n) h k = ap negsuc (ground (arith, h, k))

Above-cons : (x y : ℤ) (xs ys : List ℤ) → x ≡ y → Above xs ys → Above (x ∷ xs) (y ∷ ys)
Above-cons x y xs ys e (longer common z more h k) =
    longer (y ∷ common) z more (ap (λ w. w ∷ xs) e ∙ ap (λ zs. y ∷ zs) h) (ap (λ zs. y ∷ zs) k)
Above-cons x y xs ys e (larger common z w more others l h k) =
    larger (y ∷ common) z w more others l (ap (λ w. w ∷ xs) e ∙ ap (λ zs. y ∷ zs) h)
      (ap (λ zs. y ∷ zs) k)

greater-Above : (xs ys : List ℤ) → greater xs ys ≡ true → Above xs ys
unfolding greater
greater-Above [] ys h = ground arith
greater-Above (x ∷ xs) [] h = longer [] x xs refl refl
greater-Above (x ∷ xs) (y ∷ ys) h = elim (Bool-cases (ltb_ℤ y x)) [
  | inl more ↦ larger [] x y xs ys more refl refl
  | inr no_more ↦ elim (Bool-cases (ltb_ℤ x y)) [
    | inl less ↦ ground (arith, rw less at (rw no_more at h))
    | inr no_less ↦
        Above-cons x y xs ys (ltb_ℤ_eq x y no_less no_more)
          (greater-Above xs ys (rw no_less at (rw no_more at h)))
  ]
]

greater_longer :
    (common : List ℤ) (x : ℤ) (more : List ℤ) → greater (common ++ (x ∷ more)) common ≡ true
unfolding greater
greater_longer [] x more = refl
greater_longer (z ∷ common) x more = rw (ltb_ℤ_irrefl z) (greater_longer common x more)

greater_larger :
    (common : List ℤ) (x y : ℤ) (more others : List ℤ)
    → ltb_ℤ y x ≡ true
    → greater (common ++ (x ∷ more)) (common ++ (y ∷ others)) ≡ true
unfolding greater
greater_larger [] x y more others l = rw l refl
greater_larger (z ∷ common) x y more others l =
    rw (ltb_ℤ_irrefl z) (greater_larger common x y more others l)

Above-greater : (xs ys : List ℤ) → Above xs ys → greater xs ys ≡ true
Above-greater xs ys (longer common x more h k) = rw h (rw k (greater_longer common x more))
Above-greater xs ys (larger common x y more others l h k) =
    rw h (rw k (greater_larger common x y more others l))

newer_inv :
    (candidate current : String) (x y : Option (List ℤ))
    → version_tuple candidate ≡ x
    → version_tuple current ≡ y
    → newer_tuple x y ≡ true
    → IsAbove candidate current
unfolding newer_tuple
newer_inv candidate current (some xs) (some ys) e k h = record {
  xs = xs;
  ys = ys;
  read_candidate = e;
  read_current = k;
  above = greater-Above xs ys h;
}
newer_inv candidate current (some xs) none e k h = ground arith
newer_inv candidate current none y e k h = ground arith

above_newer :
    (candidate current : String) → IsAbove candidate current → is_newer candidate current ≡ true
unfolding is_newer newer_tuple
above_newer candidate current a =
    rw a.read_candidate (rw a.read_current (Above-greater a.xs a.ys a.above))

-- A version is newer than another exactly where both are dotted integers and, up to a first
-- difference, they agree, at which the first has the greater number, or the second ends there and
-- the first goes on.
pub is_newer-IsAbove :
    (candidate current : String) → (is_newer candidate current ≡ true) ↔ IsAbove candidate current
unfolding is_newer
is_newer-IsAbove candidate current = (
  newer_inv candidate current (version_tuple candidate) (version_tuple current) refl refl,
  above_newer candidate current,
)
