-- ===== src/Session/Placed.antt =====
-- What `push_file` of akropolis/remote.py has seen where it returns.
use akropolis.Base.{
  ℕ, ◌≡◌, sym, ap, String, Bool, true, false, ◌&&◌, ◌==◌, string_eq, Option, none, List, [], ◌∷◌,
  arith, Bool-cases, inl, inr, subst, ◌<>◌,
}
use akropolis.Base.Lines.{join}
use akropolis.Base.Text.{shell_quote}
use akropolis.Effects.{Outcome, return, and_then-eq-return}
use akropolis.Session.{Conn, Session}
use akropolis.Session.Remote.{Remote, Reply, is_ok, run}
use akropolis.Session.Pushing.{
  Encoding, digest_command, has_drifted, fixes, apply_fixes, converge, write_command, write,
  push_file,
}

module _ {W : Type 0} (remote : Remote W) (encoding : Encoding) where
  -- A command that exited with 0, with the session that it left and its reply.
  pub record Worked (conn : Conn) (cmd : String) (t : Session W) (r : Reply) : Type 0 where
    pub limit : ℕ
    pub before : Session W
    pub sent : run remote conn cmd none limit before ≡ (return r, t)
    pub exited : is_ok r ≡ true

  -- True: the file was written, as the last thing. False: its checksum is that of the content.
  pub Placed :
      (changed : Bool) (conn : Conn) (content path mode : String) (owner : Option String)
      (t : Session W)
      → Type 0
  Placed true conn content path mode owner t =
      (r : Reply) × Worked conn (write_command encoding content path mode owner) t r
  Placed false conn content path mode owner t =
      (u : Session W) × (r : Reply) × Worked conn (digest_command path) u r
      × (r.out ≡ encoding.sha256 content)

  wrote :
      (conn : Conn) (content path mode : String) (owner : Option String) (r : Reply)
      (u t : Session W) (changed : Bool)
      → Worked conn (write_command encoding content path mode owner) u r
      → ◌≡◌ {A = Outcome Bool × Session W} (return true, u) (return changed, t)
      → Placed changed conn content path mode owner t
  unfolding Placed
  wrote conn content path mode owner r u t true worked h = (
    r,
    subst (λ v. Worked conn (write_command encoding content path mode owner) v r) (ap (λ o. o.1) h)
        worked,
  )
  wrote conn content path mode owner r u t false worked h = ground arith

  write_inv :
      (conn : Conn) (content path mode : String) (owner : Option String) (s t : Session W)
      (changed : Bool)
      → write remote encoding conn content path mode owner s ≡ (return changed, t)
      → Placed changed conn content path mode owner t
  unfolding write
  write_inv conn content path mode owner s t changed h =
      let (o, u) = run remote conn (write_command encoding content path mode owner) none 60 s in
      let (r, answered, h1) = and_then-eq-return o _ u h in
      elim (Bool-cases (is_ok r)) [
        | inl worked ↦
            wrote conn content path mode owner r u t changed
              (record { limit = 60; before = s; sent = ap (λ o. (o, u)) answered; exited = worked })
              (rw worked at h1)
        | inr failed ↦ ground arith
      ]

  apply_fixes_same :
      (conn : Conn) (path : String) (fix : List String) (s t : Session W) (changed : Bool)
      → apply_fixes remote encoding conn path fix s ≡ (return changed, t)
      → changed ≡ false
  unfolding apply_fixes
  apply_fixes_same conn path [] s t changed h = ground arith
  apply_fixes_same conn path (fix ∷ more) s t changed h =
      let (o, u) = run remote conn (join " && " (fix ∷ more)) none 30 s in
      let (r, _, h1) = and_then-eq-return o _ u h in
      elim (Bool-cases (is_ok r)) [ inl worked ↦ ground arith | inr failed ↦ ground arith ]

  converge_same :
      (conn : Conn) (path mode : String) (owner : Option String) (s t : Session W) (changed : Bool)
      → converge remote encoding conn path mode owner s ≡ (return changed, t)
      → changed ≡ false
  unfolding converge
  converge_same conn path mode owner s t changed h =
      let (o, u) = run remote conn ("stat -c %a " <> shell_quote path) none 30 s in
      let (m, _, h1) = and_then-eq-return o _ u h in
      apply_fixes_same conn path (fixes (has_drifted encoding mode m) path mode owner) u t changed
        h1

  -- Where `push_file` returns true, the last thing sent was the command that writes the file, and
  -- it exited with 0; where it returns false, the node gave the content's checksum for the file.
  pub push_file-Placed :
      (conn : Conn) (content path mode : String) (owner : Option String) (s t : Session W)
      (changed : Bool)
      → push_file remote encoding conn content path mode owner s ≡ (return changed, t)
      → Placed changed conn content path mode owner t
  unfolding push_file Placed
  push_file-Placed conn content path mode owner s t changed h =
      let (o, u) = run remote conn (digest_command path) none 30 s in
      let (r, answered, h1) = and_then-eq-return o _ u h in
      elim (Bool-cases (is_ok r && r.out == encoding.sha256 content)) [
        | inr differs ↦ write_inv conn content path mode owner u t changed (rw differs at h1)
        | inl same ↦
            subst (λ b. Placed b conn content path mode owner t)
              (sym (converge_same conn path mode owner u t changed (rw same at h1)))
              (
                u,
                r,
                record {
                  limit = 30;
                  before = s;
                  sent = ap (λ o. (o, u)) answered;
                  exited = ground arith;
                },
                ground arith,
              )
      ]
