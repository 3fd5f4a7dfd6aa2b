-- ===== src/Session/Uploaded.antt =====
-- What `push_binary` of akropolis/remote.py has seen where it returns.
use akropolis.Base.{
  ◌≡◌, sym, ap, subst, none, inl, inr, String, Bool, true, false, ◌&&◌, ◌==◌, string_eq, Bool-cases,
  arith,
}
use akropolis.Base.Text.{strip}
use akropolis.Effects.{return, and_then-eq-return}
use akropolis.Session.{Conn, Session}
use akropolis.Session.Remote.{Remote, Reply, is_ok, run}
use akropolis.Session.Pushing.{digest_command}
use akropolis.Session.Loops.{and-eq-true}
use akropolis.Session.Sent.{Exchange, run-eq-return, exchange-eq-return, Exchange-to}
use akropolis.Session.Uploading.{
  Local, staging_path, move_command, sum_command, remove_command, check_sum, after_move, put,
  upload, push_digest, give_digest, push_binary,
}

module _ {W : Type 0} (remote : Remote W) (local : Local W) where
  -- In the session `s` the checksum of the file there was asked for, which was another or none;
  -- then the staged copy was sent, then moved into place by a command that worked, and then the
  -- checksum was read again, last of all, and is that of the local file.
  pub record Installed (conn : Conn) (file path mode digest : String) (s t : Session W)
      : Type 0 where
    pub old : Reply
    pub asked : Session W
    pub first : Exchange remote conn (digest_command path) 30 old s.world asked.world
    pub differs : (is_ok old && strip old.out == digest) ≡ false
    pub staged : Session W
    pub sent :
        put remote local conn file (staging_path local.pid (local.file_name file)) asked
        ≡ (return tt, staged)
    pub move : Reply
    pub there : W
    pub moved :
        Exchange remote conn
          (move_command (staging_path local.pid (local.file_name file)) path mode)
          120
          move
          staged.world
          there
    pub works : is_ok move ≡ true
    pub sum : Reply
    pub summed : Exchange remote conn (sum_command path) 30 sum there t.world
    pub whole : strip sum.out ≡ digest

  -- The node had a file with the checksum there, and was sent nothing else.
  pub record InPlace (conn : Conn) (path digest : String) (s t : Session W) : Type 0 where
    pub reply : Reply
    pub asked : Exchange remote conn (digest_command path) 30 reply s.world t.world
    pub works : is_ok reply ≡ true
    pub same : strip reply.out ≡ digest

  abbrev pub Pushed :
      Conn → (file path mode digest : String) → Bool → Session W → Session W → Type 0
  Pushed conn file path mode digest true s t = Installed conn file path mode digest s t
  Pushed conn file path mode digest false s t = InPlace conn path digest s t

  -- What the move and the checksum after it have seen.
  record Moved (conn : Conn) (digest staging path mode : String) (s t : Session W) : Type 0 where
    pub move : Reply
    pub there : W
    pub moved : Exchange remote conn (move_command staging path mode) 120 move s.world there
    pub works : is_ok move ≡ true
    pub sum : Reply
    pub summed : Exchange remote conn (sum_command path) 30 sum there t.world
    pub whole : strip sum.out ≡ digest

  sum_inv :
      (conn : Conn) (digest path : String) (s t : Session W) (changed : Bool)
      → check_sum remote local conn digest path s ≡ (return changed, t)
      → (changed ≡ true)
        × ((r : Reply) × (Exchange remote conn (sum_command path) 30 r s.world t.world
              × (strip r.out ≡ digest)))
  unfolding check_sum
  sum_inv conn digest path s t changed h =
      let (r, (sent, h1)) = exchange-eq-return remote conn (sum_command path) 30 _ s h in
      elim (Bool-cases (strip r.out == digest)) [
        | inl same ↦
            let h2 = rw same at h1 in
            (
              ground (arith, ap (λ o. o.0) h2),
              (r, (Exchange-to remote (ap (λ o. o.1.world) h2) sent, ground (arith, same))),
            )
        | inr other ↦ ground (arith, rw other at h1)
      ]

  move_inv :
      (conn : Conn) (digest staging path : String) (r : Reply) (s t : Session W) (changed : Bool)
      → after_move remote local conn digest staging path r s ≡ (return changed, t)
      → (is_ok r ≡ true)
        × ((changed ≡ true)
            × ((r : Reply) × (Exchange remote conn (sum_command path) 30 r s.world t.world
                  × (strip r.out ≡ digest))))
  unfolding after_move
  move_inv conn digest staging path r s t changed h = elim (Bool-cases (is_ok r)) [
    | inl works ↦ (works, sum_inv conn digest path s t changed (rw works at h))
    | inr fails ↦
        let (gone, (_, h1)) =
          run-eq-return remote conn (remove_command staging) 30 _ s (rw fails at h) in
        ground (arith, h1)
  ]

  upload_inv :
      (conn : Conn) (digest file path mode : String) (s t : Session W) (changed : Bool)
      → upload remote local conn digest file path mode s ≡ (return changed, t)
      → let staging = staging_path local.pid (local.file_name file) in
        (changed ≡ true)
        × ((u : Session W) × ((put remote local conn file staging s ≡ (return tt, u))
              × Moved conn digest staging path mode u t))
  unfolding upload
  upload_inv conn digest file path mode s t changed h =
      let staging = staging_path local.pid (local.file_name file) in
      let (o, u) = put remote local conn file staging s in
      let (_, sent, h1) = and_then-eq-return o _ u h in
      let (move, (moved, h2)) =
        exchange-eq-return remote conn (move_command staging path mode) 120 _ u h1 in
      let (works, (is_changed, (sum, (summed, whole)))) =
        move_inv conn digest staging path move _ t changed h2 in
      (
        is_changed,
        (
          u,
          (
            ap (λ o. (o, u)) sent,
            record {
              move = move;
              there = _;
              moved = moved;
              works = works;
              sum = sum;
              summed = summed;
              whole = whole;
            },
          ),
        ),
      )

  digest_inv :
      (conn : Conn) (file path mode digest : String) (s t : Session W) (changed : Bool)
      → push_digest remote local conn file path mode digest s ≡ (return changed, t)
      → Pushed conn file path mode digest changed s t
  unfolding push_digest
  digest_inv conn file path mode digest s t changed h =
      let (r, (asked, h1)) = exchange-eq-return remote conn (digest_command path) 30 _ s h in
      let v = (run remote conn (digest_command path) none 30 s).1 in
      elim (Bool-cases (is_ok r && strip r.out == digest)) [
        | inl there ↦
            let (works, same) = and-eq-true (is_ok r) (strip r.out == digest) there in
            let h2 = rw there at h1 in
            let unchanged : changed ≡ false = ground (arith, ap (λ o. o.0) h2) in
            subst (λ b. Pushed conn file path mode digest b s t) (sym unchanged)
              (record {
                reply = r;
                asked = Exchange-to remote (ap (λ o. o.1.world) h2) asked;
                works = works;
                same = ground (arith, same);
              })
        | inr absent ↦
            let (is_changed, (u, (sent, m))) =
              upload_inv conn digest file path mode v t changed (rw absent at h1) in
            subst (λ b. Pushed conn file path mode digest b s t) (sym is_changed)
              (record {
                old = r;
                asked = v;
                first = asked;
                differs = absent;
                staged = u;
                sent = sent;
                move = m.move;
                there = m.there;
                moved = m.moved;
                works = m.works;
                sum = m.sum;
                summed = m.summed;
                whole = m.whole;
              })
      ]

  -- Where `push_binary` returns true, the node gave another checksum for the file or none; then
  -- the staged copy was sent, then moved to its place by a command that exited with 0, and the
  -- checksum that was then read there, as the last thing sent, is that of the local file. Where it
  -- returns false, a command that exited with 0 gave that checksum for the file that was there,
  -- and nothing else was sent.
  pub push_binary-Pushed :
      (conn : Conn) (file path mode : String) (s t : Session W) (changed : Bool)
      → push_binary remote local conn file path mode s ≡ (return changed, t)
      → (digest : String) × ((local.digest (local.expanduser file) ≡ return digest)
          × Pushed conn (local.expanduser file) path mode digest changed s t)
  unfolding push_binary give_digest
  push_binary-Pushed conn file path mode s t changed h =
      let expanded = local.expanduser file in
      let (digest, read, h1) =
        and_then-eq-return (local.digest expanded)
          (push_digest remote local conn expanded path mode) s h in
      (digest, (read, digest_inv conn expanded path mode digest s t changed h1))
