-- ===== src/Session/Uploading.antt =====
-- `put` of akropolis/sshexec.py, and `push_binary` and `base_url` of akropolis/remote.py. The local
-- file, the transfer and the number of the process are parameters.
use akropolis.Base.{
  ℕ, String, ◌<>◌, Bool, true, false, ◌&&◌, ◌==◌, string_eq, if◌then◌else◌, none, List, [], ◌∷◌,
}
use akropolis.Base.Text.{strip, shell_quote, decimal}
use akropolis.Value.{Value, str, is_text, or_else}
use akropolis.Config.{Node, SiteConfig}
use akropolis.Config.Address.{Platform, str_of}
use akropolis.Effects.{Outcome, raise, Raised, pure, throw, ◌>>=◌, ◌>>◌}
use akropolis.Session.{Conn, Step, add_note}
use akropolis.Session.Remote.{Remote, Reply, is_ok, run, ensure_connected}
use akropolis.Session.Pushing.{parent, digest_command}

-- What SFTP gives: an OSError with its text, or another exception.
pub data Transfer : Type 0 where
  sent : Transfer
  os_error : String → Transfer
  other_error : Raised → Transfer

-- `digest` reads the local file and gives its SHA-256; `file_name` is `Path.name`.
pub record Local (W : Type 0) : Type 0 where
  pub expanduser : String → String
  pub file_name : String → String
  pub digest : String → Outcome String
  pub pid : ℕ
  pub put : Conn → (local remote : String) → W → Transfer × W

unfoldable pub staging_path : ℕ → String → String
unfolding decimal
staging_path pid name = "/tmp/.akropolis-upload-" <> (decimal pid <> ("-" <> name))

unfoldable pub move_command : (staging path mode : String) → String
unfolding shell_quote
move_command staging path mode =
    "mkdir -p "
    <> (shell_quote (parent path)
        <> (" && mv "
            <> (shell_quote staging
                <> (" "
                    <> (shell_quote path
                        <> (" && chmod " <> (mode <> (" " <> shell_quote path))))))))

unfoldable pub sum_command : String → String
unfolding shell_quote
sum_command path = "sha256sum " <> (shell_quote path <> " | cut -d' ' -f1")

unfoldable pub remove_command : String → String
unfolding shell_quote
remove_command path = "rm -f " <> shell_quote path

module _ {W : Type 0} (remote : Remote W) (local : Local W) where
  -- `raise RuntimeError(...) from exc` for an OSError; the transcript notes what was sent.
  unfoldable pub after_put : Conn → (path staging : String) → Transfer → Step W (Unit {0})
  after_put conn path staging sent s =
      add_note
        ("["
          <> (conn.node.name
              <> ("] ("
                  <> (s.fleet.current_phase <> (") SFTP put " <> (path <> (" -> " <> staging)))))))
        s
  after_put conn path staging (os_error e) s =
      throw
        ("["
          <> (conn.node.name
              <> ("] SFTP upload of " <> (path <> (" to " <> (staging <> (" failed: " <> e)))))))
        s
  after_put conn path staging (other_error e) s = (raise e, s)

  transfer : Conn → (path staging : String) → Step W (Unit {0})
  unfolding after_put
  transfer conn path staging s =
      let (sent_or_not, w) = local.put conn path staging s.world in
      after_put conn path staging sent_or_not (record s { world = w })

  -- `conn.put(local, staging)` in its `try`. An OSError of the connection itself is not told apart.
  unfoldable pub put : Conn → (path staging : String) → Step W (Unit {0})
  unfolding transfer
  put conn path staging = ensure_connected remote conn >> transfer conn path staging

  -- The checksum after the move.
  unfoldable pub check_sum : Conn → (digest path : String) → Step W Bool
  unfolding strip
  check_sum conn digest path = run remote conn (sum_command path) none 30 >>= λ r.
      if strip r.out == digest
      then pure true
      else throw (
          "["
          <> (conn.node.name
              <> ("] " <> (path <> ": checksum mismatch after upload — transfer corrupted"))))

  -- After the move: the staged file goes where it failed.
  unfoldable pub after_move : Conn → (digest staging path : String) → Reply → Step W Bool
  after_move conn digest staging path r = if is_ok r then check_sum conn digest path else (do
    run remote conn (remove_command staging) none 30
    throw ("[" <> (conn.node.name <> ("] failed to install " <> (path <> (": " <> r.err))))))

  unfoldable pub upload : Conn → (digest file path mode : String) → Step W Bool
  unfolding staging_path
  upload conn digest file path mode = do
    let staging = staging_path local.pid (local.file_name file)
    put conn file staging
    r ← run remote conn (move_command staging path mode) none 120
    after_move conn digest staging path r

  -- The file is in place already, or it is uploaded.
  unfoldable pub push_digest : Conn → (file path mode digest : String) → Step W Bool
  unfolding strip
  push_digest conn file path mode digest = do
    r ← run remote conn (digest_command path) none 30
    if is_ok r && strip r.out == digest then pure false else upload conn digest file path mode

  unfoldable pub give_digest : Outcome String → Step W String
  give_digest o s = (o, s)

  -- `push_binary`
  unfoldable pub push_binary : Conn → (file path mode : String) → Step W Bool
  push_binary conn file path mode =
      let expanded = local.expanduser file in
      give_digest (local.digest expanded) >>= push_digest conn expanded path mode

-- `nodes[0].ip`; the configuration has a node.
first_ip : List Node → Value
first_ip [] = str ""
first_ip (n ∷ ns) = str n.ip

-- `base_url`
unfoldable pub base_url : Platform → SiteConfig → String
unfolding first_ip
base_url platform cfg =
    if is_text cfg.topology "single"
    then (if is_text cfg.tls.provider "none" then "http" else "https")
      <> ("://" <> str_of platform (or_else cfg.tls.hostname (first_ip cfg.nodes)))
    else if is_text cfg.tls.provider "none"
    then "http://" <> cfg.network.vip
    else "https://" <> str_of platform cfg.tls.hostname
