-- ===== src/Session/Pushing.antt =====
-- `push_file` of akropolis/remote.py. The checksum and the encoding of the content,
-- which hashlib and base64 give, are a parameter.
use Prim.Native.Char.{code}
use akropolis.Base.{
  ℕ, eqb, String, ◌<>◌, Bool, true, false, not, ◌&&◌, ◌==◌, string_eq, if◌then◌else◌, Option, none,
  some, List, [], ◌∷◌, ◌++◌,
}
use akropolis.Base.Lines.{join}
use akropolis.Base.Text.{strip, shell_quote}
use akropolis.Effects.{pure, throw, ◌>>=◌}
use akropolis.Session.{Conn, Step}
use akropolis.Session.Remote.{Remote, Reply, is_ok, run}

-- `parse_octal` is `int(text, 8)`, none for a ValueError.
pub record Encoding : Type 0 where
  pub sha256 : String → String
  pub base64 : String → String
  pub parse_octal : String → Option ℕ

-- The text before the last slash; none where there is no slash.
before_slash : String → Option String
before_slash String.[] = none
before_slash (String.◌∷◌ c s) = elim (before_slash s) [
  | some rest ↦ some (String.◌∷◌ c rest)
  | none ↦ if eqb (code c) 47 then some "" else none
]

-- `path.rsplit("/", 1)[0]`
unfoldable pub parent : String → String
unfolding before_slash
parent path = elim (before_slash path) [ none ↦ path | some directory ↦ directory ]

-- The two modes are read and differ.
unfoldable pub modes_differ : Option ℕ → Option ℕ → Bool
modes_differ (some a) (some b) = not (eqb a b)
modes_differ _ _ = false

chown_command : Option String → String → List String
unfolding shell_quote
chown_command none path = []
chown_command (some owner) path =
    if owner == "" then [] else ("chown " <> (owner <> (" " <> shell_quote path))) ∷ []

unfoldable pub chown_suffix : Option String → String → String
unfolding shell_quote
chown_suffix none path = ""
chown_suffix (some owner) path =
    if owner == "" then "" else " && chown " <> (owner <> (" " <> shell_quote path))

unfoldable pub fixes : Bool → (path mode : String) → Option String → List String
unfolding chown_command shell_quote
fixes drift path mode owner =
    (if drift then ("chmod " <> (mode <> (" " <> shell_quote path))) ∷ [] else [])
    ++ chown_command owner path

unfoldable pub digest_command : String → String
unfolding shell_quote
digest_command path = "sha256sum " <> (shell_quote path <> " 2>/dev/null | cut -d' ' -f1")

module _ (encoding : Encoding) where
  -- `m.ok and int(m.out.strip(), 8) != int(mode, 8)`, or False for a ValueError.
  unfoldable pub has_drifted : String → Reply → Bool
  unfolding strip
  has_drifted mode r =
      is_ok r && modes_differ (encoding.parse_octal (strip r.out)) (encoding.parse_octal mode)

  unfoldable pub write_command : (content path mode : String) → Option String → String
  unfolding shell_quote parent
  write_command content path mode owner =
      "mkdir -p "
      <> (shell_quote (parent path)
          <> (" && echo "
              <> (shell_quote (encoding.base64 content)
                  <> (" | base64 -d > "
                      <> (shell_quote path
                          <> (" && chmod "
                              <> (mode
                                  <> (" " <> (shell_quote path <> chown_suffix owner path)))))))))

module _ {W : Type 0} (remote : Remote W) (encoding : Encoding) where
  unfoldable pub apply_fixes : Conn → String → List String → Step W Bool
  unfolding join
  apply_fixes conn path [] = pure false
  apply_fixes conn path (fix ∷ more) = run remote conn (join " && " (fix ∷ more)) none 30 >>= λ r.
      if is_ok r
      then pure false
      else throw
          ("[" <> (conn.node.name <> ("] failed to fix perms on " <> (path <> (": " <> r.err)))))

  -- The content is in place: only mode and owner converge.
  unfoldable pub converge : Conn → (path mode : String) → Option String → Step W Bool
  unfolding apply_fixes shell_quote
  converge conn path mode owner =
      run remote conn ("stat -c %a " <> shell_quote path) none 30 >>= λ m.
      apply_fixes conn path (fixes (has_drifted encoding mode m) path mode owner)

  unfoldable pub write : Conn → (content path mode : String) → Option String → Step W Bool
  write conn content path mode owner =
      run remote conn (write_command encoding content path mode owner) none 60 >>= λ r.
      if is_ok r
      then pure true
      else throw ("[" <> (conn.node.name <> ("] failed to write " <> (path <> (": " <> r.err)))))

  -- `push_file`
  unfoldable pub push_file : Conn → (content path mode : String) → Option String → Step W Bool
  push_file conn content path mode owner = run remote conn (digest_command path) none 30 >>= λ r.
      if is_ok r && r.out == encoding.sha256 content
      then converge conn path mode owner
      else write conn content path mode owner
