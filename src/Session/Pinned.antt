-- ===== src/Session/Pinned.antt =====
-- Secrets generated once and kept in the state: `gen_password` of akropolis/remote.py through
-- `get_or_generate` of akropolis/state.py.
use akropolis.Base.{String, ◌≡◌, ap, sym, if◌then◌else◌, arith}
use akropolis.Base.Dict
use akropolis.Value.{Value, null, bool, int, float, str, other, list, dict}
use akropolis.State.{get_or_generate}
use akropolis.Effects.{return, pure, throw}
use akropolis.Session.{Session, Step}

-- `secrets.token_urlsafe(24)`, which draws from the system's randomness.
abbrev pub Tokens : Type 0 → Type 0
Tokens W = W → String × W

module _ {W : Type 0} (gen_password : Tokens W) where
  -- `ctx.state.get_or_generate(key, gen_password)`: the generator is called for a new key alone.
  unfoldable pub pinned : String → Step W Value
  unfolding Dict.has_key
  pinned key s =
      let (fresh, w) = gen_password s.world in
      let (v, st) = get_or_generate key (str fresh) s.state in
      let known = Dict.has_key key s.state.document.generated in
      (return v, record s { state = st; world = if known then s.world else w })

module _ {W : Type 0} where
  -- A secret that is used as a text.
  unfoldable pub as_text : Value → Step W String
  as_text (str s) = pure s
  as_text _ = throw "expected a string"

  -- Where the value is used as a text, it is that text, and nothing has changed.
  pub as_text-eq-return :
      (v : Value) (s t : Session W) (text : String)
      → as_text v s ≡ (return text, t)
      → (v ≡ str text) × (t ≡ s)
  unfolding as_text
  as_text-eq-return null s t text h = ground arith
  as_text-eq-return (bool b) s t text h = ground arith
  as_text-eq-return (int z) s t text h = ground arith
  as_text-eq-return (float whole is_zero shown) s t text h = ground arith
  as_text-eq-return (str given) s t text h =
      (ap str (ground (arith, ap (λ o. o.0) h)), ap (λ o. o.1) (sym h))
  as_text-eq-return (other given) s t text h = ground arith
  as_text-eq-return (list items) s t text h = ground arith
  as_text-eq-return (dict fields) s t text h = ground arith
