-- ===== src/Update/Replacing.antt =====
-- What the installation of akropolis/update.py can have done to the running binary.
use akropolis.Base.{◌≡◌, refl, sym, ◌∙◌, subst, ◌⊎◌, inl, inr, ℕ, string_eq, none, some}
use akropolis.Effects.{Outcome, return, raise, exception, interrupt, Action, pure, and_then, ◌>>=◌}
use akropolis.Effects.Moves.{Moves, IsPreorder, Moves-bind, Moves-and_then}
use akropolis.Update.{
  Mode, Program, Machine, Syscall, stat, mkstemp, write, chmod, replace, unlink, Services,
}
use akropolis.Update.Install.{
  executable, fresh_file, call, set_tmp, clean_up, fill_and_replace, try_replace, install,
}

module _ {B W : Type 0} where
  abbrev pub SameProgram : Machine B W → Machine B W → Type 0
  SameProgram s t = t.exe ≡ s.exe

  order : IsPreorder {S = Machine B W} SameProgram
  order = record { reflexive = λ s. refl; transitive = λ s t u h k. k ∙ h }

module _ {B W : Type 0} (services : Services B W) where
  call-Moves :
      (c : Syscall) (effect : Machine B W → Machine B W)
      → ((s : Machine B W) → (effect s).exe ≡ s.exe)
      → Moves SameProgram (call services c effect)
  unfolding call
  call-Moves c effect same = record {
    at = λ s.
        let (r, w) = services.system c s.world in
        (Moves-and_then order r (λ _ t. (return tt, effect t)) (λ a. record { at = same })).at
          (record s { world = w });
  }

  clean_up-Moves : (r : Outcome (Unit {0})) → Moves SameProgram (clean_up services r)
  unfolding clean_up
  clean_up-Moves (return _) = record { at = λ s. refl }
  clean_up-Moves (raise (exception e)) = record {
    at =
        (Moves-bind order (call services unlink (set_tmp services none)) _
          (call-Moves unlink _ (λ s. refl)) λ _. record { at = λ s. refl }).at;
  }
  clean_up-Moves (raise interrupt) = record { at = λ s. refl }

  -- The program is the old one, or that of the bytes.
  abbrev pub Replaced : B → Mode → Machine B W → Machine B W → Type 0
  Replaced bytes mode s t =
      (t.exe ≡ s.exe) ⊎ (t.exe ≡ some (record { content = some bytes; mode = mode }))

  module _ (Q : Machine B W → Type 0) where
    ended :
        (r : Outcome (Unit {0})) (effect : Machine B W → Machine B W) (s : Machine B W)
        → Q s
        → Q (effect s)
        → Q (and_then r (λ _ t. (return tt, effect t)) s).1
    ended (return _) effect s raised returned = returned
    ended (raise e) effect s raised returned = raised

    -- A call that raises leaves what was, and one that returns what its effect makes of it.
    call_ends :
        (c : Syscall) (effect : Machine B W → Machine B W) (s : Machine B W)
        → ((w : W) → Q (record s { world = w }))
        → ((w : W) → Q (effect (record s { world = w })))
        → Q (call services c effect s).1
    unfolding call
    call_ends c effect s raised returned =
        let (r, w) = services.system c s.world in
        ended r effect (record s { world = w }) (raised w) (returned w)

    goes_on :
        {A : Type 0} (r : Outcome (Unit {0})) (effect : Machine B W → Machine B W)
        (f : Unit {0} → Action (Machine B W) A) (s : Machine B W)
        → Q s
        → Q (f tt (effect s)).1
        → Q (((λ u. and_then r (λ _ t. (return tt, effect t)) u) >>= f) s).1
    goes_on (return _) effect f s raised returned = returned
    goes_on (raise e) effect f s raised returned = raised

    call_then :
        {A : Type 0} (c : Syscall) (effect : Machine B W → Machine B W)
        (f : Unit {0} → Action (Machine B W) A) (s : Machine B W)
        → ((w : W) → Q (record s { world = w }))
        → ((w : W) → Q (f tt (effect (record s { world = w }))).1)
        → Q ((call services c effect >>= f) s).1
    unfolding call
    call_then c effect f s raised returned =
        let (r, w) = services.system c s.world in
        goes_on r effect f (record s { world = w }) (raised w) (returned w)

  fill_Replaced :
      (bytes : B) (mode : Mode) (s : Machine B W)
      → Replaced bytes mode s (fill_and_replace services bytes mode s).1
  unfolding fill_and_replace
  fill_Replaced bytes mode s =
      call_then (Replaced bytes mode s) write _ _ s (λ w. inl refl)
        λ w.
          call_then (Replaced bytes mode s) chmod _ _ _ (λ w. inl refl)
            λ w. call_ends (Replaced bytes mode s) replace _ _ (λ w. inl refl) (λ w. inr refl)

  try_Replaced :
      (bytes : B) (mode : Mode) (s : Machine B W)
      → Replaced bytes mode s (try_replace services bytes mode s).1
  unfolding try_replace
  try_Replaced bytes mode s =
      let (r, t) = fill_and_replace services bytes mode s in
      subst (λ e. (e ≡ s.exe) ⊎ (e ≡ some (record { content = some bytes; mode = mode })))
        (sym ((clean_up-Moves r).at t)) (fill_Replaced bytes mode s)

  then_zero :
      (r : Outcome (Unit {0})) (s : Machine B W) → (and_then {B = ℕ} r (λ _. pure 0) s).1 ≡ s
  then_zero (return _) s = refl
  then_zero (raise e) s = refl

  pub install-Replaced :
      (bytes : B) (old : Program B) (s : Machine B W)
      → Replaced bytes (executable old.mode) s (install services bytes old s).1
  unfolding install
  install-Replaced bytes old s =
      let mode = executable old.mode in
      call_then (Replaced bytes mode s) stat (λ m. m) _ s (λ w. inl refl)
        λ w.
          call_then (Replaced bytes mode s) mkstemp _ _ _ (λ w. inl refl)
            λ v.
              let begun = record s { tmp = some fresh_file; world = v } in
              let (r, t) = try_replace services bytes mode begun in
              subst (Replaced bytes mode s) (sym (then_zero r t)) (try_Replaced bytes mode begun)
