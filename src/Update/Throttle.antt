-- ===== src/Update/Throttle.antt =====
-- How often akropolis/update.py asks GitHub, and what the answers that it keeps say.
use akropolis.Base.{
  ◌≡◌, refl, sym, ◌∙◌, ap, subst, ℕ, ltb, eqb, ◌+◌, String, true, false, ◌==◌, string_eq,
  if◌then◌else◌, Option, none, some, Bool-cases, inl, inr, arith,
}
use akropolis.Value.{Value}
use akropolis.Effects.{return, pure, ◌>>◌, and_then-eq-return}
use akropolis.Update.Version.{is_newer}
use akropolis.Update.{
  Cache, Machine, Services, check_interval_seconds, is_null, tag_of, or_known, last_checked,
  known_latest, notice, found_tag, write_cache, fetch_release, refresh, check_for_update,
  with_latest, tell, check_update_now,
}

module _ {B W : Type 0} (services : Services B W) where
  -- A session within the interval of its last check: the answer is the cache's.
  is_quiet :
      (current : String) (s : Machine B W)
      → ltb (services.time s.world) (last_checked s.cache + check_interval_seconds) ≡ true
      → check_for_update services current s ≡ (return (notice current (known_latest s.cache)), s)
  unfolding check_for_update
  is_quiet current s h = rw h refl

  quiet_after :
      (current : String) (s : Machine B W) (r : Option String) (checked : ℕ)
      → last_checked s.cache ≡ checked
      → notice current (known_latest s.cache) ≡ r
      → ltb (services.time s.world) (checked + check_interval_seconds) ≡ true
      → check_for_update services current s ≡ (return r, s)
  quiet_after current s r checked when answer early =
      is_quiet current s (
        subst (λ n. ltb (services.time s.world) (n + check_interval_seconds) ≡ true) (sym when)
          early)
      ∙ ap (λ r. (return r, s)) answer

  stored :
      {A : Type 0} (c : Cache) (a r : A) (s t : Machine B W)
      → (write_cache services c >> pure a) s ≡ (return r, t)
      → services.cache_writes t.world ≡ true
      → (t.cache ≡ some c) × ((a ≡ r) × (t.world ≡ s.world))
  unfolding write_cache
  stored c a r s t h writes = elim (Bool-cases (services.cache_writes s.world)) [
    | inl can ↦ ground (arith, rw can at h)
    | inr cannot ↦ ground (arith, rw cannot at h)
  ]

  -- What the check over the network leaves in the cache.
  refresh_inv :
      (current : String) (cache : Option Cache) (now : ℕ) (s t : Machine B W) (r : Option String)
      → refresh services current cache now s ≡ (return r, t)
      → services.cache_writes t.world ≡ true
      → (last_checked t.cache ≡ now) × (notice current (known_latest t.cache) ≡ r)
  unfolding refresh fetch_release write_cache
  refresh_inv current cache now s t r h writes =
      let (release, w) = services.fetch 3 s.world in
      let (tag, _, h1) = and_then-eq-return (found_tag release) _ (record s { world = w }) h in
      let latest = or_known tag (known_latest cache) in
      let (kept, (answer, _)) =
        stored (record { last_checked = now; latest = latest }) _ r _ t h1 writes in
      (ap last_checked kept, ap (λ c. notice current (known_latest c)) kept ∙ answer)

  -- After a check that went over the network and could write its cache, another check of the same
  -- version before the interval is over finds the cache as it was left, gives the same answer and
  -- touches nothing: there is one request in an interval at most.
  pub check_for_update_quiet :
      (current : String) (s t u : Machine B W) (r : Option String)
      → ltb (services.time s.world) (last_checked s.cache + check_interval_seconds) ≡ false
      → check_for_update services current s ≡ (return r, t)
      → services.cache_writes t.world ≡ true
      → u.cache ≡ t.cache
      → ltb (services.time u.world) (services.time s.world + check_interval_seconds) ≡ true
      → check_for_update services current u ≡ (return r, u)
  unfolding check_for_update
  check_for_update_quiet current s t u r due h writes same early =
      let (when, answer) =
        refresh_inv current s.cache (services.time s.world) s t r (rw due at h) writes in
      quiet_after current u r (services.time s.world) (ap last_checked same ∙ when)
        (ap (λ c. notice current (known_latest c)) same ∙ answer) early

  noticed :
      (current latest : String) (code : ℕ)
      → (latest == "") ≡ false
      → (if is_newer latest current then 1 else 0) ≡ code
      → notice current (some latest) ≡ (if eqb code 1 then some latest else none)
  unfolding notice
  noticed current latest code filled told = elim (Bool-cases (is_newer latest current)) [
    | inl newer ↦ ground (arith, rw newer at told)
    | inr older ↦ ground (arith, rw older at told)
  ]

  told_inv :
      (current latest : String) (release : Value) (code : ℕ) (s t : Machine B W)
      → tell services current release latest s ≡ (return code, t)
      → (latest == "") ≡ false
      → services.cache_writes t.world ≡ true
      → (last_checked t.cache ≡ services.time t.world)
        × (notice current (known_latest t.cache)
            ≡ (if eqb code 1 then known_latest t.cache else none))
  unfolding tell notice write_cache
  told_inv current latest release code s t h filled writes =
      let (kept, (told, still)) =
        stored (record { last_checked = services.time s.world; latest = some latest }) _ code s t h
          writes in
      (
        ap last_checked kept ∙ ap services.time (sym still),
        ap (λ c. notice current (known_latest c)) kept
            ∙ noticed current latest code filled told
            ∙ ap (λ c. if eqb code 1 then known_latest c else none) (sym kept),
      )

  with_latest_inv :
      (current : String) (release : Value) (code : ℕ) (s t : Machine B W)
      → with_latest services 2 (tell services current) release s ≡ (return code, t)
      → eqb code 2 ≡ false
      → services.cache_writes t.world ≡ true
      → (last_checked t.cache ≡ services.time t.world)
        × (notice current (known_latest t.cache)
            ≡ (if eqb code 1 then known_latest t.cache else none))
  unfolding with_latest
  with_latest_inv current release code s t h answered writes = elim (Bool-cases (is_null release)) [
    | inl null_release ↦ ground (arith, rw null_release at h)
    | inr there ↦
        let (latest, _, h1) = and_then-eq-return (tag_of release) _ s (rw there at h) in
        elim (Bool-cases (latest == "")) [
          | inl empty ↦ ground (arith, rw empty at h1)
          | inr filled ↦ told_inv current latest release code s t (rw filled at h1) filled writes
        ]
  ]

  -- Where `check_update_now` gives 0 or 1 and could write its cache, the cached check within the
  -- interval afterwards gives no version for 0, and the release that the cache names for 1, and
  -- touches nothing.
  pub check_update_now_agrees :
      (current : String) (code : ℕ) (s t u : Machine B W)
      → check_update_now services current s ≡ (return code, t)
      → eqb code 2 ≡ false
      → services.cache_writes t.world ≡ true
      → u.cache ≡ t.cache
      → ltb (services.time u.world) (services.time t.world + check_interval_seconds) ≡ true
      → check_for_update services current u
        ≡ (return (if eqb code 1 then known_latest t.cache else none), u)
  unfolding check_update_now
  check_update_now_agrees current code s t u h answered writes same early =
      let (o, v) = fetch_release services s in
      let (release, _, h1) = and_then-eq-return o _ v h in
      let (when, answer) = with_latest_inv current release code v t h1 answered writes in
      quiet_after current u (if eqb code 1 then known_latest t.cache else none)
        (services.time t.world) (ap last_checked same ∙ when)
        (ap (λ c. notice current (known_latest c)) same ∙ answer) early
