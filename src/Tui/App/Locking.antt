-- ===== src/Tui/App/Locking.antt =====
-- tui/app.rs: when the tick locks a vault that nobody uses.
use re_vault.Prelude.{
  ℕ, ◌+◌, ◌≤◌, ◌<◌, ◌≡◌, refl, ap, ◌∙◌, true, false, List, [], ◌∷◌, Option, none, some, All, arith,
}
use re_vault.Error.{VaultError}
use re_vault.Session.{Session, is_expired, default_timeout}
use re_vault.Vault.State.{Platform}
use re_vault.Net.Invite.{Addresses}
use re_vault.Tui.Key.{System}
use re_vault.Tui.Bridge.{NetworkSession, SyncRequest}
use re_vault.Tui.Unlocked.{UnlockedState}
use re_vault.Tui.Poll.{poll_requests, poll_session, poll_network}
use re_vault.Tui.Vaults as Vaults
use re_vault.Tui.Vaults.{Floats, browsing, unlocked}
use re_vault.Tui.Vaults.Keys.{refresh, lock_or_poll, check_mode, check_timeout}
use re_vault.Tui.App.{App, tick}

module _ (w : Platform) (display : VaultError → List ℕ) where
  session-poll_requests :
      (net : NetworkSession) (requests : List SyncRequest) (s : UnlockedState)
      → (poll_requests w display net requests s).1.session ≡ s.session
  unfolding poll_requests
  session-poll_requests net [] s = refl
  session-poll_requests net (request ∷ more) s = refl

  session-poll_session :
      (o : Option NetworkSession) (s : UnlockedState)
      → (poll_session w display o s).1.session ≡ s.session
  unfolding poll_session
  session-poll_session none s = refl
  session-poll_session (some net) s = session-poll_requests net net.bridge.requests _

  session-poll_network : (s : UnlockedState) → (poll_network w display s).1.session ≡ s.session
  unfolding poll_network
  session-poll_network s = session-poll_session s.network s

expired-early :
    (now : ℕ) (s : Session)
    → s.timeout ≡ default_timeout
    → now < s.last_activity + default_timeout
    → is_expired now s ≡ false
unfolding is_expired
expired-early now s t h = ground (arith, t, h)

expired-late :
    (now : ℕ) (s : Session)
    → s.timeout ≡ default_timeout
    → s.last_activity + default_timeout ≤ now
    → is_expired now s ≡ true
unfolding is_expired
expired-late now s t h = ground (arith, t, h)

module _ (w : Platform) (F : Floats) (A : Addresses) (display : VaultError → List ℕ) where
  -- What a tick makes of a mode.
  abbrev mode_after : System → Vaults.Mode → App → Vaults.Mode
  mode_after system mode app = (check_mode w F display system mode app.vaults_tab).1.mode

  mode_after-early :
      (system : System) (s : UnlockedState) (app : App)
      → is_expired system.now s.session ≡ false
      → mode_after system (unlocked s) app ≡ unlocked (poll_network w display s).1
  unfolding check_mode lock_or_poll
  mode_after-early system s app h =
      ap (λ b. (lock_or_poll w F display b system s app.vaults_tab).1.mode) h

  mode_after-late :
      (system : System) (s : UnlockedState) (app : App)
      → is_expired system.now s.session ≡ true
      → mode_after system (unlocked s) app ≡ browsing
  unfolding check_mode lock_or_poll refresh
  mode_after-late system s app h =
      ap (λ b. (lock_or_poll w F display b system s app.vaults_tab).1.mode) h

  mode-tick :
      (system : System) (app : App)
      → (tick w F A display system app).1.vaults_tab.mode
        ≡ mode_after system app.vaults_tab.mode app
  unfolding tick check_timeout
  mode-tick system app = refl

  -- The ticks one after the other.
  unfoldable pub ticks : List System → App → App
  unfolding tick
  ticks [] app = app
  ticks (system ∷ systems) app = ticks systems (tick w F A display system app).1

  stays_unlocked :
      (systems : List System) (app : App) (s : UnlockedState)
      → app.vaults_tab.mode ≡ unlocked s
      → s.session.timeout ≡ default_timeout
      → All (λ system. system.now < s.session.last_activity + default_timeout) systems
      → (t : UnlockedState) × ((ticks systems app).vaults_tab.mode ≡ unlocked t)
        × (t.session ≡ s.session)
  unfolding ticks
  stays_unlocked [] app s mode timeout early = (s, mode, refl)
  stays_unlocked (system ∷ systems) app s mode timeout (now, early) =
      let after : UnlockedState = (poll_network w display s).1 in
      let same : after.session ≡ s.session = session-poll_network w display s in
      let (t, at, kept) =
        stays_unlocked systems (tick w F A display system app).1 after
          (mode-tick system app
            ∙ ap (λ m. mode_after system m app) mode
            ∙ mode_after-early system s app (expired-early system.now s.session timeout now))
          (ap (λ x. x.timeout) same ∙ timeout) (rw (same) early) in
      (t, at, kept ∙ same)

  -- A vault left alone: through any ticks within 30 seconds of the last activity it stays unlocked, and
  -- the first tick from then on locks it, whatever requests of peers were answered in between.
  pub mode-ticks :
      (systems : List System) (late : System) (app : App) (s : UnlockedState)
      → app.vaults_tab.mode ≡ unlocked s
      → s.session.timeout ≡ default_timeout
      → All (λ system. system.now < s.session.last_activity + default_timeout) systems
      → s.session.last_activity + default_timeout ≤ late.now
      → ((t : UnlockedState) × ((ticks systems app).vaults_tab.mode ≡ unlocked t))
        × ((tick w F A display late (ticks systems app)).1.vaults_tab.mode ≡ browsing)
  mode-ticks systems late app s mode timeout early over =
      let (t, at, kept) = stays_unlocked systems app s mode timeout early in
      (
        (t, at),
        mode-tick late (ticks systems app)
            ∙ ap (λ m. mode_after late m (ticks systems app)) at
            ∙ mode_after-late late t (ticks systems app) (
                expired-late late.now t.session (ap (λ x. x.timeout) kept ∙ timeout)
                  (omega (arith, ap (λ x. x.last_activity) kept, over))),
      )
