-- ===== src/Tui/App.antt =====
-- tui/app.rs and tui/event.rs: the application, its keys and its tick.
pub mod Locking
use re_vault.Prelude.{ℕ, Bool, true, false, not, ◌&&◌, List, Option, ◌==◌, if◌then◌else◌}
use re_vault.Error.{VaultError}
use re_vault.Vault.State.{Platform}
use re_vault.Net.Invite.{Addresses}
use re_vault.Tui.Key.{KeyCode, char, esc, tab, DirEntry, System}
use re_vault.Tui.Bridge.{SyncResponse}
use re_vault.Tui.Tab.{Tab, vaults, network, logs, settings, next}
use re_vault.Tui.Settings as Settings
use re_vault.Tui.Vaults as Vaults
use re_vault.Tui.Vaults.Keys as VaultsKeys
use re_vault.Tui.Network as Network
use re_vault.Tui.Network.Keys as NetworkKeys

pub record App : Type 0 where
  pub selected_tab : Tab
  pub vaults_tab : Vaults.App
  pub app_settings : Settings.AppSettings
  pub settings_ui : Settings.SettingsWidget
  pub network_ui : Network.Widget

unfoldable pub intercepted_in : Tab → App → Bool
intercepted_in vaults app = Vaults.intercepts_quit app.vaults_tab
intercepted_in network app = Network.is_modal app.network_ui
intercepted_in settings app = app.settings_ui.editing
intercepted_in logs app = false

unfoldable pub intercepts_quit : App → Bool
intercepts_quit app = intercepted_in app.selected_tab app

unfoldable pub blocked_in : Tab → App → Bool
blocked_in vaults app = Vaults.blocks_tab_switch app.vaults_tab
blocked_in network app = Network.is_modal app.network_ui
blocked_in settings app = app.settings_ui.editing
blocked_in logs app = false

unfoldable pub blocks_tab_switch : App → Bool
blocks_tab_switch app = blocked_in app.selected_tab app

abbrev pub is_quit : KeyCode → Bool
is_quit (char c) = c == b'q'
is_quit esc = true
is_quit key = false

abbrev pub is_tab : KeyCode → Bool
is_tab tab = true
is_tab key = false

module _ (w : Platform) (F : Vaults.Floats) (A : Addresses) (display : VaultError → List ℕ) where
  abbrev pub with_view : Network.View → App → App
  with_view v app = record app { vaults_tab = v.vaults; network_ui = v.network_ui }

  abbrev pub with_saved : Settings.Saved → App → App
  with_saved s app = record app { app_settings = s.settings; settings_ui = s.widget }

  -- The tab in front takes the key.
  unfoldable pub tab_key :
      System → NetworkKeys.Outside w A → List DirEntry → KeyCode → Tab → App → App
  tab_key system out dir key vaults app = record app {
    vaults_tab = VaultsKeys.handle_key w F display system dir key app.vaults_tab;
  }
  tab_key system out dir key network app =
      with_view
        (NetworkKeys.handle_key w A system out dir key
          (record { vaults = app.vaults_tab; network_ui = app.network_ui }))
        app
  tab_key system out dir key settings app =
      with_saved (Settings.handle_key key app.settings_ui app.app_settings) app
  tab_key system out dir key logs app = app

  -- Whether the application quits, and its state.
  unfoldable pub handle_key :
      System → NetworkKeys.Outside w A → List DirEntry → KeyCode → App → Bool × App
  handle_key system out dir key app =
      if not (intercepts_quit app) && is_quit key
      then (true, app)
      else if not (blocks_tab_switch app) && is_tab key
      then (false, record app { selected_tab = next app.selected_tab })
      else (false, tab_key system out dir key app.selected_tab app)

  -- What is sent to a peer, and the state.
  unfoldable pub tick : System → App → Option SyncResponse × App
  tick system app = (
    (VaultsKeys.check_timeout w F display system app.vaults_tab).0,
    record app { vaults_tab = (VaultsKeys.check_timeout w F display system app.vaults_tab).1 },
  )
