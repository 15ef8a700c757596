-- ===== src/Tui/Vaults/Keys.antt =====
-- tui/widgets/vaults/mod.rs: what the Vaults tab does with a key press and at a tick.
use re_vault.Prelude.{
  ℕ, ◌+◌, ◌-◌, Bool, true, false, not, List, [], ◌∷◌, map, Option, none, some, length, get_elem?,
  ltb, leb, ◌==◌, if◌then◌else◌, bytes_eq,
}
use re_vault.Error.{VaultError, incorrect_password, io, not_found, Result, ok, err}
use re_vault.Identity.{Identity, to_bytes, from_bytes}
use re_vault.Text.{Text, trim, is_empty, utf8}
use re_vault.Session.{is_expired}
use re_vault.Vault.State.{Platform, Vault}
use re_vault.Vault.Lifecycle.{create, peek_summary, open_vault}
use re_vault.Tui.Key.{KeyCode, char, enter, up, down, DirEntry, System}
use re_vault.Tui.Create as Create
use re_vault.Tui.Create.{CreateForm, CreateError, CreateOutcome}
use re_vault.Tui.Unlock as Unlock
use re_vault.Tui.Unlock.{UnlockForm, UnlockOutcome}
use re_vault.Tui.Unlocked.{UnlockedState, Flow, goes_on, lock, hangs}
use re_vault.Tui.Bridge.{SyncResponse}
use re_vault.Tui.Poll.{poll_network}
use re_vault.Tui.Unlocked.Submit
use re_vault.Tui.Unlocked.Keys as UnlockedKeys
use re_vault.Tui.Vaults.Paths.{unique_vault_path}
use re_vault.Tui.Vaults.{
  VaultListing, Mode, browsing, creating, unlocking, unlocked, stuck, App, sort_by_name, is_rvlt,
  listed, Floats, Checked, fine, wrong, parse_capacity, Creation, created, refused, no_path,
}

module _ (w : Platform) where
  unfoldable pub scan : List DirEntry → List VaultListing
  scan [] = []
  scan (entry ∷ entries) =
      let rest = scan entries in
      if is_rvlt entry.extension then listed entry (peek_summary w entry.contents) rest else rest

  unfoldable pub scan_vaults_dir : List DirEntry → List VaultListing
  scan_vaults_dir dir = sort_by_name (scan dir)

  unfoldable pub refresh : List DirEntry → App → App
  refresh dir app =
      let listing = scan_vaults_dir dir in
      record app {
        listing = listing;
        selected = if leb (length listing) app.selected then length listing - 1 else app.selected;
      }

  -- `load_or_create` of the identity is done.
  unfoldable pub new_with_dir : System → List ℕ → Identity → App
  new_with_dir system vaults_dir identity = record {
    vaults_dir = vaults_dir;
    listing = scan_vaults_dir system.dir;
    selected = 0;
    mode = browsing;
    identity = identity;
  }

module _ (w : Platform) (F : Floats) (display : VaultError → List ℕ) where
  abbrev pub creation_of : List ℕ → Result Vault → Creation
  creation_of path (err e) = refused (Create.vault_error e)
  creation_of path (ok v) = created path v

  unfoldable pub create_at : System → App → CreateForm → Text → ℕ → Option (List ℕ) → Creation
  create_at system app form name capacity_bytes none = no_path
  create_at system app form name capacity_bytes (some path) = creation_of path (
      create w false
        (record {
          name = utf8 name;
          description = utf8 (trim form.description_text);
          capacity_bytes = capacity_bytes;
        })
        (utf8 form.password_text) (from_bytes (to_bytes app.identity)) system.drawn)

  unfoldable pub create_with : System → App → CreateForm → Text → Checked ℕ → Creation
  create_with system app form name (wrong e) = refused e
  create_with system app form name (fine capacity_bytes) =
      create_at system app form name capacity_bytes
        (unique_vault_path (map (λ entry. entry.path) system.dir) app.vaults_dir (F.lower name))

  unfoldable pub try_create : System → App → CreateForm → Creation
  try_create system app form =
      let name = trim form.name_text in
      if is_empty name
      then refused Create.name_required
      else if is_empty form.password_text
      then refused Create.password_required
      else if not (bytes_eq form.password_text form.confirm_text)
      then refused Create.passwords_differ
      else create_with system app form name (parse_capacity F form.capacity_text)

  abbrev pub after_creation : CreateForm → Creation → Mode
  after_creation form (created path v) = browsing
  after_creation form (refused e) = creating (record form { error = some e })
  after_creation form no_path = stuck

  unfoldable pub creating_key : System → App → Option CreateOutcome × CreateForm → Mode
  creating_key system app (some Create.cancel, form) = browsing
  creating_key system app (some Create.submit, form) =
      after_creation form (try_create system app form)
  creating_key system app (none, form) = creating form

  -- A wrong password clears the field.
  abbrev pub failed_unlock : UnlockForm → VaultError → UnlockForm
  failed_unlock form incorrect_password = record form {
    password = [];
    error = some incorrect_password;
  }
  failed_unlock form e = record form { error = some e }

  unfoldable pub after_open : System → App → UnlockForm → List ℕ → List ℕ → Result Vault → Mode
  after_open system app form path name (ok vault) =
      unlocked (Submit.new w system.now vault path name (to_bytes app.identity))
  after_open system app form path name (err e) = unlocking (failed_unlock form e) path name

  -- The vault's file, if the path can be read.
  unfoldable pub open_file : System → App → UnlockForm → Option (List ℕ) → Result Vault
  open_file system app form none = err (io not_found)
  open_file system app form (some file) =
      open_vault w file (utf8 form.password) (from_bytes (to_bytes app.identity)) system.drawn

  unfoldable pub unlocking_key :
      System → App → List ℕ → List ℕ → Option UnlockOutcome × UnlockForm → Mode
  unlocking_key system app path name (some Unlock.cancel, form) = browsing
  unlocking_key system app path name (some Unlock.submit, form) =
      after_open system app form path name (open_file system app form (system.read path))
  unlocking_key system app path name (none, form) = unlocking form path name

  abbrev pub after_key : Flow × UnlockedState → Mode
  after_key (lock, s) = browsing
  after_key (goes_on, s) = unlocked s
  after_key (hangs, s) = stuck

  abbrev pub unlock_selected : Option VaultListing → Mode
  unlock_selected none = browsing
  unlock_selected (some v) = unlocking Unlock.empty_form v.path v.name

  -- The keys on the list of vaults: the selection and the mode.
  unfoldable pub browsing_key : KeyCode → App → ℕ × Mode
  browsing_key (char c) app =
      (app.selected, if c == b'+' then creating Create.empty_form else browsing)
  browsing_key up app = (app.selected - 1, browsing)
  browsing_key down app = (
    if ltb (app.selected + 1) (length app.listing) then app.selected + 1 else app.selected,
    browsing,
  )
  browsing_key enter app = (app.selected, unlock_selected (get_elem? app.listing app.selected))
  browsing_key key app = (app.selected, browsing)

  unfoldable pub process_key : System → KeyCode → Mode → App → ℕ × Mode
  process_key system key browsing app = browsing_key key app
  process_key system key (creating form) app =
      (app.selected, creating_key system app (Create.handle_key key form))
  process_key system key (unlocking form path name) app =
      (app.selected, unlocking_key system app path name (Unlock.handle_key key form))
  process_key system key (unlocked s) app =
      (app.selected, after_key (UnlockedKeys.handle_key w system key s))
  process_key system key stuck app = (app.selected, stuck)

  abbrev pub refreshed : List DirEntry → Mode → App → App
  refreshed dir browsing app = refresh w dir app
  refreshed dir mode app = app

  -- `dir` is what the directory holds when the key has been processed.
  unfoldable pub handle_key : System → List DirEntry → KeyCode → App → App
  handle_key system dir key app =
      let (selected, mode) = process_key system key app.mode app in
      refreshed dir mode (record app { selected = selected; mode = mode })

  -- An idle vault is locked, any other answers its peers. What is sent comes with it.
  unfoldable pub lock_or_poll : Bool → System → UnlockedState → App → Option SyncResponse × App
  lock_or_poll true system s app = (none, refresh w system.dir (record app { mode = browsing }))
  lock_or_poll false system s app =
      ((poll_network w display s).0, record app { mode = unlocked (poll_network w display s).1 })

  unfoldable pub check_mode : System → Mode → App → Option SyncResponse × App
  check_mode system (unlocked s) app = lock_or_poll (is_expired system.now s.session) system s app
  check_mode system mode app = (none, app)

  unfoldable pub check_timeout : System → App → Option SyncResponse × App
  check_timeout system app = check_mode system app.mode app
