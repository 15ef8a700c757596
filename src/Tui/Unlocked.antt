-- ===== src/Tui/Unlocked.antt =====
-- tui/widgets/vaults/unlocked.rs: the browser of an unlocked vault's files: its state, the selection
-- and the forms that it opens.
pub mod Submit
pub mod Keys
pub mod Selection
pub mod Deletion
pub mod Serving
use re_vault.Prelude.{
  ℕ, ◌+◌, ◌-◌, Bool, false, ◌||◌, List, [], ◌∷◌, Option, none, some, length, get_elem?, leb, ◌==◌,
  if◌then◌else◌,
}
use re_vault.Error.{VaultError}
use re_vault.Text.{Text}
use re_vault.Session.{Session}
use re_vault.Vault.State.{Vault}
use re_vault.Vault.Files.{FileInfo}
use re_vault.Vault.Peers.{RecipientInfo}
use re_vault.Identity.{PeerId}
use re_vault.Tui.Bridge.{NetworkSession, Failure}

-- What a form shows; the source keeps the text.
pub data FormError : Type 0 where
  both_required source_required source_unreadable : FormError
  vault_error : VaultError → FormError

-- The texts of `message`, each with what it names.
pub data Message : Type 0 where
  list_failed : VaultError → Message
  added updated deleted : List ℕ → Message
  delete_failed : VaultError → Message
  integrity_passed : Message
  integrity_failed : VaultError → Message
  synced : PeerId → Message
  sync_failed : Failure → Message

pub record AddFileForm : Type 0 where
  pub source_path : Text
  pub dest_name : Text
  pub focus_dest : Bool
  pub error : Option FormError

pub record UpdateFileForm : Type 0 where
  pub source_path : Text
  pub error : Option FormError

pub record UnlockedState : Type 0 where
  pub vault : Vault
  pub path : List ℕ
  pub name : List ℕ
  pub files : List FileInfo
  pub selected : ℕ
  pub session : Session
  pub message : Option Message
  pub add_form : Option AddFileForm
  pub update_form : Option UpdateFileForm
  pub delete_confirm : Option (List ℕ)
  pub network : Option NetworkSession
  pub recipients : List RecipientInfo
  pub local_identity_bytes : List ℕ

-- The enum `Outcome`; `hangs` is no value of it: the handler did not return.
pub data Flow : Type 0 where
  goes_on lock hangs : Flow

abbrev pub empty_add_form : AddFileForm
empty_add_form = record { source_path = []; dest_name = []; focus_dest = false; error = none }

abbrev pub empty_update_form : UpdateFileForm
empty_update_form = record { source_path = []; error = none }

-- `self.files.get(self.selected).map(|f| f.name.clone())`
abbrev pub name_of : Option FileInfo → Option (List ℕ)
name_of none = none
name_of (some f) = some f.name

unfoldable pub selected_name : UnlockedState → Option (List ℕ)
selected_name s = name_of (get_elem? s.files s.selected)

-- `if idx < 0 { 0 } else if idx >= len { len - 1 } else { idx }`, a negative index being 0 already
abbrev pub clamped : ℕ → ℕ → ℕ
clamped len idx = if leb len idx then len - 1 else idx

abbrev pub moved : List FileInfo → ℕ → UnlockedState → UnlockedState
moved [] idx s = s
moved (f ∷ fs) idx s = record s { selected = clamped (length s.files) idx }

-- `move_selection(-1)` and `move_selection(1)`. There are fewer than `2^31` files, so no cast wraps.
unfoldable pub move_up : UnlockedState → UnlockedState
move_up s = moved s.files (s.selected - 1) s

unfoldable pub move_down : UnlockedState → UnlockedState
move_down s = moved s.files (s.selected + 1) s

unfoldable pub start_add : UnlockedState → UnlockedState
start_add s = record s { add_form = some empty_add_form }

abbrev pub with_update_form : Option (List ℕ) → UnlockedState → UnlockedState
with_update_form none s = s
with_update_form (some name) s = record s { update_form = some empty_update_form }

unfoldable pub start_update : UnlockedState → UnlockedState
start_update s = with_update_form (selected_name s) s

abbrev pub with_delete_confirm : Option (List ℕ) → UnlockedState → UnlockedState
with_delete_confirm none s = s
with_delete_confirm (some name) s = record s { delete_confirm = some name }

unfoldable pub request_delete : UnlockedState → UnlockedState
request_delete s = with_delete_confirm (selected_name s) s
