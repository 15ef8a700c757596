-- ===== src/Tui/Unlocked/Submit.antt =====
-- tui/widgets/vaults/unlocked.rs: what the browser does with the vault.
use re_vault.Prelude.{ℕ, ◌-◌, ◌||◌, List, [], Option, none, some, length, leb, if◌then◌else◌}
use re_vault.Error.{VaultError}
use re_vault.Text.{trim, is_empty, utf8}
use re_vault.Session.{with_clock}
use re_vault.Vault.State.{Platform, Vault, Outcome, done, failed, loops, M, take_change_log}
use re_vault.Vault.Files.{FileInfo, list_files, add_file, update_file, delete_file}
use re_vault.Vault.Peers.{RecipientInfo, list_recipients}
use re_vault.Vault.Lifecycle.{chain_state}
use re_vault.Vault.Verify.{verify_integrity}
use re_vault.Net.Journal.{record_patch}
use re_vault.Tui.Key.{System}
use re_vault.Tui.Bridge.{NetworkSession}
use re_vault.Tui.Unlocked.{
  FormError, both_required, source_required, source_unreadable, vault_error, list_failed, added,
  updated, deleted, delete_failed, integrity_passed, integrity_failed, AddFileForm, UpdateFileForm,
  UnlockedState, Flow, goes_on, hangs, selected_name,
}

abbrev pub with_recipients : Outcome (List RecipientInfo) → UnlockedState → UnlockedState
with_recipients (done recipients) s = record s { recipients = recipients }
with_recipients (failed e) s = s
with_recipients loops s = s

abbrev pub with_files : Outcome (List FileInfo) → UnlockedState → UnlockedState
with_files (done files) s = record s {
  files = files;
  selected = if leb (length files) s.selected then length files - 1 else s.selected;
}
with_files (failed e) s = record s { message = some (list_failed e) }
with_files loops s = s

abbrev pub recorded : ℕ → Option NetworkSession → UnlockedState → UnlockedState
recorded seq_before none s = s
recorded seq_before (some net) s = record s {
  vault = (take_change_log s.vault).1;
  network = some (record net { journal = record_patch net.journal seq_before s.vault.change_log });
}

unfoldable pub record_patch_if_serving : ℕ → UnlockedState → UnlockedState
unfolding take_change_log
record_patch_if_serving seq_before s = recorded seq_before s.network s

abbrev pub with_integrity : Outcome (Unit {0}) → UnlockedState → Flow × UnlockedState
with_integrity (done _) s = (goes_on, record s { message = some integrity_passed })
with_integrity (failed e) s = (goes_on, record s { message = some (integrity_failed e) })
with_integrity loops s = (hangs, s)

module _ (w : Platform) where
  unfoldable pub refresh_recipients : UnlockedState → UnlockedState
  refresh_recipients s =
      with_recipients (list_recipients w s.vault).0
        (record s { vault = (list_recipients w s.vault).1 })

  unfoldable pub refresh_files : UnlockedState → UnlockedState
  refresh_files s =
      with_files (list_files w s.vault).0 (record s { vault = (list_files w s.vault).1 })

  unfoldable pub new : ℕ → Vault → List ℕ → List ℕ → List ℕ → UnlockedState
  new now vault path name local_identity_bytes = refresh_recipients (
      refresh_files (record {
        vault = vault;
        path = path;
        name = name;
        files = [];
        selected = 0;
        session = with_clock now;
        message = none;
        add_form = none;
        update_form = none;
        delete_confirm = none;
        network = none;
        recipients = [];
        local_identity_bytes = local_identity_bytes;
      }))

  -- The arms of a mutation's result: its patch is recorded and the files are listed again before the
  -- form is closed.
  unfoldable pub settle :
      ℕ
      → Outcome (Unit {0})
      → (UnlockedState → UnlockedState)
      → (VaultError → UnlockedState → UnlockedState)
      → UnlockedState
      → Flow × UnlockedState
  settle seq_before (done _) close fail s =
      (goes_on, close (refresh_files (record_patch_if_serving seq_before s)))
  settle seq_before (failed e) close fail s = (goes_on, fail e s)
  settle seq_before loops close fail s = (hangs, s)

  -- `let (seq_before, _) = self.vault.chain_state(); match self.vault.….(…) { … }`
  unfoldable pub mutate :
      M Unit
      → (UnlockedState → UnlockedState)
      → (VaultError → UnlockedState → UnlockedState)
      → UnlockedState
      → Flow × UnlockedState
  mutate m close fail s =
      settle (chain_state s.vault).0 (m s.vault).0 close fail (record s { vault = (m s.vault).1 })

  abbrev pub add_error : AddFileForm → FormError → UnlockedState → UnlockedState
  add_error form e s = record s { add_form = some (record form { error = some e }) }

  abbrev pub update_error : UpdateFileForm → FormError → UnlockedState → UnlockedState
  update_error form e s = record s { update_form = some (record form { error = some e }) }

  unfoldable pub add_read : AddFileForm → Option (List ℕ) → UnlockedState → Flow × UnlockedState
  add_read form none s = (goes_on, add_error form source_unreadable s)
  add_read form (some data_read) s =
      let dest = utf8 (trim form.dest_name) in
      mutate (add_file w dest data_read)
        (λ t. record t { add_form = none; message = some (added dest) })
        (λ e t. add_error form (vault_error e) t) s

  unfoldable pub submit_add : System → AddFileForm → UnlockedState → Flow × UnlockedState
  submit_add system form s =
      if is_empty (trim form.source_path) || is_empty (trim form.dest_name)
      then (goes_on, add_error form both_required s)
      else add_read form (system.read (utf8 (trim form.source_path))) s

  unfoldable pub update_read :
      UpdateFileForm → List ℕ → Option (List ℕ) → UnlockedState → Flow × UnlockedState
  update_read form target none s = (goes_on, update_error form source_unreadable s)
  update_read form target (some data_read) s =
      mutate (update_file w target data_read)
        (λ t. record t { update_form = none; message = some (updated target) })
        (λ e t. update_error form (vault_error e) t) s

  unfoldable pub update_target :
      System → UpdateFileForm → Option (List ℕ) → UnlockedState → Flow × UnlockedState
  update_target system form none s = (goes_on, record s { update_form = none })
  update_target system form (some target) s =
      if is_empty (trim form.source_path)
      then (goes_on, update_error form source_required s)
      else update_read form target (system.read (utf8 (trim form.source_path))) s

  unfoldable pub submit_update : System → UpdateFileForm → UnlockedState → Flow × UnlockedState
  submit_update system form s = update_target system form (selected_name s) s

  unfoldable pub confirm_delete : List ℕ → UnlockedState → Flow × UnlockedState
  confirm_delete name s =
      mutate (delete_file w name) (λ t. record t { message = some (deleted name) })
        (λ e t. record t { message = some (delete_failed e) }) (record s { delete_confirm = none })

  unfoldable pub verify : UnlockedState → Flow × UnlockedState
  verify s =
      with_integrity (verify_integrity w s.vault).0
        (record s { vault = (verify_integrity w s.vault).1 })
