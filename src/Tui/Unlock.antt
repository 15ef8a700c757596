-- ===== src/Tui/Unlock.antt =====
-- tui/widgets/vaults/unlock.rs: the form for a vault's password.
use re_vault.Prelude.{[], Option, none, some}
use re_vault.Error.{VaultError}
use re_vault.Text.{Text, push, pop}
use re_vault.Tui.Key.{KeyCode, char, enter, esc, backspace}

pub record UnlockForm : Type 0 where
  pub password : Text
  pub error : Option VaultError

-- `UnlockForm::default()`
abbrev pub empty_form : UnlockForm
empty_form = record { password = []; error = none }

pub data UnlockOutcome : Type 0 where
  submit cancel : UnlockOutcome

unfoldable pub handle_key : KeyCode → UnlockForm → Option UnlockOutcome × UnlockForm
handle_key esc form = (some cancel, form)
handle_key enter form = (some submit, form)
handle_key backspace form = (none, record form { password = pop form.password })
handle_key (char c) form = (none, record form { password = push form.password c })
handle_key key form = (none, form)
