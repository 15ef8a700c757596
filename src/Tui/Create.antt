-- ===== src/Tui/Create.antt =====
-- tui/widgets/vaults/create/mod.rs: the form for a new vault.
use re_vault.Prelude.{[], Option, none, some, ascii}
use re_vault.Error.{VaultError}
use re_vault.Text.{Text, push, pop}
use re_vault.Tui.Key.{KeyCode, char, enter, esc, backspace, tab, back_tab, up, down}

pub data Field : Type 0 where
  name description capacity password confirm : Field

unfoldable pub next : Field → Field
next name = description
next description = capacity
next capacity = password
next password = confirm
next confirm = name

unfoldable pub prev : Field → Field
prev name = confirm
prev description = name
prev capacity = description
prev password = capacity
prev confirm = password

-- What the form shows; the source keeps the text.
pub data CreateError : Type 0 where
  name_required password_required passwords_differ : CreateError
  capacity_required bad_capacity_number capacity_not_positive : CreateError
  vault_error : VaultError → CreateError

pub record CreateForm : Type 0 where
  pub name_text : Text
  pub description_text : Text
  pub capacity_text : Text
  pub password_text : Text
  pub confirm_text : Text
  pub focus : Field
  pub error : Option CreateError

-- `CreateForm::default()`
abbrev pub empty_form : CreateForm
empty_form = record {
  name_text = [];
  description_text = [];
  capacity_text = ascii "10 GB";
  password_text = [];
  confirm_text = [];
  focus = name;
  error = none;
}

pub data CreateOutcome : Type 0 where
  submit cancel : CreateOutcome

-- An edit of `field_mut()`.
unfoldable pub edit_field : (Text → Text) → Field → CreateForm → CreateForm
edit_field f name form = record form { name_text = f form.name_text }
edit_field f description form = record form { description_text = f form.description_text }
edit_field f capacity form = record form { capacity_text = f form.capacity_text }
edit_field f password form = record form { password_text = f form.password_text }
edit_field f confirm form = record form { confirm_text = f form.confirm_text }

abbrev refocus : (Field → Field) → CreateForm → Option CreateOutcome × CreateForm
refocus f form = (none, record form { focus = f form.focus })

-- Enter submits from the last field only.
unfoldable pub enter_key : Field → CreateForm → Option CreateOutcome × CreateForm
enter_key confirm form = (some submit, form)
enter_key field form = (none, record form { focus = next field })

unfoldable pub handle_key : KeyCode → CreateForm → Option CreateOutcome × CreateForm
unfolding next prev
handle_key esc form = (some cancel, form)
handle_key tab form = refocus next form
handle_key down form = refocus next form
handle_key back_tab form = refocus prev form
handle_key up form = refocus prev form
handle_key enter form = enter_key form.focus form
handle_key backspace form = (none, edit_field pop form.focus form)
handle_key (char c) form = (none, edit_field (λ t. push t c) form.focus form)
handle_key key form = (none, form)
