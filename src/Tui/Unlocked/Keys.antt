-- ===== src/Tui/Unlocked/Keys.antt =====
-- tui/widgets/vaults/unlocked.rs: `handle_key`.
use re_vault.Prelude.{
  ℕ, Bool, true, false, not, ◌||◌, List, Option, none, some, ◌==◌, if◌then◌else◌,
}
use re_vault.Text.{Text, push, pop}
use re_vault.Session.{record_activity}
use re_vault.Vault.State.{Platform}
use re_vault.Tui.Key.{KeyCode, char, enter, esc, backspace, tab, up, down, System}
use re_vault.Tui.Unlocked.{
  AddFileForm, UpdateFileForm, UnlockedState, Flow, goes_on, lock, move_up, move_down, start_add,
  start_update, request_delete,
}
use re_vault.Tui.Unlocked.Submit.{submit_add, submit_update, confirm_delete, verify}

unfoldable pub is_yes : KeyCode → Bool
is_yes (char c) = (c == b'y') || (c == b'Y')
is_yes enter = true
is_yes key = false

unfoldable pub is_no : KeyCode → Bool
is_no (char c) = (c == b'n') || (c == b'N')
is_no esc = true
is_no key = false

module _ (w : Platform) where
  -- The character typed or erased in the field in focus.
  abbrev pub edit : (Text → Text) → AddFileForm → AddFileForm
  edit f form =
      if form.focus_dest
      then record form { dest_name = f form.dest_name }
      else record form { source_path = f form.source_path }

  abbrev pub with_add_form : AddFileForm → UnlockedState → Flow × UnlockedState
  with_add_form form s = (goes_on, record s { add_form = some form })

  unfoldable pub add_form_key :
      System → KeyCode → AddFileForm → UnlockedState → Flow × UnlockedState
  add_form_key system esc form s = (goes_on, record s { add_form = none })
  add_form_key system tab form s =
      with_add_form (record form { focus_dest = not form.focus_dest }) s
  add_form_key system down form s =
      with_add_form (record form { focus_dest = not form.focus_dest }) s
  add_form_key system up form s = with_add_form (record form { focus_dest = not form.focus_dest }) s
  add_form_key system enter form s =
      if form.focus_dest
      then submit_add w system form s
      else with_add_form (record form { focus_dest = true }) s
  add_form_key system backspace form s = with_add_form (edit pop form) s
  add_form_key system (char c) form s = with_add_form (edit (λ t. push t c) form) s
  add_form_key system key form s = (goes_on, s)

  abbrev pub with_source : UpdateFileForm → Text → UnlockedState → Flow × UnlockedState
  with_source form t s =
      (goes_on, record s { update_form = some (record form { source_path = t }) })

  unfoldable pub update_form_key :
      System → KeyCode → UpdateFileForm → UnlockedState → Flow × UnlockedState
  update_form_key system esc form s = (goes_on, record s { update_form = none })
  update_form_key system enter form s = submit_update w system form s
  update_form_key system backspace form s = with_source form (pop form.source_path) s
  update_form_key system (char c) form s = with_source form (push form.source_path c) s
  update_form_key system key form s = (goes_on, s)

  unfoldable pub delete_key : KeyCode → List ℕ → UnlockedState → Flow × UnlockedState
  delete_key key name s =
      if is_yes key
      then confirm_delete w name s
      else if is_no key
      then (goes_on, record s { delete_confirm = none })
      else (goes_on, s)

  unfoldable pub char_key : ℕ → UnlockedState → Flow × UnlockedState
  char_key c s =
      if c == b'q'
      then (lock, s)
      else if c == b'a'
      then (goes_on, start_add s)
      else if c == b'u'
      then (goes_on, start_update s)
      else if c == b'd'
      then (goes_on, request_delete s)
      else if c == b'v'
      then verify w s
      else (goes_on, s)

  -- The keys with no form open.
  unfoldable pub browse_key : KeyCode → UnlockedState → Flow × UnlockedState
  browse_key esc s = (lock, s)
  browse_key up s = (goes_on, move_up s)
  browse_key down s = (goes_on, move_down s)
  browse_key (char c) s = char_key c s
  browse_key key s = (goes_on, s)

  -- The first form that is open takes the key.
  unfoldable pub dispatch :
      System
      → KeyCode
      → Option AddFileForm
      → Option UpdateFileForm
      → Option (List ℕ)
      → UnlockedState
      → Flow × UnlockedState
  dispatch system key (some form) update delete s = add_form_key system key form s
  dispatch system key none (some form) delete s = update_form_key system key form s
  dispatch system key none none (some name) s = delete_key key name s
  dispatch system key none none none s = browse_key key s

  unfoldable pub handle_key : System → KeyCode → UnlockedState → Flow × UnlockedState
  handle_key system key s =
      dispatch system key s.add_form s.update_form s.delete_confirm
        (record s { session = record_activity system.now s.session })
