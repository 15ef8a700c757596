-- ===== src/Tui/Network/Keys.antt =====
-- tui/widgets/network_tab.rs: `handle_key`.
use re_vault.Prelude.{
  ℕ, ◌+◌, ◌-◌, Bool, ◌&&◌, List, [], Option, none, some, length, get_elem?, ltb, leb, ◌==◌,
  if◌then◌else◌,
}
use re_vault.Error.{Result, ok, err}
use re_vault.Identity.{PeerId}
use re_vault.Text.{Text, push, pop, trim}
use re_vault.Vault.State.{Platform}
use re_vault.Vault.Peers.{RecipientInfo}
use re_vault.Net.Invite.{Addresses, InviteCode, decode}
use re_vault.Tui.Key.{KeyCode, char, enter, esc, backspace, up, down, DirEntry, System}
use re_vault.Tui.Bridge.{NetworkSession}
use re_vault.Tui.Unlocked.{UnlockedState}
use re_vault.Tui.Poll.{
  TabError, vault_error, no_address, bad_port, Submitted, accepted, refused, hangs, submit_grant,
  submit_revoke, start_serving, stop_serving,
}
use re_vault.Tui.Vaults.Keys as VaultsKeys
use re_vault.Tui.Network.{
  Mode, idle, joining, granting, confirm_revoke, serve_prompt, stuck, Widget, View,
  current_unlocked, with_unlocked, active, parse_u16,
}

module _ (w : Platform) (A : Addresses) where
  -- What the tab asks of the system: whether the port can be bound, and what comes of writing a
  -- replica of a vault of the peer at the address into the vaults directory.
  pub record Outside : Type 0 where
    pub listens : ℕ → Bool
    pub replicate : PeerId → A.Address → Option TabError

  unfoldable pub join_at : Outside → PeerId → Option A.Address → Option TabError
  join_at out peer none = some no_address
  join_at out peer (some address) = out.replicate peer address

  abbrev pub join_invited : Outside → Result (InviteCode A) → Option TabError
  join_invited out (err e) = some (vault_error e)
  join_invited out (ok invite) = join_at out invite.peer_id invite.address

  -- The error, if any.
  unfoldable pub try_join : Outside → Text → Option TabError
  try_join out input = join_invited out (decode A (trim input))

  abbrev pub with_mode : Mode → View → View
  with_mode mode v = record v { network_ui = record v.network_ui { mode = mode } }

  abbrev pub target_of : Option RecipientInfo → Mode
  target_of none = idle
  target_of (some r) = confirm_revoke r.peer_id [] none

  unfoldable pub revoke_mode : Widget → Option UnlockedState → Mode
  revoke_mode widget none = idle
  revoke_mode widget (some s) = target_of (get_elem? s.recipients widget.recipients_selected)

  -- `n`: to serve, or to serve no more.
  unfoldable pub serving_key : UnlockedState → Option NetworkSession → View → View
  serving_key s none v = with_mode (serve_prompt [] none) v
  serving_key s (some net) v = with_unlocked (stop_serving s) v

  unfoldable pub idle_char : ℕ → Option UnlockedState → View → View
  idle_char c none v = if c == b'j' then with_mode (joining [] none) v else v
  idle_char c (some s) v =
      if c == b'j'
      then with_mode (joining [] none) v
      else if c == b'g'
      then with_mode (granting [] none) v
      else if c == b'r'
      then with_mode (revoke_mode v.network_ui (some s)) v
      else if c == b'n'
      then serving_key s s.network v
      else v

  abbrev pub select : ℕ → View → View
  select i v = record v { network_ui = record v.network_ui { recipients_selected = i } }

  abbrev pub recipient_count : Option UnlockedState → ℕ
  recipient_count none = 0
  recipient_count (some s) = length s.recipients

  unfoldable pub idle_key : KeyCode → View → View
  idle_key (char c) v = idle_char c (current_unlocked v) v
  idle_key up v = select (v.network_ui.recipients_selected - 1) v
  idle_key down v =
      let i = v.network_ui.recipients_selected in
      if ltb (i + 1) (recipient_count (current_unlocked v)) then select (i + 1) v else v
  idle_key key v = v

  unfoldable pub joined : List DirEntry → Text → Option TabError → View → View
  joined dir input none v = record v { vaults = VaultsKeys.refresh w dir v.vaults }
  joined dir input (some e) v = with_mode (joining input (some e)) v

  unfoldable pub joining_key :
      Outside → List DirEntry → KeyCode → Text → Option TabError → View → View
  joining_key out dir esc input error v = v
  joining_key out dir backspace input error v = with_mode (joining (pop input) error) v
  joining_key out dir (char c) input error v = with_mode (joining (push input c) error) v
  joining_key out dir enter input error v = joined dir input (try_join out input) v
  joining_key out dir key input error v = with_mode (joining input error) v

  -- After a submission: back to idle, or the form again, the vault changed in either case.
  unfoldable pub submitted : (TabError → Mode) → Submitted × UnlockedState → View → View
  submitted again (accepted, s) v = with_unlocked s v
  submitted again (refused e, s) v = with_mode (again e) (with_unlocked s v)
  submitted again (hangs, s) v = with_mode stuck (with_unlocked s v)

  unfoldable pub grant_entered : Text → Option UnlockedState → View → View
  grant_entered input none v = v
  grant_entered input (some s) v =
      submitted (λ e. granting input (some e)) (submit_grant w A input s) v

  unfoldable pub granting_key : KeyCode → Text → Option TabError → View → View
  granting_key esc input error v = v
  granting_key backspace input error v = with_mode (granting (pop input) error) v
  granting_key (char c) input error v = with_mode (granting (push input c) error) v
  granting_key enter input error v = grant_entered input (current_unlocked v) v
  granting_key key input error v = with_mode (granting input error) v

  -- An accepted revocation moves the selection back to the first peer; so does one with no vault open.
  unfoldable pub revoked : PeerId → Submitted × UnlockedState → View → View
  revoked target (accepted, s) v = select 0 (with_unlocked s v)
  revoked target (refused e, s) v =
      with_mode (confirm_revoke target [] (some e)) (with_unlocked s v)
  revoked target (hangs, s) v = with_mode stuck (with_unlocked s v)

  unfoldable pub revoke_entered : PeerId → Text → Option UnlockedState → View → View
  revoke_entered target password none v = select 0 v
  revoke_entered target password (some s) v = revoked target (submit_revoke w target password s) v

  unfoldable pub revoke_key : KeyCode → PeerId → Text → Option TabError → View → View
  revoke_key esc target password error v = v
  revoke_key backspace target password error v =
      with_mode (confirm_revoke target (pop password) error) v
  revoke_key (char c) target password error v =
      with_mode (confirm_revoke target (push password c) error) v
  revoke_key enter target password error v = revoke_entered target password (current_unlocked v) v
  revoke_key key target password error v = with_mode (confirm_revoke target password error) v

  unfoldable pub port_entered : Outside → Text → Option ℕ → Option UnlockedState → View → View
  port_entered out port_input none o v = with_mode (serve_prompt port_input (some bad_port)) v
  port_entered out port_input (some port) none v = v
  port_entered out port_input (some port) (some s) v =
      submitted (λ e. serve_prompt port_input (some e)) (start_serving out.listens port s) v

  unfoldable pub serve_key : Outside → KeyCode → Text → Option TabError → View → View
  serve_key out esc port_input error v = v
  serve_key out backspace port_input error v = with_mode (serve_prompt (pop port_input) error) v
  serve_key out (char c) port_input error v =
      if leb b'0' c && leb c b'9'
      then with_mode (serve_prompt (push port_input c) error) v
      else with_mode (serve_prompt port_input error) v
  serve_key out enter port_input error v =
      port_entered out port_input (parse_u16 (trim port_input)) (current_unlocked v) v
  serve_key out key port_input error v = with_mode (serve_prompt port_input error) v

  unfoldable pub mode_key : Outside → List DirEntry → KeyCode → Mode → View → View
  mode_key out dir key idle v = idle_key key v
  mode_key out dir key (joining input error) v = joining_key out dir key input error v
  mode_key out dir key (granting input error) v = granting_key key input error v
  mode_key out dir key (confirm_revoke target password error) v =
      revoke_key key target password error v
  mode_key out dir key (serve_prompt port_input error) v = serve_key out key port_input error v
  mode_key out dir key stuck v = with_mode stuck v

  -- The mode is idle while the key is handled, and afterwards what the handler makes it. `dir` is what
  -- the vaults directory holds when the key has been handled.
  unfoldable pub handle_key : System → Outside → List DirEntry → KeyCode → View → View
  handle_key system out dir key v =
      mode_key out dir key v.network_ui.mode
        (with_mode idle (active system.now (current_unlocked v) v))
