-- ===== src/Tui/Network.antt =====
-- tui/widgets/network_tab.rs: the Network tab's own state and its keys.
pub mod Keys
pub mod Journal
use re_vault.Prelude.{
  ℕ, ◌+◌, ◌-◌, ◌*◌, ◌^◌, Bool, true, false, ◌&&◌, [], ◌∷◌, Option, none, some, ltb, leb, ◌==◌,
  if◌then◌else◌,
}
use re_vault.Identity.{PeerId}
use re_vault.Session.{record_activity}
use re_vault.Text.{Text}
use re_vault.Tui.Unlocked.{UnlockedState}
use re_vault.Tui.Poll.{TabError}
use re_vault.Tui.Vaults as Vaults
use re_vault.Tui.Vaults.Keys as VaultsKeys

pub data Mode : Type 0 where
  idle : Mode
  joining : Text → Option TabError → Mode
  granting : Text → Option TabError → Mode
  confirm_revoke : PeerId → Text → Option TabError → Mode
  serve_prompt : Text → Option TabError → Mode
  -- no value of the code: the handler did not return
  stuck : Mode

-- `NetworkTabWidget`
pub record Widget : Type 0 where
  pub mode : Mode
  pub recipients_selected : ℕ

-- The part of the application that the tab works on.
pub record View : Type 0 where
  pub vaults : Vaults.App
  pub network_ui : Widget

abbrev pub default_widget : Widget
default_widget = record { mode = idle; recipients_selected = 0 }

unfoldable pub is_modal : Widget → Bool
is_modal widget = elim widget.mode [ idle ↦ false | _ ↦ true ]

abbrev pub unlocked_in : Vaults.Mode → Option UnlockedState
unlocked_in (Vaults.unlocked s) = some s
unlocked_in mode = none

unfoldable pub current_unlocked : View → Option UnlockedState
current_unlocked v = unlocked_in v.vaults.mode

-- The state put back behind `current_unlocked_mut`.
abbrev pub with_unlocked : UnlockedState → View → View
with_unlocked s v = record v { vaults = record v.vaults { mode = Vaults.unlocked s } }

abbrev pub active : ℕ → Option UnlockedState → View → View
active now none v = v
active now (some s) v = with_unlocked (record s { session = record_activity now s.session }) v

-- The decimal digits typed, if they are digits and some.
unfoldable pub digits_from : ℕ → Text → Option ℕ
digits_from acc [] = some acc
digits_from acc (c ∷ s) =
    let rest = digits_from (acc * 10 + (c - b'0')) s in
    if leb b'0' c && leb c b'9' then rest else none

abbrev pub in_u16 : Option ℕ → Option ℕ
in_u16 none = none
in_u16 (some n) = if ltb n (2 ^ 16) then some n else none

-- `parse::<u16>()` of a text without a sign: the field takes digits only.
unfoldable pub parse_u16 : Text → Option ℕ
parse_u16 [] = none
parse_u16 (c ∷ s) = in_u16 (digits_from 0 (c ∷ s))
